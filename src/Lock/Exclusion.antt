-- ===== src/Lock/Exclusion.antt =====
-- Who can change a lease that runs. These are statements about the critical sections of
-- internal/lock/service.go for every record, valid or not.
use lockd.Prelude.{
  ℕ, ◌≡◌, ◌≢◌, ◌⊎◌, refl, true, false, not, Bool-cases, Option, List, [], ◌∷◌, ◌++◌, length, Text,
  text_eq, text_beq_iff, contains, arith, if◌then◌else◌, inl, inr,
}
use lockd.Lock.Errors.{Error, ok, err, err_locked, err_token_invalid, Result-cases}
use lockd.Lock.Types.{Time, Duration, AcquireOptions, Lock, Waiter, new_waiter}
use lockd.Metrics.{inc_acquire_locked}
use lockd.Lock.Queue.{push}
use lockd.Lock.Lease.{lease_expired, normalize_ttl}
use lockd.Lock.Reentrant.{try_reenter}
use lockd.Lock.Shared.{Shared, expire_locked}
use lockd.Lock.Acquire.{
  AcquireStep, returned, waiting, acquire_locked, acquire_live, contend, join_queue,
}
use lockd.Lock.Calls.{renew_locked, renew_live, renew_failed, release_locked, release_live}

-- A lease that runs at `now`.
pub record Runs (item : Lock) (now : Time) : Type 0 where
  pub held : item.token ≢ []
  pub unexpired : lease_expired item.expires_at now ≡ false
  pub live : item.deleted ≡ false

-- The lease of two records is the same.
pub record SameLease (item item' : Lock) : Type 0 where
  pub same_token : item'.token ≡ item.token
  pub same_holder : item'.holder ≡ item.holder
  pub same_depth : item'.depth ≡ item.depth
  pub same_expiry : item'.expires_at ≡ item.expires_at

unchanged : (item : Lock) → SameLease item item
unchanged item = record {
  same_token = refl;
  same_holder = refl;
  same_depth = refl;
  same_expiry = refl;
}

-- Acquire fails: at once for a caller that does not wait, or for its term.
abbrev Fails : AcquireOptions → Lock → Error → Type 0
Fails options item e =
    ((options.wait ≡ false) × (e ≡ err_locked))
    ⊎ (normalize_ttl options.ttl item.default_ttl ≡ err e)

-- A waiter for the holder stands at the end of the queue, behind all that stood there.
abbrev Joins : AcquireOptions → Lock → Lock → ℕ → Type 0
Joins options item item' a =
    (options.wait ≡ true)
    × (item'.queue ≡ item.queue ++ a ∷ [])
    × (a ≡ length item.waiters)
    × ((w : Waiter) × (item'.waiters ≡ item.waiters ++ w ∷ [])
        × (w.holder ≡ options.holder)
        × (w.granted ≡ false)
        × (w.done ≡ []))

-- No lease is given: the call fails and leaves the record as it is, or joins the queue.
abbrev pub GivesNothing : AcquireOptions → Lock → Lock → AcquireStep → Type 0
GivesNothing options item item' (returned (ok r)) = ⊥
GivesNothing options item item' (returned (err e)) = (item' ≡ item) × Fails options item e
GivesNothing options item item' (waiting a) = Joins options item item' a

module _ (rand : ℕ → Option (List ℕ)) where
  pub expire_locked_running :
      (s : Shared) (item : Lock) (now : Time)
      → Runs item now
      → expire_locked rand s item now ≡ (s, item, [])
  unfolding expire_locked
  expire_locked_running s item now r = ground (arith, r.held, r.unexpired)

  contend_excluded :
      (s : Shared) (item : Lock) (options : AcquireOptions) (now : Time)
      → (item.holder ≢ options.holder) ⊎ (item.reentrant ≡ false)
      → contend s item options now ≡ (
          if not options.wait
          then (
            record s { metrics = inc_acquire_locked s.metrics },
            item,
            returned (err err_locked),
          )
          else join_queue s item options now)
  unfolding contend try_reenter
  contend_excluded s item options now other =
      ground (arith, text_beq_iff item.holder options.holder)

  acquire_locked_refused :
      (s : Shared) (item : Lock) (options : AcquireOptions) (now : Time) {e : Error}
      → Runs item now
      → normalize_ttl options.ttl item.default_ttl ≡ err e
      → acquire_locked rand s item options now ≡ (s, item, returned (err e))
  unfolding acquire_locked
  acquire_locked_refused s item options now run refused = simp (run.live, refused) refl

  -- Of a lock that is held, Acquire contends for the lease.
  acquire_locked_held :
      (s : Shared) (item : Lock) (options : AcquireOptions) (now : Time) {ttl : Duration}
      → Runs item now
      → normalize_ttl options.ttl item.default_ttl ≡ ok ttl
      → acquire_locked rand s item options now ≡ contend s item (record options { ttl = ttl }) now
  unfolding acquire_locked acquire_live
  acquire_locked_held s item options now run taken =
      simp (run.live, taken, expire_locked_running s item now run) (ground (arith, run.held))

  -- While a lease runs, Acquire by another holder, or by the same one on a lock that is not
  -- reentrant, changes nothing of the lease and gives none: it fails, as locked where it does not
  -- wait or with the refusal of its term, and leaves the record as it is; or it waits, as it asked
  -- to, and a new waiter for its holder, with nothing granted, stands at the end of the queue as
  -- it was.
  pub acquire_locked_excluded :
      (s : Shared) (item : Lock) (options : AcquireOptions) (now : Time)
      → Runs item now
      → (item.holder ≢ options.holder) ⊎ (item.reentrant ≡ false)
      → let r = acquire_locked rand s item options now in
        SameLease item r.1 × GivesNothing options item r.1 r.2
  unfolding join_queue push new_waiter
  acquire_locked_excluded s item options now run other =
      elim (Result-cases (normalize_ttl options.ttl item.default_ttl)) [
        | inl (e, refused) ↦
            rw (acquire_locked_refused s item options now run refused)
              (unchanged item, (refl, inr refused))
        | inr (ttl, taken) ↦
            rw
              (
                acquire_locked_held s item options now run taken,
                contend_excluded s item (record options { ttl = ttl }) now other,
              )
              (elim (Bool-cases options.wait) [
                | inl waits ↦ simp waits (
                  record {
                    same_token = refl;
                    same_holder = refl;
                    same_depth = refl;
                    same_expiry = refl;
                  },
                  (refl, refl, refl, (_, refl, refl, refl, refl)),
                )
                | inr at_once ↦ simp at_once (unchanged item, (refl, inl (refl, refl)))
              ])
      ]

  -- While a lease runs, another token neither renews nor releases it: both calls leave the record
  -- as it is, a renewal fails as invalid, and so does a release unless it repeats one that the
  -- record remembers.
  pub foreign_token :
      (s : Shared) (item : Lock) (token : Text) (ttl : Duration) (now : Time)
      → Runs item now
      → token ≢ item.token
      → (renew_locked rand s item token ttl now ≡ (renew_failed s, item, err err_token_invalid))
        × (release_locked rand s item token now ≡ (
          s,
          item,
          if contains token item.released_token
              then ok (record { released = false; depth = 0; next_holder = [] })
              else err err_token_invalid,
        ))
  unfolding renew_locked renew_live release_locked release_live
  foreign_token s item token ttl now run other =
      let idle = expire_locked_running s item now run in
      (
        ground (arith, idle, run.held, run.live, text_beq_iff token item.token),
        ground (arith, idle, run.held, run.live, text_beq_iff token item.token),
      )
