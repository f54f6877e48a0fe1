-- ===== src/Lock/Levels.antt =====
-- Entering a lock again and giving the level back: `Acquire` and `Release` of
-- internal/lock/service.go with tryReenter and decreaseDepth.
use lockd.Prelude.{
  ℕ, ◌+◌, ◌-◌, ◌<◌, ◌≡◌, refl, true, false, Option, List, [], text, text_eq, text_beq_iff, contains,
  arith, pos, ◌≤ℤ◌,
}
use lockd.Lock.Errors.{ok}
use lockd.Lock.Types.{Time, Duration, Lock, EventKind, AcquireOptions, next64}
use lockd.Lock.Lease.{normalize_ttl, lease_expiry, lease_expired}
use lockd.Lock.Reentrant.{try_reenter, decrease_depth}
use lockd.Lock.Shared.{Shared, emit}
use lockd.Lock.Acquire.{acquire_locked, acquire_live, contend, count_acquire, returned}
use lockd.Lock.Calls.{release_locked, release_live}
use lockd.Lock.Exclusion.{Runs, expire_locked_running}

-- The record after its holder has entered it again.
abbrev deeper : Lock → Duration → Time → Lock
deeper item ttl now = record item {
  depth = item.depth + 1;
  expires_at = lease_expiry now ttl;
  version = next64 item.version;
}

module _ (rand : ℕ → Option (List ℕ)) where
  acquire_locked_again :
      (s : Shared) (item : Lock) (options : AcquireOptions) (now : Time) {ttl : Duration}
      → Runs item now
      → item.holder ≡ options.holder
      → item.reentrant ≡ true
      → pos (item.depth + 1) ≤ℤ item.max_depth
      → normalize_ttl options.ttl item.default_ttl ≡ ok ttl
      → acquire_locked rand s item options now ≡ (
        emit (count_acquire s) (deeper item ttl now) EventKind.held (text "reenter") now,
        deeper item ttl now,
        returned (
            ok (record {
              token = item.token;
              holder = options.holder;
              depth = item.depth + 1;
              expires_at = lease_expiry now ttl;
              reentered = true;
            })),
      )
  unfolding acquire_locked acquire_live contend try_reenter
  acquire_locked_again s item options now {ttl} run same again room taken =
      simp (run.live, taken, expire_locked_running rand s item now run)
        (ground (arith, run.held, same, again, room, text_beq_iff item.holder options.holder))

  release_locked_level :
      (s : Shared) (item : Lock) (now : Time)
      → Runs item now
      → 1 < item.depth
      → contains item.token item.released_token ≡ false
      → release_locked rand s item item.token now ≡ (
        s,
        record item {
          depth = item.depth - 1;
          expires_at = lease_expiry now item.default_ttl;
          version = next64 item.version;
        },
        ok (record { released = false; depth = item.depth - 1; next_holder = [] }),
      )
  unfolding release_locked release_live decrease_depth
  release_locked_level s item now run deep fresh = ground (
    arith,
    expire_locked_running rand s item now run,
    run.held,
    run.live,
    text_beq_iff item.token item.token,
  )

  -- When the holder of a reentrant lock asks for it again in time, below the depth limit and for
  -- an accepted term, and the record does not remember its token as released, it gets its token
  -- and one level more; when it then releases that token in time, the lock stays held with token,
  -- holder and depth as before both calls, and the lease ends a default term after the release.
  pub reenter_release :
      (s t : Shared) (item : Lock) (options : AcquireOptions) (now later : Time) {ttl : Duration}
      → Runs item now
      → 0 < item.depth
      → item.holder ≡ options.holder
      → item.reentrant ≡ true
      → pos (item.depth + 1) ≤ℤ item.max_depth
      → normalize_ttl options.ttl item.default_ttl ≡ ok ttl
      → contains item.token item.released_token ≡ false
      → lease_expired (lease_expiry now ttl) later ≡ false
      → let r = acquire_locked rand s item options now in
        let u = release_locked rand t r.1 item.token later in
        (r.2
          ≡ returned (
              ok (record {
                token = item.token;
                holder = options.holder;
                depth = item.depth + 1;
                expires_at = lease_expiry now ttl;
                reentered = true;
              })))
        × (u.2 ≡ ok (record { released = false; depth = item.depth; next_holder = [] }))
        × (u.0 ≡ t)
        × (u.1 ≡ record item {
          expires_at = lease_expiry later item.default_ttl;
          version = next64 (next64 item.version);
        })
  reenter_release s t item options now later {ttl} run entered same again room taken fresh intime =
      let deep = deeper item ttl now in
      let run' : Runs deep later = record {
        held = run.held;
        unexpired = intime;
        live = run.live;
      } in
      rw (acquire_locked_again s item options now run same again room taken) (
        rw (release_locked_level t deep later run' (omega arith) fresh)
          (refl, ground arith, refl, ground arith))
