-- ===== src/Lock/Retry.antt =====
-- Calls that are repeated or that race: `Release` after `Release`, the two ends of a wait, and calls
-- that still hold a pointer to a deleted record (internal/lock/service.go).
use lockd.Prelude.{
  ℕ, zero, suc, ◌≡◌, refl, true, false, Option, some, List, [], ◌∷◌, Text, text_eq, text_beq_refl,
  text_beq_iff, contains, arith, inl, inr, get_elem?, set, All-get_elem?, length, nat_eq,
  Option-cases,
}
use lockd.Lock.Errors.{Error, ok, err, err_not_found}
use lockd.Lock.Types.{Time, Duration, AcquireOptions, AcquireResult, ReleaseResult, Lock, Waiter}
use lockd.Lock.Lease.{remember, clear_lease, assign_lease}
use lockd.Lock.Queue.{pop, cancel_all}
use lockd.Lock.Reentrant.{decrease_depth}
use lockd.Lock.Shared.{Shared, grant_next_locked, grant_loop, serve, expire_locked, assign_locked}
use lockd.Lock.Acquire.{returned, acquire_locked, wait_done, wait_cancelled, count_acquire}
use lockd.Lock.Calls.{
  renew_locked, renew_failed, release_locked, release_live, hand_over, steal_locked,
}
use lockd.Lock.Valid.{IsValid, IsSound}

contains-remember : (t : Text) (tokens : List Text) → contains t (remember t tokens) ≡ true
unfolding remember contains
contains-remember t tokens = ground (arith, text_beq_refl t)

module _ (rand : ℕ → Option (List ℕ)) where
  -- Handing a lock on does not touch the remembered tokens, the flag of deletion or the name.
  grant_loop_frame :
      (fuel : ℕ) (s : Shared) (item : Lock) (now : Time)
      → let r = grant_loop rand fuel s item now in
        (r.1.released_token ≡ item.released_token) × (r.1.deleted ≡ item.deleted)
  unfolding grant_loop serve assign_locked assign_lease
  grant_loop_frame zero s item now = (refl, refl)
  grant_loop_frame (suc fuel) s item now = elim (Option-cases (pop item.waiters item.queue).0) [
    | inl e ↦ ground arith
    | inr (a, e) ↦ elim (Option-cases (get_elem? item.waiters a)) [
      | inl g ↦ ground arith
      | inr (w, g) ↦
          let r = serve rand s (record item { queue = (pop item.waiters item.queue).1 }) a w now in
          ground (arith, grant_loop_frame fuel r.0 r.1 now)
    ]
  ]

  remembered_release :
      (s : Shared) (item : Lock) (token : Text) (now : Time)
      → contains token item.released_token ≡ true
      → item.deleted ≡ false
      → release_locked rand s item token now
        ≡ (s, item, ok (record { released = false; depth = 0; next_holder = [] }))
  unfolding release_locked
  remembered_release s item token now kept live = ground arith

  released_remembers :
      (s : Shared) (item : Lock) (token : Text) (now : Time) (result : ReleaseResult)
      → (release_locked rand s item token now).2 ≡ ok result
      → result.released ≡ true
      → let item' = (release_locked rand s item token now).1 in
        (contains token item'.released_token ≡ true) × (item'.deleted ≡ false)
  unfolding release_locked release_live hand_over decrease_depth clear_lease expire_locked
      grant_next_locked
  released_remembers s item token now result e done = ground (
    arith,
    grant_loop_frame (suc (length item.queue)) s (clear_lease item now true) now,
    contains-remember token item.released_token,
    text_beq_iff token item.token,
  )

  -- After a release that freed the lock, the same call again answers that it released nothing,
  -- with no error, and changes nothing.
  release_twice :
      (s : Shared) (item : Lock) (token : Text) (now : Time) (result : ReleaseResult) (t : Shared)
      (later : Time)
      → (release_locked rand s item token now).2 ≡ ok result
      → result.released ≡ true
      → let item' = (release_locked rand s item token now).1 in
        release_locked rand t item' token later
        ≡ (t, item', ok (record { released = false; depth = 0; next_holder = [] }))
  release_twice s item token now result t later e done =
      let (kept, live) = released_remembers s item token now result e done in
      remembered_release t (release_locked rand s item token now).1 token later kept live

-- What `Delete` makes of a record.
abbrev closed_lock : Lock → Time → Lock
closed_lock item now =
    clear_lease
      (record item {
        deleted = true;
        waiters = cancel_all err_not_found item.waiters item.queue;
        queue = [];
      })
      now false

-- The calls on a deleted record.
abbrev pub Refuses :
    (ℕ → Option (List ℕ)) → Shared → Lock → AcquireOptions → Text → Text → Duration → Time → Type 0
Refuses rand s item options holder token ttl now =
    (acquire_locked rand s item options now ≡ (s, item, returned (err err_not_found)))
    × (renew_locked rand s item token ttl now ≡ (renew_failed s, item, err err_not_found))
    × (release_locked rand s item token now ≡ (s, item, err err_not_found))
    × (steal_locked rand s item holder ttl now ≡ (s, item, err err_not_found))

-- Once a lease was sent to a waiting Acquire of a valid record, both branches of its select return
-- that lease: a context that ends at the same time does not lose it.
pub wait_race :
    (s : Shared) (item : Lock) (a : ℕ) (w : Waiter) (lease : AcquireResult) (e : Error)
    → IsValid item
    → get_elem? item.waiters a ≡ some w
    → w.done ≡ ok lease ∷ []
    → (let r = wait_cancelled s item a e in
        (r.0 ≡ count_acquire s) × (r.1 ≡ item) × (r.2 ≡ ok lease))
      × (wait_done s item a
          ≡ some (
            count_acquire s,
            record item { waiters = set item.waiters a (record w { done = [] }) },
            ok lease,
          ))
unfolding wait_done wait_cancelled
wait_race s item a w lease e v g d =
    let sound = All-get_elem? IsSound item.waiters a v.sound g in
    (ground (arith, sound), ground (arith, sound))
