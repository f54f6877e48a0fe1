-- ===== src/Lock/Progress.antt =====
-- Nobody waits for a free lock, as long as `rand.Read` works: each critical section of
-- internal/lock/service.go hands a lock that it frees to the queue.
pub mod Failure
use lockd.Prelude.{
  ℕ, zero, suc, ◌+◌, ◌≤◌, ◌<◌, ◌≡◌, ◌≢◌, ◌⊎◌, ◌||◌, ◌&&◌, refl, sym, ◌∙◌, subst, Bool, true, false,
  not, Option, some, none, List, [], ◌∷◌, Text, text, is_empty, arith, inl, inr, get_elem?, set,
  length, Bool-cases, Option-cases, nat_eq, ◌==◌,
}
use lockd.Lock.Errors.{Error, Result, ok, err, Result-cases}
use lockd.Lock.Types.{Time, Duration, AcquireOptions, AcquireResult, ReleaseResult, Lock, Waiter}
use lockd.Lock.Lease.{assign_lease, clear_lease, lease_expired, new_token, normalize_ttl}
use lockd.Lock.Lease.Bounds.{new_token_nonempty, normalize_ttl-InRange}
use lockd.Lock.Queue.{active_length, remove}
use lockd.Lock.Reentrant.{try_reenter, decrease_depth}
use lockd.Lock.Shared.{Shared, assign_locked, expire_locked, grant_next_locked}
use lockd.Lock.Acquire.{
  acquire_locked, acquire_live, acquire_idle, contend, join_queue, wait_done, wait_cancelled,
}
use lockd.Lock.Calls.{
  renew_locked, renew_live, release_locked, release_live, hand_over, steal_locked, delete_locked,
}
use lockd.Lock.Valid.{IsValid}
use lockd.Lock.Valid.Sections.{expire_locked-Keeps}
use lockd.Lock.Valid.Grants.{Keeps, Handed, clear_lease-Keeps}
use lockd.Lock.Valid.Rounds.{grant_next_locked-Handed, assign_locked-some, assign_locked-none}

abbrev pub IsServing : Lock → Type 0
IsServing item = item.token ≡ [] → item.queue ≡ []

-- `rand.Read` never fails.
abbrev pub Works : (ℕ → Option (List ℕ)) → Type 0
Works rand = (n : ℕ) → new_token (rand n) ≢ none

module _ (rand : ℕ → Option (List ℕ)) (works : Works rand) where
  assign_locked_held :
      (s : Shared) (item : Lock) (holder : Text) (ttl : Duration) (now : Time)
      → (assign_locked rand s item holder ttl now).1.token ≢ []
  unfolding assign_lease
  assign_locked_held s item holder ttl now = elim (Option-cases (new_token (rand s.draws))) [
    | inl e ↦ absurd (works s.draws e)
    | inr (token, e) ↦
        let (rest, e') = new_token_nonempty (rand s.draws) e in
        rw (assign_locked-some rand s item holder ttl now e) (λ z. cc)
  ]

  pub expire_locked-IsServing :
      (s : Shared) (item : Lock) (now : Time)
      → IsValid item
      → IsServing item
      → IsServing (expire_locked rand s item now).1
  unfolding expire_locked clear_lease
  expire_locked-IsServing s item now v h =
      let c = clear_lease-Keeps item now false v in
      ground
        (arith, v.gone, grant_next_locked-Handed rand s (clear_lease item now false) now c.valid)

  acquire_live-IsServing :
      (s : Shared) (item : Lock) (options : AcquireOptions) (now : Time)
      → IsServing item
      → IsServing (acquire_live rand s item options now).1
  unfolding acquire_live contend join_queue try_reenter active_length
  acquire_live-IsServing s item options now h =
      ground (arith, assign_locked_held s item options.holder options.ttl now)

  pub acquire_locked-IsServing :
      (s : Shared) (item : Lock) (options : AcquireOptions) (now : Time)
      → IsValid item
      → IsServing item
      → IsServing (acquire_locked rand s item options now).1
  unfolding acquire_locked
  acquire_locked-IsServing s item options now v h =
      elim (Result-cases (normalize_ttl options.ttl item.default_ttl)) [
        | inl (e, refused) ↦ simp refused (ground arith)
        | inr (ttl, taken) ↦
            let e = expire_locked rand s item now in
            let held =
              acquire_live-IsServing e.0 e.1 (record options { ttl = ttl }) now
                (expire_locked-IsServing s item now v h) in
            simp taken (ground (arith, held))
      ]

  pub renew_locked-IsServing :
      (s : Shared) (item : Lock) (token : Text) (ttl : Duration) (now : Time)
      → IsValid item
      → IsServing item
      → IsServing (renew_locked rand s item token ttl now).1
  unfolding renew_locked renew_live
  renew_locked-IsServing s item token ttl now v h =
      ground (arith, expire_locked-IsServing s item now v h)

  release_live-IsServing :
      (s : Shared) (item : Lock) (token : Text) (now : Time)
      → IsValid item
      → item.deleted ≡ false
      → IsServing item
      → IsServing (release_live rand s item token now).1
  unfolding release_live hand_over decrease_depth clear_lease
  release_live-IsServing s item token now v live h =
      let c = clear_lease-Keeps item now true v in
      ground
        (arith, grant_next_locked-Handed rand s (clear_lease item now true) now c.valid live refl)

  pub release_locked-IsServing :
      (s : Shared) (item : Lock) (token : Text) (now : Time)
      → IsValid item
      → IsServing item
      → IsServing (release_locked rand s item token now).1
  unfolding release_locked
  release_locked-IsServing s item token now v h = elim (Bool-cases item.deleted) [
    | inl gone ↦ simp gone h
    | inr live ↦
        let e = expire_locked rand s item now in
        let k = expire_locked-Keeps rand s item now v in
        let served = expire_locked-IsServing s item now v h in
        simp live (
          ground (
            arith,
            served,
            release_live-IsServing e.0 e.1 token now k.valid (k.same_deleted ∙ live) served,
          ))
  ]

  pub steal_locked-IsServing :
      (s : Shared) (item : Lock) (holder : Text) (ttl : Duration) (now : Time)
      → IsServing item
      → IsServing (steal_locked rand s item holder ttl now).1
  unfolding steal_locked
  steal_locked-IsServing s item holder ttl now h =
      elim (Result-cases (normalize_ttl ttl item.default_ttl)) [
        | inl (e, refused) ↦ simp refused (ground arith)
        | inr (t, taken) ↦
            simp taken
              (ground (arith, assign_locked_held s (clear_lease item now false) holder t now))
      ]

  pub delete_locked-IsServing :
      (force : Text) (s : Shared) (item : Lock) (force_token : Text) (now : Time)
      → IsValid item
      → IsServing item
      → IsServing (delete_locked rand force s item force_token now).1
  unfolding delete_locked clear_lease
  delete_locked-IsServing force s item force_token now v h =
      ground (arith, expire_locked-IsServing s item now v h)

pub wait_done-IsServing :
    (s : Shared) (item : Lock) (a : ℕ) {s' : Shared} {item' : Lock} {r : Result AcquireResult}
    → IsServing item
    → wait_done s item a ≡ some (s', item', r)
    → IsServing item'
unfolding wait_done
wait_done-IsServing s item a h e = ground arith

pub wait_cancelled-IsServing :
    (s : Shared) (item : Lock) (a : ℕ) (e : Error)
    → IsServing item
    → IsServing (wait_cancelled s item a e).1
unfolding wait_cancelled remove
wait_cancelled-IsServing s item a e h = ground arith
