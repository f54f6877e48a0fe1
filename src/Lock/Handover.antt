-- ===== src/Lock/Handover.antt =====
-- How a lock that becomes free goes to its queue: `Release` and `expireLocked` of
-- internal/lock/service.go.
use lockd.Prelude.{
  ℕ, ◌≡◌, refl, ◌∙◌, subst, true, false, Option, some, List, [], ◌∷◌, Text, text_eq, text_beq_iff,
  contains, arith, get_elem?, get_elem?-set_self, length, nat_eq,
}
use lockd.Lock.Errors.{ok}
use lockd.Lock.Types.{Time, ReleaseResult, Lock, Waiter, grant, send}
use lockd.Lock.Lease.{lease_expiry, new_token, assign_lease, clear_lease}
use lockd.Lock.Reentrant.{decrease_depth}
use lockd.Lock.Shared.{Shared, grant_next_locked}
use lockd.Lock.Calls.{release_locked, release_live, hand_over}
use lockd.Lock.Valid.{IsValid, Waits, Queued}
use lockd.Lock.Valid.Queues.{pop-Queued}
use lockd.Lock.Valid.Rounds.{grant_loop_granted, drawn}
use lockd.Lock.Valid.Grants.{granted_lock}
use lockd.Lock.Exclusion.{Runs, expire_locked_running}

-- The lease that the waiter `w` at `a` has been given: a fresh token, one level, its own term,
-- and the outcome in its channel.
pub record IsServed (item : Lock) (a : ℕ) (w : Waiter) (token : Text) (now : Time) : Type 0 where
  pub new_token : item.token ≡ token
  pub new_holder : item.holder ≡ w.holder
  pub new_depth : item.depth ≡ 1
  pub new_expiry : item.expires_at ≡ lease_expiry now w.ttl
  pub outcome :
      get_elem? item.waiters a
      ≡ some (record w {
        granted = true;
        result = record {
          token = token;
          holder = w.holder;
          depth = 1;
          expires_at = lease_expiry now w.ttl;
          reentered = false;
        };
        done =
            ok (record {
              token = token;
              holder = w.holder;
              depth = 1;
              expires_at = lease_expiry now w.ttl;
              reentered = false;
            })
            ∷ [];
      })

module _ (rand : ℕ → Option (List ℕ)) where
  grant_next_locked_head :
      (s : Shared) (item : Lock) (now : Time) (a : ℕ) (rest : List ℕ) (w : Waiter) {token : Text}
      → Queued item.waiters item.queue
      → item.queue ≡ a ∷ rest
      → get_elem? item.waiters a ≡ some w
      → new_token (rand s.draws) ≡ some token
      → grant_next_locked rand s item now
        ≡ (drawn s, granted_lock (record item { queue = rest }) a w token now, some w.holder)
  unfolding grant_next_locked
  grant_next_locked_head s item now a rest w q e g t =
      grant_loop_granted rand (length item.queue) s item a rest w now
        (rw e (pop-Queued item.waiters a rest (subst (Queued item.waiters) e q))) g t

  granted_lock-IsServed :
      (item : Lock) (a : ℕ) (w : Waiter) (token : Text) (now : Time)
      → get_elem? item.waiters a ≡ some w
      → Waits (some w)
      → IsServed (granted_lock item a w token now) a w token now
  unfolding assign_lease grant send
  granted_lock-IsServed item a w token now g h = record {
    new_token = refl;
    new_holder = refl;
    new_depth = refl;
    new_expiry = refl;
    outcome = get_elem?-set_self item.waiters a _ g ∙ ground arith;
  }

  -- The call of the holder that gives the last level back in time.
  pub release_locked_last :
      (s : Shared) (item : Lock) (now : Time)
      → Runs item now
      → item.depth ≡ 1
      → contains item.token item.released_token ≡ false
      → release_locked rand s item item.token now
        ≡ hand_over rand s item (record { released = true; depth = 0; next_holder = [] }) now
  unfolding release_locked release_live decrease_depth
  release_locked_last s item now run one fresh = ground (
    arith,
    expire_locked_running rand s item now run,
    run.held,
    run.live,
    text_beq_iff item.token item.token,
  )

  hand_over_head :
      (s : Shared) (item : Lock) (result : ReleaseResult) (now : Time) (a : ℕ) (rest : List ℕ)
      (w : Waiter) {token : Text}
      → Queued item.waiters item.queue
      → item.queue ≡ a ∷ rest
      → get_elem? item.waiters a ≡ some w
      → new_token (rand s.draws) ≡ some token
      → let r = hand_over rand s item result now in
        (r.1 ≡ granted_lock (record (clear_lease item now true) { queue = rest }) a w token now)
        × (r.2 ≡ ok (record result { next_holder = w.holder }))
  unfolding hand_over clear_lease
  hand_over_head s item result now a rest w q e g t =
      ground (arith, grant_next_locked_head s (clear_lease item now true) now a rest w q e g t)

  -- When the holder of a valid record gives its last level back in time, with a token that the
  -- record does not remember as released, somebody waits and rand.Read works, the lock goes to the
  -- head of the queue at once, under the fresh token and for the waiter's own term, the waiter
  -- gets the lease in its channel, the rest of the queue keeps its order, and the answer names the
  -- new holder.
  pub release_locked_serves_oldest :
      (s : Shared) (item : Lock) (now : Time) (a : ℕ) (rest : List ℕ) (w : Waiter) {token : Text}
      → IsValid item
      → Runs item now
      → item.depth ≡ 1
      → contains item.token item.released_token ≡ false
      → item.queue ≡ a ∷ rest
      → get_elem? item.waiters a ≡ some w
      → new_token (rand s.draws) ≡ some token
      → let r = release_locked rand s item item.token now in
        IsServed r.1 a w token now
        × (r.1.queue ≡ rest)
        × (r.2 ≡ ok (record { released = true; depth = 0; next_holder = w.holder }))
  unfolding clear_lease
  release_locked_serves_oldest s item now a rest w {token} v run one fresh e g t =
      let q = subst (Queued item.waiters) e v.queued in
      let cleared = record (clear_lease item now true) { queue = rest } in
      let served = granted_lock-IsServed cleared a w token now g (subst Waits g q.0) in
      let (after, answer) =
        hand_over_head s item (record { released = true; depth = 0; next_holder = [] }) now a rest w
          v.queued e g t in
      rw (release_locked_last s item now run one fresh, after, answer)
        (served, unfold assign_lease in refl, refl)
