-- ===== src/Lock/Shared/Rounds.antt =====
-- The rounds of the loop of `grantNextLocked`, internal/lock/service.go.
use lockd.Prelude.{
  ℕ, zero, suc, ◌<◌, ◌≡◌, Option, List, get_elem?, length, arith, Option-cases, inl, inr,
}
use lockd.Lock.Types.{Time, Lock, Waiter}
use lockd.Lock.Lease.{assign_lease}
use lockd.Lock.Queue.{pop}
use lockd.Lock.Queue.Order.{pop_shorter}
use lockd.Lock.Shared.{Shared, assign_locked, serve, grant_loop, grant_next_locked}

module _ (rand : ℕ → Option (List ℕ)) where
  -- A round does not touch the queue.
  serve_queue :
      (s : Shared) (item : Lock) (a : ℕ) (w : Waiter) (now : Time)
      → (serve rand s item a w now).1.queue ≡ item.queue
  unfolding serve assign_locked assign_lease
  serve_queue s item a w now = ground arith

  loop_agrees :
      (f g : ℕ) (s : Shared) (item : Lock) (now : Time)
      → length item.queue < f
      → length item.queue < g
      → grant_loop rand f s item now ≡ grant_loop rand g s item now
  unfolding grant_loop
  loop_agrees zero g s item now hf hg = elim hf [ ]
  loop_agrees (suc f) zero s item now hf hg = elim hg [ ]
  loop_agrees (suc f) (suc g) s item now hf hg =
      elim (Option-cases (pop item.waiters item.queue).0) [
        | inl e ↦ ground arith
        | inr (a, e) ↦ elim (Option-cases (get_elem? item.waiters a)) [
          | inl e' ↦ ground arith
          | inr (w, e') ↦
              let item' = record item { queue = (pop item.waiters item.queue).1 } in
              let r = serve rand s item' a w now in
              let shorter = pop_shorter item.waiters item.queue a e in
              let same = serve_queue s item' a w now in
              let rest =
                loop_agrees f g r.0 r.1 now (rw same (omega arith)) (rw same (omega arith)) in
              ground (arith, rest)
        ]
      ]

  -- With any number of rounds above the length of the queue the loop of grantNextLocked gives what
  -- grantNextLocked gives.
  pub grant_loop_enough :
      (fuel : ℕ) (s : Shared) (item : Lock) (now : Time)
      → length item.queue < fuel
      → grant_loop rand fuel s item now ≡ grant_next_locked rand s item now
  unfolding grant_next_locked
  grant_loop_enough fuel s item now h =
      loop_agrees fuel (suc (length item.queue)) s item now h (omega arith)
