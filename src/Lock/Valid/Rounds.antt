-- ===== src/Lock/Valid/Rounds.antt =====
-- The rounds of the loop of `grantNextLocked` on a valid record.
use lockd.Prelude.{
  ℕ, zero, suc, ◌<◌, ◌≡◌, refl, subst, true, false, Option, some, none, List, [], ◌∷◌, Text, nat_eq,
  get_elem?, set, length, arith, Option-cases, inl, inr,
}
use lockd.Lock.Errors.{ok, err}
use lockd.Lock.Types.{Time, Duration, Lock, Waiter, send}
use lockd.Lock.Lease.{assign_lease, new_token}
use lockd.Lock.Lease.Bounds.{lease_expiry-lt, new_token_nonempty}
use lockd.Lock.Queue.{pop}
use lockd.Lock.Shared.{Shared, assign_locked, serve, grant_loop, grant_next_locked}
use lockd.Lock.Valid.{IsValid, Queued, Waits}
use lockd.Lock.Valid.Queues.{pop-Queued, Queued-waiter}
use lockd.Lock.Valid.Grants.{
  Keeps, Keeps-trans, no_token, granted_lock, Handed, next_round-Keeps, granted_lock-Keeps,
}

abbrev pub drawn : Shared → Shared
drawn s = record s { draws = suc s.draws }

module _ (rand : ℕ → Option (List ℕ)) where
  -- A grant of the lock: the token comes from the next call of `rand.Read`, or there is none.
  pub assign_locked-none :
      (s : Shared) (item : Lock) (holder : Text) (ttl : Duration) (now : Time)
      → new_token (rand s.draws) ≡ none
      → assign_locked rand s item holder ttl now ≡ (drawn s, item, err no_token)
  unfolding assign_locked
  assign_locked-none s item holder ttl now e = rw (e, assign_locked)

  pub assign_locked-some :
      (s : Shared) (item : Lock) (holder : Text) (ttl : Duration) (now : Time) {token : Text}
      → new_token (rand s.draws) ≡ some token
      → let r = assign_lease item holder token ttl now in
        assign_locked rand s item holder ttl now ≡ (drawn s, r.0, ok r.1)
  unfolding assign_locked
  assign_locked-some s item holder ttl now e = rw (e, assign_locked)

  serve-none :
      (s : Shared) (item : Lock) (a : ℕ) (w : Waiter) (now : Time)
      → new_token (rand s.draws) ≡ none
      → serve rand s item a w now
        ≡ (drawn s, record item { waiters = set item.waiters a (send w (err no_token)) }, false)
  unfolding serve
  serve-none s item a w now e = ground (arith, assign_locked-none s item w.holder w.ttl now)

  pub serve-some :
      (s : Shared) (item : Lock) (a : ℕ) (w : Waiter) (now : Time) {token : Text}
      → new_token (rand s.draws) ≡ some token
      → serve rand s item a w now ≡ (drawn s, granted_lock item a w token now, true)
  unfolding serve assign_lease
  serve-some s item a w now e =
      rw (assign_locked-some s item w.holder w.ttl now e, serve)
        (rw (assign_locked-some s item w.holder w.ttl now e))

  -- The rounds of the loop: an empty queue, a grant to the head, and a head that gets the error.
  pub grant_loop_empty :
      (fuel : ℕ) (s : Shared) (item : Lock) (now : Time)
      → item.queue ≡ []
      → grant_loop rand (suc fuel) s item now ≡ (s, record item { queue = [] }, none)
  unfolding grant_loop pop
  grant_loop_empty fuel s item now e = ground arith

  pub grant_loop_granted :
      (fuel : ℕ) (s : Shared) (item : Lock) (a : ℕ) (rest : List ℕ) (w : Waiter) (now : Time)
      {token : Text}
      → pop item.waiters item.queue ≡ (some a, rest)
      → get_elem? item.waiters a ≡ some w
      → new_token (rand s.draws) ≡ some token
      → grant_loop rand (suc fuel) s item now
        ≡ (drawn s, granted_lock (record item { queue = rest }) a w token now, some w.holder)
  unfolding grant_loop
  grant_loop_granted fuel s item a rest w now p e t =
      ground (arith, serve-some s (record item { queue = rest }) a w now t)

  pub grant_loop_failed :
      (fuel : ℕ) (s : Shared) (item : Lock) (a : ℕ) (rest : List ℕ) (w : Waiter) (now : Time)
      → pop item.waiters item.queue ≡ (some a, rest)
      → get_elem? item.waiters a ≡ some w
      → new_token (rand s.draws) ≡ none
      → grant_loop rand (suc fuel) s item now
        ≡ grant_loop rand fuel
            (drawn s)
            (record item { queue = rest; waiters = set item.waiters a (send w (err no_token)) })
            now
  unfolding grant_loop
  grant_loop_failed fuel s item a rest w now p e t =
      ground (arith, serve-none s (record item { queue = rest }) a w now t)

  -- With more rounds than waiters the loop leaves a valid record and hands the lock on.
  pub grant_loop-Handed :
      (fuel : ℕ) (s : Shared) (item : Lock) (now : Time) (items : List ℕ)
      → item.queue ≡ items
      → length items < fuel
      → IsValid item
      → item.deleted ≡ false
      → item.token ≡ []
      → let r = grant_loop rand fuel s item now in Keeps item r.1 × Handed now r.2 r.1
  unfolding assign_lease
  grant_loop-Handed zero s item now items e h v live idle = elim h [ ]
  grant_loop-Handed (suc fuel) s item now [] e h v live idle =
      rw (grant_loop_empty fuel s item now e) (
        record {
          valid = record {
            terms = v.terms;
            depths = v.depths;
            lease = v.lease;
            queued = tt;
            sound = v.sound;
            gone = λ d. (idle, refl);
          };
          same_namespace = refl;
          same_name = refl;
          same_deleted = refl;
        },
        (idle, refl),
      )
  grant_loop-Handed (suc fuel) s item now (a ∷ rest) e h v live idle =
      let q : Queued item.waiters (a ∷ rest) = subst (Queued item.waiters) e v.queued in
      let (w, g) = Queued-waiter item.waiters a q.0 in
      let p : pop item.waiters item.queue ≡ (some a, rest) =
        rw e (pop-Queued item.waiters a rest q) in
      elim (Option-cases (new_token (rand s.draws))) [
        | inl none_drawn ↦
            let k = next_round-Keeps item a rest w v live q g in
            let (k', handed) =
              grant_loop-Handed fuel (drawn s)
                (record item { queue = rest; waiters = set item.waiters a (send w (err no_token)) })
                now rest refl (omega arith) k.valid live idle in
            rw (grant_loop_failed fuel s item a rest w now p g none_drawn)
              (Keeps-trans k k', handed)
        | inr (token, t) ↦
            let (tail, t') = new_token_nonempty (rand s.draws) t in
            let range = (subst Waits g q.0).3 in
            rw (grant_loop_granted fuel s item a rest w now p g t) (
              granted_lock-Keeps item a rest w now token tail v live q g t',
              (refl, (λ z. absurd (cc)), lease_expiry-lt now w.ttl range),
            )
      ]

  -- A free lock goes to the queue: the record stays valid, and either a holder was served or
  -- nobody waits any more.
  pub grant_next_locked-Handed :
      (s : Shared) (item : Lock) (now : Time)
      → IsValid item
      → item.deleted ≡ false
      → item.token ≡ []
      → let r = grant_next_locked rand s item now in Keeps item r.1 × Handed now r.2 r.1
  unfolding grant_next_locked
  grant_next_locked-Handed s item now v live idle =
      grant_loop-Handed (suc (length item.queue)) s item now item.queue refl (omega arith) v live
        idle
