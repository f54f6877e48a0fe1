-- ===== src/Lock/Turns/Grants.antt =====
-- The hand-over of a free lock, `grantNextLocked` and `expireLocked`, as moves.
use lockd.Prelude.{
  ℕ, zero, suc, ◌<◌, ◌≡◌, refl, sym, ◌∙◌, ap, subst, Bool, true, false, ◌||◌, not, Option, some,
  none, List, [], ◌∷◌, Text, is_empty, nat_eq, get_elem?, set, length, arith, Option-cases,
  Bool-cases, inl, inr,
}
use lockd.Lock.Errors.{err}
use lockd.Lock.Types.{Time, EventKind, Lock, Waiter, send, grant}
use lockd.Lock.Lease.{assign_lease, clear_lease, new_token, lease_expired}
use lockd.Lock.Queue.{pop, remove}
use lockd.Lock.Shared.{Shared, emit, grant_loop, grant_next_locked, announce_expiry, expire_locked}
use lockd.Lock.Valid.{IsValid, Queued}
use lockd.Lock.Valid.Queues.{pop-Queued, Queued-waiter}
use lockd.Lock.Valid.Grants.{no_token, granted_lock, next_round-Keeps, clear_lease-Keeps}
use lockd.Lock.Valid.Rounds.{drawn, grant_loop_empty, grant_loop_granted, grant_loop_failed}
use lockd.Lock.Valid.Parts.{live_of_lease}
use lockd.Lock.Turns.{
  Turn, Cause, expiry, turn_of, granted_flags, Moves, stays, after, Moves-trans, frees, serves,
  leaves, wastes,
}
use lockd.Lock.Turns.Flags.{granted_flags-set, granted_flags-set_same}

-- The time of the lease is over.
abbrev pub IsOver : Lock → Time → Type 0
IsOver item now = (is_empty item.token ≡ false) × (lease_expired item.expires_at now ≡ true)

-- An event draws nothing.
pub emit-draws :
    (s : Shared) (item : Lock) (kind : EventKind) (reason : Text) (now : Time)
    → (emit s item kind reason now).draws ≡ s.draws
unfolding emit
emit-draws s item kind reason now = refl

pub turn_of-draws :
    (s s' : Shared) (item : Lock) → s'.draws ≡ s.draws → turn_of s' item ≡ turn_of s item
turn_of-draws s s' item e =
    ap
      (λ n. record {
        token = item.token;
        line = item.queue;
        served = granted_flags item.waiters;
        draws = n;
      })
      e

module _ (rand : ℕ → Option (List ℕ)) (May : Cause → Type 0) where
  -- What a section made of a record, as moves.
  abbrev pub Follows : Shared → Lock → Shared → Lock → Type 0
  Follows s item s' item' = Moves rand May (turn_of s item) (turn_of s' item')

  pub Moves-to : {t u v : Turn} → Moves rand May t u → u ≡ v → Moves rand May t v
  Moves-to {t} m e = subst (Moves rand May t) e m

  -- The head of the line is told that there is no token, and goes.
  failed_round :
      (s : Shared) (item : Lock) (a : ℕ) (rest : List ℕ) (w : Waiter)
      → Queued item.waiters (a ∷ rest)
      → item.queue ≡ a ∷ rest
      → get_elem? item.waiters a ≡ some w
      → Follows s item
          (drawn s)
          (record item { queue = rest; waiters = set item.waiters a (send w (err no_token)) })
  failed_round s item a rest w q e g =
      let gone : (remove item.queue a).1 ≡ rest = unfold remove in ground arith in
      let same =
        granted_flags-set_same item.waiters a w (send w (err no_token)) g (unfold send in refl) in
      Moves-to (after (after stays (leaves a (rw gone q.1))) wastes) (ground (arith, gone, same))

  granted_round :
      (s : Shared) (item : Lock) (a : ℕ) (rest : List ℕ) (w : Waiter) (now : Time) (token : Text)
      → Queued item.waiters (a ∷ rest)
      → item.token ≡ []
      → item.queue ≡ a ∷ rest
      → new_token (rand s.draws) ≡ some token
      → Follows s item (drawn s) (granted_lock (record item { queue = rest }) a w token now)
  unfolding assign_lease
  granted_round s item a rest w now token q idle e t =
      let given =
        grant w (assign_lease (record item { queue = rest }) w.holder token w.ttl now).1 in
      let flags : granted_flags (set item.waiters a given)
          ≡ set (granted_flags item.waiters) a true =
        granted_flags-set item.waiters a given ∙ unfold grant send in refl in
      Moves-to (after stays (serves token a rest idle e q.1 t)) (ground (arith, flags))

  grant_loop-Follows :
      (fuel : ℕ) (s : Shared) (item : Lock) (now : Time) (items : List ℕ)
      → item.queue ≡ items
      → length items < fuel
      → IsValid item
      → item.deleted ≡ false
      → item.token ≡ []
      → let r = grant_loop rand fuel s item now in Follows s item r.0 r.1
  grant_loop-Follows zero s item now items e h v live idle = elim h [ ]
  grant_loop-Follows (suc fuel) s item now [] e h v live idle =
      rw (grant_loop_empty rand fuel s item now e) (Moves-to stays (ground arith))
  grant_loop-Follows (suc fuel) s item now (a ∷ rest) e h v live idle =
      let q : Queued item.waiters (a ∷ rest) = subst (Queued item.waiters) e v.queued in
      let (w, g) = Queued-waiter item.waiters a q.0 in
      let p : pop item.waiters item.queue ≡ (some a, rest) =
        rw e (pop-Queued item.waiters a rest q) in
      elim (Option-cases (new_token (rand s.draws))) [
        | inl failed ↦
            let k = next_round-Keeps item a rest w v live q g in
            let later =
              grant_loop-Follows fuel (drawn s)
                (record item { queue = rest; waiters = set item.waiters a (send w (err no_token)) })
                now rest refl (omega arith) k.valid live idle in
            rw (grant_loop_failed rand fuel s item a rest w now p g failed)
              (Moves-trans rand May (failed_round s item a rest w q e g) later)
        | inr (token, t) ↦
            rw (grant_loop_granted rand fuel s item a rest w now p g t)
              (granted_round s item a rest w now token q idle e t)
      ]

  pub grant_next_locked-Follows :
      (s : Shared) (item : Lock) (now : Time)
      → IsValid item
      → item.deleted ≡ false
      → item.token ≡ []
      → let r = grant_next_locked rand s item now in Follows s item r.0 r.1
  unfolding grant_next_locked
  grant_next_locked-Follows s item now v live idle =
      grant_loop-Follows (suc (length item.queue)) s item now item.queue refl (omega arith) v live
        idle

  -- A lease is cleared, and the lock handed on.
  pub cleared-Follows :
      (s : Shared) (item : Lock) (now : Time) (b : Bool) (c : Cause)
      → May c
      → IsValid item
      → item.deleted ≡ false
      → let r = grant_next_locked rand s (clear_lease item now b) now in Follows s item r.0 r.1
  unfolding clear_lease
  cleared-Follows s item now b c may v live =
      let k = clear_lease-Keeps item now b v in
      Moves-trans rand May (after stays (frees c may)) (
        grant_next_locked-Follows s (clear_lease item now b) now k.valid (k.same_deleted ∙ live)
          refl)

  announce_expiry-draws :
      (s : Shared) (item : Lock) (next : Option Text) (now : Time)
      → (announce_expiry rand s item next now).draws ≡ s.draws
  unfolding announce_expiry emit
  announce_expiry-draws s item none now = refl
  announce_expiry-draws s item (some h) now = refl

  pub expire_locked-Follows :
      (s : Shared) (item : Lock) (now : Time)
      → IsValid item
      → (IsOver item now → May expiry)
      → let r = expire_locked rand s item now in Follows s item r.0 r.1
  unfolding expire_locked
  expire_locked-Follows s item now v may =
      elim (Bool-cases (is_empty item.token || not (lease_expired item.expires_at now))) [
        | inl kept ↦ rw kept stays
        | inr over ↦
            let r = grant_next_locked rand s (clear_lease item now false) now in
            rw over (
              Moves-to
                (cleared-Follows s item now false expiry (may (ground arith)) v
                  (live_of_lease item v (ground arith)))
                (sym (
                  turn_of-draws r.0 (announce_expiry rand r.0 r.1 r.2 now) r.1
                    (announce_expiry-draws r.0 r.1 r.2 now))))
      ]
