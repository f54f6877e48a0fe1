-- ===== src/Lock/Turns/Sections.antt =====
-- The critical sections of internal/lock/service.go, each as moves of the lock.
use lockd.Prelude.{
  ℕ, ◌≡◌, refl, sym, ◌∙◌, ap, subst, true, false, ◌||◌, ◌&&◌, not, Option, some, none, List, [],
  ◌∷◌, Text, text_eq, text_beq_iff, is_empty, nat_eq, ◌==◌, contains, arith, Option-cases,
  Bool-cases, List-cases, inl, inr,
}
use lockd.Lock.Errors.{Result-cases}
use lockd.Lock.Types.{Time, Duration, AcquireOptions, Lock, new_waiter, next64}
use lockd.Lock.Lease.{assign_lease, clear_lease, new_token, normalize_ttl}
use lockd.Lock.Queue.{active_length, push}
use lockd.Lock.Reentrant.{try_reenter, decrease_depth}
use lockd.Lock.Shared.{Shared, emit, expire_locked, grant_next_locked}
use lockd.Lock.Acquire.{acquire_locked, acquire_live, acquire_idle, contend, join_queue}
use lockd.Lock.Calls.{
  renew_locked, renew_live, release_locked, release_live, hand_over, announce_release,
}
use lockd.Lock.Valid.{IsValid}
use lockd.Lock.Valid.Queues.{active_length-Queued}
use lockd.Lock.Valid.Rounds.{assign_locked-none, assign_locked-some}
use lockd.Lock.Valid.Sections.{expire_locked-Keeps}
use lockd.Lock.Turns.{
  Cause, expiry, given_back, turn_of, stays, after, Moves-trans, wastes, takes, joins,
}
use lockd.Lock.Turns.Flags.{granted_flags-append, length-granted_flags}
use lockd.Lock.Turns.Grants.{
  Follows, IsOver, Moves-to, turn_of-draws, cleared-Follows, expire_locked-Follows,
}

module _ (rand : ℕ → Option (List ℕ)) (May : Cause → Type 0) where
  -- A free lock for which nobody waits.
  acquire_idle-Follows :
      (s : Shared) (item : Lock) (options : AcquireOptions) (now : Time)
      → item.token ≡ []
      → item.queue ≡ []
      → let r = acquire_idle rand s item options now in Follows rand May s item r.0 r.1
  unfolding acquire_idle
  acquire_idle-Follows s item options now idle alone =
      elim (Option-cases (new_token (rand s.draws))) [
        | inl e ↦
            let none_drawn = assign_locked-none rand s item options.holder options.ttl now e in
            rw (none_drawn, acquire_idle) (rw none_drawn (after stays wastes))
        | inr (token, e) ↦
            let drawn_lease = assign_locked-some rand s item options.holder options.ttl now e in
            rw (drawn_lease, acquire_idle)
              (rw drawn_lease (unfold emit assign_lease in after stays (takes token idle alone e)))
      ]

  join_queue-Follows :
      (s : Shared) (item : Lock) (options : AcquireOptions) (now : Time)
      → let r = join_queue s item options now in Follows rand May s item r.0 r.1
  unfolding join_queue push new_waiter
  join_queue-Follows s item options now =
      let w = new_waiter (next64 s.seq) options now in
      Moves-to rand May (after stays joins) (
        ground
          (arith, granted_flags-append item.waiters (w ∷ []), length-granted_flags item.waiters))

  -- Entering again is no move.
  try_reenter_turn :
      (s : Shared) (item : Lock) (holder : Text) (ttl : Duration) (now : Time)
      → turn_of s (try_reenter item holder ttl now).0 ≡ turn_of s item
  unfolding try_reenter
  try_reenter_turn s item holder ttl now = ground arith

  contend-Follows :
      (s : Shared) (item : Lock) (options : AcquireOptions) (now : Time)
      → let r = contend s item options now in Follows rand May s item r.0 r.1
  unfolding contend emit
  contend-Follows s item options now =
      let item' = (try_reenter item options.holder options.ttl now).0 in
      let same =
        Moves-to rand May stays (sym (try_reenter_turn s item options.holder options.ttl now)) in
      elim (Option-cases (try_reenter item options.holder options.ttl now).1) [
        | inr (r, handled) ↦ elim (Result-cases r) [
          | inl (e, refused) ↦ rw (handled ∙ ap some refused, contend) same
          | inr (result, entered) ↦ rw (handled ∙ ap some entered, contend) same
        ]
        | inl other ↦ elim (Bool-cases options.wait) [
          | inl waits ↦
              rw (other, waits, contend)
                (Moves-trans rand May same (join_queue-Follows s item' options now))
          | inr at_once ↦ rw (other, at_once, contend) same
        ]
      ]

  acquire_live-Follows :
      (s : Shared) (item : Lock) (options : AcquireOptions) (now : Time)
      → IsValid item
      → let r = acquire_live rand s item options now in Follows rand May s item r.0 r.1
  unfolding acquire_live
  acquire_live-Follows s item options now v =
      elim (Bool-cases (is_empty item.token && (active_length item.waiters item.queue == 0))) [
        | inr busy ↦ simp busy (contend-Follows s item options now)
        | inl free ↦ simp free (
            acquire_idle-Follows s item options now (ground arith) (elim (List-cases item.queue) [
              | inl alone ↦ alone
              | inr (a, rest, e) ↦
                  absurd (ground (arith, active_length-Queued item.waiters item.queue v.queued))
            ]))
      ]

  pub acquire_locked-Follows :
      (s : Shared) (item : Lock) (options : AcquireOptions) (now : Time)
      → IsValid item
      → (IsOver item now → May expiry)
      → let r = acquire_locked rand s item options now in Follows rand May s item r.0 r.1
  unfolding acquire_locked
  acquire_locked-Follows s item options now v over = elim (Bool-cases item.deleted) [
    | inl gone ↦ simp gone stays
    | inr live ↦ elim (Result-cases (normalize_ttl options.ttl item.default_ttl)) [
      | inl (e, refused) ↦ simp (live, refused) stays
      | inr (ttl, taken) ↦
          let r = expire_locked rand s item now in
          simp (live, taken)
            (Moves-trans rand May (expire_locked-Follows rand May s item now v over) (
              acquire_live-Follows r.0 r.1 (record options { ttl = ttl }) now
                (expire_locked-Keeps rand s item now v).valid))
    ]
  ]

  -- A renewal is no move.
  renew_live_turn :
      (s : Shared) (item : Lock) (token : Text) (ttl : Duration) (now : Time)
      → let r = renew_live s item token ttl now in turn_of r.0 r.1 ≡ turn_of s item
  unfolding renew_live
  renew_live_turn s item token ttl now = elim (Result-cases (normalize_ttl ttl item.default_ttl)) [
    | inl (e, refused) ↦ simp refused (ground arith)
    | inr (t, taken) ↦ simp taken (ground arith)
  ]

  pub renew_locked-Follows :
      (s : Shared) (item : Lock) (token : Text) (ttl : Duration) (now : Time)
      → IsValid item
      → (IsOver item now → May expiry)
      → let r = renew_locked rand s item token ttl now in Follows rand May s item r.0 r.1
  unfolding renew_locked
  renew_locked-Follows s item token ttl now v over =
      let r = expire_locked rand s item now in
      let checked = expire_locked-Follows rand May s item now v over in
      elim (Bool-cases item.deleted) [
        | inl gone ↦ simp gone stays
        | inr live ↦ elim (Bool-cases (is_empty item.token)) [
          | inl idle ↦ simp (live, idle) stays
          | inr held ↦ elim (Bool-cases (not (is_empty r.2))) [
            | inl ended ↦ simp (live, held, ended) checked
            | inr kept ↦
                simp (live, held, kept)
                  (Moves-to rand May checked (sym (renew_live_turn r.0 r.1 token ttl now)))
          ]
        ]
      ]

  -- An expiry check that reports no token leaves the record.
  expire_locked_kept :
      (s : Shared) (item : Lock) (now : Time)
      → not (is_empty (expire_locked rand s item now).2) ≡ false
      → (expire_locked rand s item now).1 ≡ item
  unfolding expire_locked
  expire_locked_kept s item now kept = ground arith

  announce_release-draws :
      (s : Shared) (item : Lock) (next : Option Text) (now : Time)
      → (announce_release s item next now).draws ≡ s.draws
  unfolding announce_release emit
  announce_release-draws s item none now = refl
  announce_release-draws s item (some h) now = refl

  decrease_depth_turn :
      (s : Shared) (item : Lock) (now : Time)
      → turn_of s (decrease_depth item now).0 ≡ turn_of s item
  unfolding decrease_depth
  decrease_depth_turn s item now = ground arith

  decrease_depth_last :
      (item : Lock) (now : Time)
      → (decrease_depth item now).1.released ≡ true
      → (decrease_depth item now).0 ≡ item
  unfolding decrease_depth
  decrease_depth_last item now e = ground arith

  release_live-Follows :
      (s : Shared) (item : Lock) (token : Text) (now : Time)
      → IsValid item
      → item.deleted ≡ false
      → (token ≡ item.token → May given_back)
      → let r = release_live rand s item token now in Follows rand May s item r.0 r.1
  unfolding release_live hand_over
  release_live-Follows s item token now v live own =
      let d = decrease_depth item now in
      elim (Bool-cases (is_empty item.token)) [
        | inl idle ↦ simp idle stays
        | inr held ↦ elim (Bool-cases (is_empty token || not (token == item.token))) [
          | inl other ↦ simp (held, other) stays
          | inr mine ↦ elim (Bool-cases d.1.released) [
            | inr kept ↦
                simp (held, mine, kept)
                  (Moves-to rand May stays (sym (decrease_depth_turn s item now)))
            | inl last ↦
                let r = grant_next_locked rand s (clear_lease d.0 now true) now in
                let same = decrease_depth_last item now last in
                let same_token : (is_empty token || not (token == item.token)) ≡ false
                    → token ≡ item.token =
                  λ m. ground (arith, text_beq_iff token item.token) in
                simp (held, mine, last)
                  (Moves-to rand May
                    (subst
                      (λ x.
                        Follows rand May s item
                          (grant_next_locked rand s (clear_lease x now true) now).0
                          (grant_next_locked rand s (clear_lease x now true) now).1)
                      (sym same)
                      (cleared-Follows rand May s item now true given_back (own (same_token mine)) v
                        live))
                    (sym (
                      turn_of-draws r.0 (announce_release r.0 r.1 r.2 now) r.1
                        (announce_release-draws r.0 r.1 r.2 now))))
          ]
        ]
      ]

  pub release_locked-Follows :
      (s : Shared) (item : Lock) (token : Text) (now : Time)
      → IsValid item
      → (IsOver item now → May expiry)
      → (token ≡ item.token → May given_back)
      → let r = release_locked rand s item token now in Follows rand May s item r.0 r.1
  unfolding release_locked
  release_locked-Follows s item token now v over own =
      let r = expire_locked rand s item now in
      let k = expire_locked-Keeps rand s item now v in
      let checked = expire_locked-Follows rand May s item now v over in
      elim (Bool-cases item.deleted) [
        | inl gone ↦ simp gone stays
        | inr live ↦ elim (Bool-cases (contains token item.released_token)) [
          | inl again ↦ simp (live, again) stays
          | inr first ↦ elim (Bool-cases (not (is_empty r.2))) [
            | inl ended ↦ simp (live, first, ended) checked
            | inr kept ↦
                simp (live, first, kept)
                  (Moves-trans rand May checked (
                    release_live-Follows r.0 r.1 token now k.valid (k.same_deleted ∙ live)
                      (λ e. own (e ∙ ap (λ i. i.token) (expire_locked_kept s item now kept)))))
          ]
        ]
      ]
