-- ===== src/Lock/Valid/Sections.antt =====
-- Every critical section leaves a valid record valid.
use lockd.Prelude.{
  ℕ, ◌≡◌, ◌⊎◌, ◌||◌, refl, ◌∙◌, true, false, Bool-cases, not, Option, List, text_eq, Text, nat_eq,
  arith, Option-cases, inl, inr, is_empty,
}
use lockd.Lock.Errors.{Error, ok, err, err_not_found, Result-cases}
use lockd.Lock.Types.{Time, Duration, AcquireOptions, Lock}
use lockd.Lock.Lease.{clear_lease, new_token, lease_expired, normalize_ttl}
use lockd.Lock.Lease.Bounds.{InRange, new_token_nonempty, normalize_ttl-InRange}
use lockd.Lock.Shared.{Shared, assign_locked, expire_locked}
use lockd.Lock.Acquire.{acquire_locked, acquire_live}
use lockd.Lock.Calls.{
  renew_locked, release_locked, release_live, hand_over, steal_locked, delete_locked,
}
use lockd.Lock.Valid.{IsValid}
use lockd.Lock.Valid.Queues.{cancel_all-IsSound}
use lockd.Lock.Valid.Grants.{Keeps, Keeps-trans, Keeps-refl, clear_lease-Keeps, assign_lease-Keeps}
use lockd.Lock.Valid.Rounds.{assign_locked-none, assign_locked-some, grant_next_locked-Handed}
use lockd.Lock.Valid.Parts.{decrease_depth-Keeps, contend-Keeps, renew_live-Keeps, live_of_lease}

module _ (rand : ℕ → Option (List ℕ)) where
  pub expire_locked-Keeps :
      (s : Shared) (item : Lock) (now : Time)
      → IsValid item
      → Keeps item (expire_locked rand s item now).1
  unfolding expire_locked clear_lease
  expire_locked-Keeps s item now v =
      elim (Bool-cases (is_empty item.token || not (lease_expired item.expires_at now))) [
        | inl kept ↦ rw kept (Keeps-refl v)
        | inr over ↦
            let k = clear_lease-Keeps item now false v in
            let live = live_of_lease item v (ground arith) in
            rw over (
              Keeps-trans k
                (grant_next_locked-Handed rand s (clear_lease item now false) now k.valid
                  (k.same_deleted ∙ live) refl).0)
      ]

  assign_locked-Keeps :
      (s : Shared) (item : Lock) (holder : Text) (ttl : Duration) (now : Time)
      → IsValid item
      → item.deleted ≡ false
      → InRange ttl
      → Keeps item (assign_locked rand s item holder ttl now).1
  assign_locked-Keeps s item holder ttl now v live range =
      elim (Option-cases (new_token (rand s.draws))) [
        | inl e ↦ rw (assign_locked-none rand s item holder ttl now e) (Keeps-refl v)
        | inr (token, e) ↦
            let (rest, e') = new_token_nonempty (rand s.draws) e in
            rw (assign_locked-some rand s item holder ttl now e)
              (assign_lease-Keeps item holder token ttl now v live range e')
      ]

  acquire_live-Keeps :
      (s : Shared) (item : Lock) (options : AcquireOptions) (now : Time)
      → IsValid item
      → item.deleted ≡ false
      → InRange options.ttl
      → Keeps item (acquire_live rand s item options now).1
  unfolding acquire_live
  acquire_live-Keeps s item options now v live range = ground (
    arith,
    contend-Keeps s item options now v live range,
    assign_locked-Keeps s item options.holder options.ttl now v live range,
  )

  pub acquire_locked-Keeps :
      (s : Shared) (item : Lock) (options : AcquireOptions) (now : Time)
      → IsValid item
      → Keeps item (acquire_locked rand s item options now).1
  unfolding acquire_locked
  acquire_locked-Keeps s item options now v = elim (Bool-cases item.deleted) [
    | inl gone ↦ simp gone (Keeps-refl v)
    | inr live ↦ elim (Result-cases (normalize_ttl options.ttl item.default_ttl)) [
      | inl (e, refused) ↦ simp (live, refused) (Keeps-refl v)
      | inr (ttl, taken) ↦
          let k = expire_locked-Keeps s item now v in
          simp (live, taken)
            (Keeps-trans k (
              acquire_live-Keeps (expire_locked rand s item now).0 (expire_locked rand s item now).1
                (record options { ttl = ttl }) now k.valid (k.same_deleted ∙ live)
                (normalize_ttl-InRange options.ttl item.default_ttl taken)))
    ]
  ]

  pub renew_locked-Keeps :
      (s : Shared) (item : Lock) (token : Text) (ttl : Duration) (now : Time)
      → IsValid item
      → Keeps item (renew_locked rand s item token ttl now).1
  unfolding renew_locked
  renew_locked-Keeps s item token ttl now v = elim (Bool-cases item.deleted) [
    | inl gone ↦ simp gone (Keeps-refl v)
    | inr live ↦
        let k = expire_locked-Keeps s item now v in
        let r =
          renew_live-Keeps (expire_locked rand s item now).0 (expire_locked rand s item now).1 token
            ttl now k.valid in
        simp live (ground (arith, Keeps-refl v, k, r, Keeps-trans k))
  ]

  release_live-Keeps :
      (s : Shared) (item : Lock) (token : Text) (now : Time)
      → IsValid item
      → item.deleted ≡ false
      → Keeps item (release_live rand s item token now).1
  unfolding release_live hand_over clear_lease
  release_live-Keeps s item token now v live =
      let c = clear_lease-Keeps item now true v in
      ground (
        arith,
        Keeps-refl v,
        decrease_depth-Keeps item now v,
        Keeps-trans c,
        grant_next_locked-Handed rand s (clear_lease item now true) now c.valid
            (c.same_deleted ∙ live) refl,
      )

  pub release_locked-Keeps :
      (s : Shared) (item : Lock) (token : Text) (now : Time)
      → IsValid item
      → Keeps item (release_locked rand s item token now).1
  unfolding release_locked
  release_locked-Keeps s item token now v = elim (Bool-cases item.deleted) [
    | inl gone ↦ simp gone (Keeps-refl v)
    | inr live ↦
        let k = expire_locked-Keeps s item now v in
        let r =
          release_live-Keeps (expire_locked rand s item now).0 (expire_locked rand s item now).1
            token now k.valid (k.same_deleted ∙ live) in
        simp live (ground (arith, Keeps-refl v, k, r, Keeps-trans k))
  ]

  pub steal_locked-Keeps :
      (s : Shared) (item : Lock) (holder : Text) (ttl : Duration) (now : Time)
      → IsValid item
      → Keeps item (steal_locked rand s item holder ttl now).1
  unfolding steal_locked
  steal_locked-Keeps s item holder ttl now v = elim (Bool-cases item.deleted) [
    | inl gone ↦ simp gone (Keeps-refl v)
    | inr live ↦ elim (Result-cases (normalize_ttl ttl item.default_ttl)) [
      | inl (e, refused) ↦ simp (live, refused) (Keeps-refl v)
      | inr (t, taken) ↦
          let k = clear_lease-Keeps item now false v in
          let r =
            assign_locked-Keeps s (clear_lease item now false) holder t now k.valid
              (k.same_deleted ∙ live) (normalize_ttl-InRange ttl item.default_ttl taken) in
          simp (live, taken) (ground (arith, Keeps-trans k r))
    ]
  ]

  -- `Delete` may be called on a record that is already deleted.
  pub delete_locked_cases :
      (force : Text) (s : Shared) (item : Lock) (force_token : Text) (now : Time)
      → IsValid item
      → let r = delete_locked rand force s item force_token now in
        ((e : Error) × (r.2 ≡ err e) × Keeps item r.1)
        ⊎ ((r.2 ≡ ok tt)
            × IsValid r.1
            × (r.1.namespace ≡ item.namespace)
            × (r.1.name ≡ item.name)
            × (r.1.deleted ≡ true))
  unfolding delete_locked clear_lease
  delete_locked_cases force s item force_token now v =
      let k = expire_locked-Keeps s item now v in
      let item1 = (expire_locked rand s item now).1 in
      ground (
        arith,
        Keeps-refl v,
        k,
        cancel_all-IsSound err_not_found item1.waiters item1.queue k.valid.queued k.valid.sound,
      )
