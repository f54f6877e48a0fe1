-- ===== src/Lock/System/Tenure.antt =====
-- A lease over time: what any number of interleaved calls of others does to it.
use lockd.Prelude.{
  ℕ, ◌≡◌, ◌≢◌, ◌⊎◌, refl, sym, ◌∙◌, subst, true, false, Option, some, List, [], ◌∷◌, pos, text_eq,
  Text, get_elem?, get_elem?-append_old, All-get_elem?, inl, inr, Bool-cases, Option-cases,
}
use lockd.Lock.Types.{Time, Duration, Lock, AcquireOptions, CreateOptions}
use lockd.Lock.Registry.{Registry, create}
use lockd.Lock.Shared.{Shared, expire_locked}
use lockd.Lock.Acquire.{acquire_locked, wait_cancelled}
use lockd.Lock.Calls.{renew_locked, release_locked, steal_locked, delete_locked}
use lockd.Lock.Valid.{IsValid}
use lockd.Lock.Valid.Sections.{acquire_locked-Keeps}
use lockd.Lock.Valid.Waits.{wait_done-Keeps, wait_cancelled-Keeps}
use lockd.Lock.Exclusion.{expire_locked_running, acquire_locked_excluded, foreign_token}
use lockd.Lock.Service.{Service, create_lock, delete_at}
use lockd.Lock.Expirer.{scan, clean_up, is_cleanup_due}
use lockd.Lock.System.{
  Inv, Step, Reach, creates, acquires, receives, abandons, renews, releases, steals, deletes, scans,
  here, next,
}
use lockd.Lock.System.Invariant.{Reach-Inv}
use lockd.Lock.System.Serving.{remove_heap, finish_delete_heap}
use lockd.Lock.System.Leases.{
  HasLease, HasLeaseAt, InTime, wait_done-SameLease, wait_cancelled-SameLease, SameLease-trans,
  Runs-SameLease, create_heap, not_due, set-HasLeaseAt, locked-HasLeaseAt,
}

module _ (rand : ℕ → Option (List ℕ)) (item : Lock) (a : ℕ) where
  -- A step of others: the lease is not over at the time that a step at the record's address reads,
  -- an `Acquire` there is by another holder, a `Renew` or a `Release` there has another token, and
  -- nobody steals or deletes the lock.
  abbrev pub Calm : {s t : Service} → Step rand s t → Type 0
  Calm (creates options now) = Unit {0}
  Calm (acquires b options now) = (b ≢ a) ⊎ (InTime item now × (item.holder ≢ options.holder))
  Calm (receives b w x y sh r e d) = Unit {0}
  Calm (abandons b w e) = Unit {0}
  Calm (renews b token ttl now) = (b ≢ a) ⊎ (InTime item now × (token ≢ item.token))
  Calm (releases b token now) = (b ≢ a) ⊎ (InTime item now × (token ≢ item.token))
  Calm (steals b holder ttl now) = b ≢ a
  Calm (deletes b force_token now) = b ≢ a
  Calm (scans b now) = (b ≢ a) ⊎ InTime item now

  abbrev pub AllCalm : {s t : Service} → Reach rand s t → Type 0
  AllCalm here = Unit {0}
  AllCalm (next r st) = AllCalm r × Calm st

  create-HasLeaseAt :
      (r : Registry) (options : CreateOptions) (now : Time)
      → HasLeaseAt item a r.heap
      → HasLeaseAt item a (create r options now).0.heap
  create-HasLeaseAt r options now (y, g, h) = elim (create_heap r options now) [
    | inl e ↦ subst (HasLeaseAt item a) (sym e) (y, g, h)
    | inr (x, e, _) ↦
        subst (HasLeaseAt item a) (sym e) (y, get_elem?-append_old r.heap (x ∷ []) a g, h)
  ]

  scan-HasLeaseAt :
      (s : Service) (b : ℕ) (x : Lock) (now : Time)
      → item.token ≢ []
      → get_elem? s.registry.heap b ≡ some x
      → HasLeaseAt item a s.registry.heap
      → (b ≢ a) ⊎ InTime item now
      → HasLeaseAt item a (scan rand s b x now).registry.heap
  unfolding scan clean_up is_cleanup_due
  scan-HasLeaseAt s b x now held e h keep =
      let y = (expire_locked rand s.shared x now).1 in
      let n : (b ≢ a) ⊎ (HasLease item x → HasLease item y) = elim keep [
        | inl n ↦ inl n
        | inr t ↦
            inr
              (λ l. rw (expire_locked_running rand s.shared x now (Runs-SameLease now held t l)) l)
      ] in
      elim (Bool-cases (is_cleanup_due y now)) [
        | inr stays ↦ simp stays (set-HasLeaseAt item a s.registry.heap b x y e h n)
        | inl due ↦ simp due (
            rw remove_heap (
              set-HasLeaseAt item a s.registry.heap b x (record y { deleted = true }) e h
                (elim keep [
                  | inl n ↦ inl n
                  | inr t ↦ inr (λ l. absurd (not_due rand item s.shared x now held t l due))
                ])))
      ]

  acquire-HasLease :
      (s : Shared) (x : Lock) (options : AcquireOptions) (now : Time)
      → item.token ≢ []
      → InTime item now
      → item.holder ≢ options.holder
      → IsValid x
      → HasLease item x
      → HasLease item (acquire_locked rand s x options now).1
  acquire-HasLease s x options now held t other v h =
      let run = Runs-SameLease now held t h in
      (
        SameLease-trans h.0
            (acquire_locked_excluded rand s x options now run
              (inl (λ e. other (sym h.0.same_holder ∙ e)))).0,
        (acquire_locked-Keeps rand s x options now v).same_deleted ∙ h.1,
      )

  renew-HasLease :
      (s : Shared) (x : Lock) (token : Text) (ttl : Duration) (now : Time)
      → item.token ≢ []
      → InTime item now
      → token ≢ item.token
      → HasLease item x
      → HasLease item (renew_locked rand s x token ttl now).1
  renew-HasLease s x token ttl now held t other h =
      rw
        (foreign_token rand s x token ttl now (Runs-SameLease now held t h)
          (λ e. other (e ∙ h.0.same_token))).0
        h

  release-HasLease :
      (s : Shared) (x : Lock) (token : Text) (now : Time)
      → item.token ≢ []
      → InTime item now
      → token ≢ item.token
      → HasLease item x
      → HasLease item (release_locked rand s x token now).1
  release-HasLease s x token now held t other h =
      rw
        (foreign_token rand s x token (pos 0) now (Runs-SameLease now held t h)
          (λ e. other (e ∙ h.0.same_token))).1
        h

  Step-HasLeaseAt :
      {s t : Service} (st : Step rand s t)
      → item.token ≢ []
      → Inv s
      → HasLeaseAt item a s.registry.heap
      → Calm st
      → HasLeaseAt item a t.registry.heap
  unfolding create_lock delete_at
  Step-HasLeaseAt {s} (creates options now) held v h calm =
      create-HasLeaseAt s.registry options now h
  Step-HasLeaseAt {s} (acquires b options now) held v h calm =
      locked-HasLeaseAt item a s b (λ sh x. acquire_locked rand sh x options now) _ v h
        (elim calm [
          | inl n ↦ inl n
          | inr (t, other) ↦ inr (λ x i l. acquire-HasLease s.shared x options now held t other i l)
        ])
  Step-HasLeaseAt {s} (receives b w x y sh r e d) held v h calm =
      let i = All-get_elem? IsValid s.registry.heap b v.valid e in
      set-HasLeaseAt item a s.registry.heap b x y e h (
        inr (λ l. (
          SameLease-trans l.0 (wait_done-SameLease s.shared x w d),
          (wait_done-Keeps s.shared x w i d).same_deleted ∙ l.1,
        )))
  Step-HasLeaseAt {s} (abandons b w e) held v h calm =
      locked-HasLeaseAt item a s b (λ sh x. wait_cancelled sh x w e) _ v h
        (inr (λ x i l. (
          SameLease-trans l.0 (wait_cancelled-SameLease s.shared x w e),
          (wait_cancelled-Keeps s.shared x w e i).same_deleted ∙ l.1,
        )))
  Step-HasLeaseAt {s} (renews b token ttl now) held v h calm =
      locked-HasLeaseAt item a s b (λ sh x. renew_locked rand sh x token ttl now) _ v h
        (elim calm [
          | inl n ↦ inl n
          | inr (t, other) ↦ inr (λ x i l. renew-HasLease s.shared x token ttl now held t other l)
        ])
  Step-HasLeaseAt {s} (releases b token now) held v h calm =
      locked-HasLeaseAt item a s b (λ sh x. release_locked rand sh x token now) _ v h
        (elim calm [
          | inl n ↦ inl n
          | inr (t, other) ↦ inr (λ x i l. release-HasLease s.shared x token now held t other l)
        ])
  Step-HasLeaseAt {s} (steals b holder ttl now) held v h calm =
      locked-HasLeaseAt item a s b (λ sh x. steal_locked rand sh x holder ttl now) _ v h (inl calm)
  Step-HasLeaseAt {s} (deletes b force_token now) held v h calm = rw finish_delete_heap (
      locked-HasLeaseAt item a s b (λ sh x. delete_locked rand s.force sh x force_token now) _ v h
        (inl calm))
  Step-HasLeaseAt {s} (scans b now) held v h calm =
      elim (Option-cases (get_elem? s.registry.heap b)) [
        | inl e ↦ rw e h
        | inr (x, e) ↦ elim (Bool-cases x.deleted) [
          | inl gone ↦ rw e (simp gone h)
          | inr live ↦ rw e (simp live (scan-HasLeaseAt s b x now held e h calm))
        ]
      ]

  -- From a service that satisfies the invariant, in which the record at an address is not deleted
  -- and has a lease, and by any interleaving of steps of which those at that record read a time at
  -- which the lease is not over, acquire for other holders, renew and release with other tokens,
  -- and neither steal nor delete, the record keeps its token, holder, depth and end of the lease,
  -- and is not deleted.
  pub lease_lasts :
      {s t : Service} (r : Reach rand s t)
      → Inv s
      → get_elem? s.registry.heap a ≡ some item
      → item.token ≢ []
      → item.deleted ≡ false
      → AllCalm r
      → HasLeaseAt item a t.registry.heap
  lease_lasts here v g held live calm = (
    item,
    g,
    (record { same_token = refl; same_holder = refl; same_depth = refl; same_expiry = refl }, live),
  )
  lease_lasts (next r st) v g held live calm =
      Step-HasLeaseAt st held (Reach-Inv rand v r) (lease_lasts r v g held live calm.0) calm.1
