-- ===== src/Lock/Turns/Changes.antt =====
-- A step of the service changes at most one record, and that by moves of its lock.
use lockd.Prelude.{
  ℕ, ◌≡◌, refl, sym, ◌∙◌, subst, true, false, Text, Option, some, List, [], ◌∷◌, ◌++◌, text_eq,
  get_elem?, set, All-get_elem?, arith, inl, inr, Bool-cases, Option-cases,
}
use lockd.Lock.Errors.{Result, ok, err, err_not_found}
use lockd.Lock.Types.{Time, Lock, CreateOptions}
use lockd.Lock.Registry.{Registry, create}
use lockd.Lock.Shared.{Shared, emit, expire_locked}
use lockd.Lock.Acquire.{acquire_locked, wait_cancelled}
use lockd.Lock.Calls.{renew_locked, release_locked, steal_locked, delete_locked}
use lockd.Lock.Valid.{IsValid}
use lockd.Lock.Service.{Service, locked, create_lock, delete_at, finish_delete}
use lockd.Lock.Expirer.{scan, scan_at, clean_up, is_cleanup_due}
use lockd.Lock.System.{
  Inv, Step, creates, acquires, receives, abandons, renews, releases, steals, deletes, scans,
}
use lockd.Lock.System.Serving.{remove_heap, finish_delete_heap}
use lockd.Lock.System.Leases.{create_heap}
use lockd.Lock.Turns.{Cause, expiry, given_back, theft, deletion}
use lockd.Lock.Turns.Grants.{Follows, IsOver, Moves-to, turn_of-draws, expire_locked-Follows}
use lockd.Lock.Turns.Sections.{acquire_locked-Follows, renew_locked-Follows, release_locked-Follows}
use lockd.Lock.Turns.Endings.{
  steal_locked-Follows, delete_locked-Follows, wait_done-Follows, wait_cancelled-Follows,
}

-- The events of a deletion draw nothing.
finish_delete-draws :
    (a : ℕ) (now : Time) (r : Service × Result (Unit {0}))
    → (finish_delete a now r).0.shared.draws ≡ r.0.shared.draws
unfolding emit
finish_delete-draws a now (s, err e) = refl
finish_delete-draws a now (s, ok _) = elim (Option-cases (get_elem? s.registry.heap a)) [
  | inl e ↦ rw e refl
  | inr (item, e) ↦ rw e (ground arith)
]

module _ (rand : ℕ → Option (List ℕ)) where
  -- The time of the lease of the record at the address is over.
  abbrev OverAt : Service → ℕ → Time → Type 0
  OverAt s a now = (x : Lock) × (get_elem? s.registry.heap a ≡ some x) × IsOver x now

  -- The token is that of the record at the address.
  abbrev TokenAt : Service → ℕ → Text → Type 0
  TokenAt s a token = (x : Lock) × (get_elem? s.registry.heap a ≡ some x) × (token ≡ x.token)

  -- How a call on a record, at a time, can end its lease: a call that checks for the expiry, when
  -- the lease is over at that time; Release, also when its token is the record's; Steal; and Delete.
  abbrev Expires : Service → ℕ → Time → Cause → Type 0
  Expires s a now expiry = OverAt s a now
  Expires s a now given_back = ⊥
  Expires s a now theft = ⊥
  Expires s a now deletion = ⊥

  abbrev Releases : Service → ℕ → Text → Time → Cause → Type 0
  Releases s a token now expiry = OverAt s a now
  Releases s a token now given_back = TokenAt s a token
  Releases s a token now theft = ⊥
  Releases s a token now deletion = ⊥

  abbrev Steals : Cause → Type 0
  Steals expiry = ⊥
  Steals given_back = ⊥
  Steals theft = Unit {0}
  Steals deletion = ⊥

  abbrev Deletes : Service → ℕ → Time → Cause → Type 0
  Deletes s a now expiry = OverAt s a now
  Deletes s a now given_back = ⊥
  Deletes s a now theft = ⊥
  Deletes s a now deletion = Unit {0}

  -- The causes for which a step can end the lease of the record at the address.
  abbrev pub Ends : {s t : Service} → Step rand s t → ℕ → Cause → Type 0
  Ends (creates options now) a c = ⊥
  Ends {s} (acquires b options now) a c = (b ≡ a) × Expires s b now c
  Ends (receives b w x y sh r e d) a c = ⊥
  Ends (abandons b w e) a c = ⊥
  Ends {s} (renews b token ttl now) a c = (b ≡ a) × Expires s b now c
  Ends {s} (releases b token now) a c = (b ≡ a) × Releases s b token now c
  Ends (steals b holder ttl now) a c = (b ≡ a) × Steals c
  Ends {s} (deletes b force_token now) a c = (b ≡ a) × Deletes s b now c
  Ends {s} (scans b now) a c = (b ≡ a) × Expires s b now c

  -- What a step makes of the heap.
  pub data Change (May : ℕ → Cause → Type 0) (s : Shared) (heap : List Lock) (s' : Shared)
      : List Lock → Type 0 where
    kept : s'.draws ≡ s.draws → Change May s heap s' heap
    grown : (x : Lock) → x.token ≡ [] → s'.draws ≡ s.draws → Change May s heap s' (heap ++ x ∷ [])
    moved :
        (b : ℕ) (x y : Lock)
        → get_elem? heap b ≡ some x
        → Follows rand (May b) s x s' y
        → Change May s heap s' (set heap b y)

  abbrev pub Changes : (ℕ → Cause → Type 0) → Service → Service → Type 0
  Changes May s t = Change May s.shared s.registry.heap t.shared t.registry.heap

  Change-to :
      {May : ℕ → Cause → Type 0} {s s' : Shared} {heap heap' heap2 : List Lock}
      → Change May s heap s' heap'
      → heap' ≡ heap2
      → Change May s heap s' heap2
  Change-to {May} {s} {s'} {heap} c e = subst (Change May s heap s') e c

  locked-Changes {ℓ} :
      {A : Type ℓ} (May : ℕ → Cause → Type 0) (s : Service) (b : ℕ)
      (body : Shared → Lock → Shared × Lock × A) (r : A)
      → Inv s
      → ((x : Lock)
          → get_elem? s.registry.heap b ≡ some x
          → IsValid x
          → Follows rand (May b) s.shared x (body s.shared x).0 (body s.shared x).1)
      → Changes May s (locked s b body r).0
  locked-Changes May s b body r v m = elim (Option-cases (get_elem? s.registry.heap b)) [
    | inl e ↦ rw e (kept refl)
    | inr (x, e) ↦ rw e (
        moved b x (body s.shared x).1 e (m x e (All-get_elem? IsValid s.registry.heap b v.valid e)))
  ]

  create-Change :
      (May : ℕ → Cause → Type 0) (s : Shared) (r : Registry) (options : CreateOptions) (now : Time)
      → Change May s r.heap s (create r options now).0.heap
  create-Change May s r options now = elim (create_heap r options now) [
    | inl e ↦ Change-to (kept refl) (sym e)
    | inr (x, e, new) ↦ Change-to (grown x new refl) (sym e)
  ]

  scan-Changes :
      (May : ℕ → Cause → Type 0) (s : Service) (b : ℕ) (x : Lock) (now : Time)
      → Inv s
      → get_elem? s.registry.heap b ≡ some x
      → (IsOver x now → May b expiry)
      → Changes May s (scan rand s b x now)
  unfolding scan clean_up emit
  scan-Changes May s b x now v e over =
      let r = expire_locked rand s.shared x now in
      let m =
        expire_locked-Follows rand (May b) s.shared x now
          (All-get_elem? IsValid s.registry.heap b v.valid e) over in
      elim (Bool-cases (is_cleanup_due r.1 now)) [
        | inr stays_on ↦ simp stays_on (moved b x r.1 e m)
        | inl due ↦
            simp due (
              Change-to (moved b x (record (r.1) { deleted = true }) e m) (sym (remove_heap _ _ _)))
      ]

  scan_at-Changes :
      (May : ℕ → Cause → Type 0) (s : Service) (b : ℕ) (x : Lock) (now : Time)
      → Inv s
      → get_elem? s.registry.heap b ≡ some x
      → x.deleted ≡ false
      → (IsOver x now → May b expiry)
      → Changes May s (scan_at rand s b (get_elem? s.registry.heap b) now)
  scan_at-Changes May s b x now v e live over =
      rw e (simp live (scan-Changes May s b x now v e over))

  -- A change whose draws are counted elsewhere.
  Change-drawn :
      {May : ℕ → Cause → Type 0} {s s' : Shared} (s2 : Shared) {heap heap' : List Lock}
      → Change May s heap s' heap'
      → s2.draws ≡ s'.draws
      → Change May s heap s2 heap'
  Change-drawn s2 (kept d) e = kept (e ∙ d)
  Change-drawn s2 (grown x n d) e = grown x n (e ∙ d)
  Change-drawn {May} {s} {s'} s2 (moved b x y g m) e =
      moved b x y g (Moves-to rand (May b) m (sym (turn_of-draws s' s2 y e)))

  pub Step-Changes : {s t : Service} (st : Step rand s t) → Inv s → Changes (Ends st) s t
  unfolding create_lock delete_at
  Step-Changes {s} (creates options now) v =
      create-Change (Ends {s = s} (creates options now)) s.shared s.registry options now
  Step-Changes {s} (acquires b options now) v =
      locked-Changes (Ends {s = s} (acquires b options now)) s b
        (λ sh x. acquire_locked rand sh x options now) _ v
        (λ x e i. acquire_locked-Follows rand _ s.shared x options now i (λ o. (refl, (x, e, o))))
  Step-Changes {s} (receives b w x y sh r e d) v =
      moved b x y e (wait_done-Follows rand _ s.shared x w d)
  Step-Changes {s} (abandons b w e) v =
      locked-Changes (Ends {s = s} (abandons b w e)) s b (λ sh x. wait_cancelled sh x w e) _ v
        (λ x g i. wait_cancelled-Follows rand _ s.shared x w e i)
  Step-Changes {s} (renews b token ttl now) v =
      locked-Changes (Ends {s = s} (renews b token ttl now)) s b
        (λ sh x. renew_locked rand sh x token ttl now) _ v
        (λ x e i. renew_locked-Follows rand _ s.shared x token ttl now i (λ o. (refl, (x, e, o))))
  Step-Changes {s} (releases b token now) v =
      locked-Changes (Ends {s = s} (releases b token now)) s b
        (λ sh x. release_locked rand sh x token now) _ v
        (λ x e i.
          release_locked-Follows rand _ s.shared x token now i (λ o. (refl, (x, e, o)))
            (λ own. (refl, (x, e, own))))
  Step-Changes {s} (steals b holder ttl now) v =
      locked-Changes (Ends {s = s} (steals b holder ttl now)) s b
        (λ sh x. steal_locked rand sh x holder ttl now) _ v
        (λ x e i. steal_locked-Follows rand _ s.shared x holder ttl now (refl, tt))
  Step-Changes {s} (deletes b force_token now) v =
      let body : Shared → Lock → Shared × Lock × Result (Unit {0}) =
        λ sh x. delete_locked rand s.force sh x force_token now in
      let u = locked s b body (err err_not_found) in
      Change-to
        (Change-drawn (finish_delete b now u).0.shared
          (locked-Changes (Ends {s = s} (deletes b force_token now)) s b body (err err_not_found) v
            (λ x e i.
              delete_locked-Follows rand _ s.force s.shared x force_token now i
                (λ o. (refl, (x, e, o))) (refl, tt)))
          (finish_delete-draws b now u))
        (sym (finish_delete_heap b now u))
  Step-Changes {s} (scans b now) v = elim (Option-cases (get_elem? s.registry.heap b)) [
    | inl e ↦ rw e (kept refl)
    | inr (x, e) ↦ elim (Bool-cases x.deleted) [
      | inl gone ↦ rw e (simp gone (kept refl))
      | inr live ↦
          scan_at-Changes (Ends {s = s} (scans b now)) s b x now v e live (λ o. (refl, (x, e, o)))
    ]
  ]
