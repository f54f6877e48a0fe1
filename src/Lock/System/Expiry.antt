-- ===== src/Lock/System/Expiry.antt =====
-- The leases after a pass of the background scan of internal/lock/expirer.go.
use lockd.Prelude.{
  ℕ, ◌≡◌, ◌⊎◌, sym, ◌∙◌, ap, subst, true, false, Option, some, List, [], ◌∷◌, map, Text, text_eq,
  nat_eq, ◌==◌, get_elem?, get_elem?-set_cases, set, lookup, All-get_elem?, arith, contains, inl,
  inr, Bool-cases, Option-cases, nat_beq_iff,
}
use mathlib.Core.Bool.{false≢true}
use mathlib.Core.Option.{some-injective}
use lockd.Lock.Types.{Time, Lock, lock_name}
use lockd.Lock.Lease.{lease_expired, clear_lease}
use lockd.Lock.Registry.{all_records}
use lockd.Lock.Shared.{Shared, expire_locked}
use lockd.Lock.Valid.{IsValid}
use lockd.Lock.Valid.Grants.{clear_lease-Keeps}
use lockd.Lock.Valid.Rounds.{grant_next_locked-Handed}
use lockd.Lock.Valid.Parts.{live_of_lease}
use lockd.Lock.Service.{Service}
use lockd.Lock.Expirer.{expire_items, expire_pass, scan, scan_at, clean_up, is_cleanup_due}
use lockd.Lock.System.{Inv, scans}
use lockd.Lock.System.Invariant.{Step-Inv}
use lockd.Lock.System.Serving.{remove_heap}

-- A record whose lease, if it has one and is not deleted, ends after `now`.
abbrev pub IsCurrent : Time → Lock → Type 0
IsCurrent now item = item.deleted ≡ false → lease_expired item.expires_at now ≡ false

module _ (rand : ℕ → Option (List ℕ)) where
  expire_locked-IsCurrent :
      (s : Shared) (item : Lock) (now : Time)
      → IsValid item
      → lease_expired (expire_locked rand s item now).1.expires_at now ≡ false
  unfolding expire_locked clear_lease lease_expired
  expire_locked-IsCurrent s item now v =
      let c = clear_lease-Keeps item now false v in
      ground (
        arith,
        v.lease,
        live_of_lease item v,
        grant_next_locked-Handed rand s (clear_lease item now false) now c.valid,
      )

lookup-contains :
    (k : Text) (m : List (Text × ℕ)) (a : ℕ)
    → lookup k m ≡ some a
    → contains a (map (λ e. e.1) m) ≡ true
unfolding lookup contains
lookup-contains k [] a e = absurd (cc)
lookup-contains k ((j, b) ∷ m) a e = ground (arith, lookup-contains k m a)

-- The record at an address, if there is one, is current.
abbrev CurrentAt : Time → Service → ℕ → Type 0
CurrentAt now s b = (item : Lock) → get_elem? s.registry.heap b ≡ some item → IsCurrent now item

module _ (rand : ℕ → Option (List ℕ)) where
  -- One round writes the record at its address, and leaves it current.
  scan_heap :
      (s : Service) (a : ℕ) (item : Lock) (now : Time)
      → IsValid item
      → (item' : Lock) × ((scan rand s a item now).registry.heap ≡ set s.registry.heap a item')
        × IsCurrent now item'
  unfolding scan clean_up
  scan_heap s a item now v =
      let item1 = (expire_locked rand s.shared item now).1 in
      elim (Bool-cases (is_cleanup_due item1 now)) [
        | inl due ↦ (record item1 { deleted = true }, simp due (rw remove_heap), λ d. absurd (cc))
        | inr stays ↦ (item1, simp stays, λ d. expire_locked-IsCurrent rand s.shared item now v)
      ]

  scan-CurrentAt :
      (s : Service) (a : ℕ) (item : Lock) (now : Time) (b : ℕ)
      → Inv s
      → get_elem? s.registry.heap a ≡ some item
      → CurrentAt now s b ⊎ (a ≡ b)
      → CurrentAt now (scan rand s a item now) b
  scan-CurrentAt s a item now b v e h x g =
      let (item', written, current) =
        scan_heap s a item now (All-get_elem? IsValid s.registry.heap a v.valid e) in
      elim (get_elem?-set_cases s.registry.heap a b item' e
        (ap (λ l. get_elem? l b) (sym written) ∙ g)) [
          | inl (p, q) ↦ subst (IsCurrent now) q current
          | inr (n, g') ↦ elim h [ inl c ↦ c x g' | inr p ↦ absurd (n p) ]
        ]

  -- An address with no record, or with a deleted one.
  idle-CurrentAt :
      (s : Service) (a : ℕ) (now : Time)
      → ((item : Lock) → get_elem? s.registry.heap a ≡ some item → item.deleted ≡ true)
      → CurrentAt now s a
  idle-CurrentAt s a now gone x g d = absurd (false≢true (sym d ∙ gone x g))

  scan_at-CurrentAt :
      (s : Service) (a : ℕ) (now : Time) (b : ℕ)
      → Inv s
      → CurrentAt now s b ⊎ (a ≡ b)
      → CurrentAt now (scan_at rand s a (get_elem? s.registry.heap a) now) b
  scan_at-CurrentAt s a now b v h = elim (Option-cases (get_elem? s.registry.heap a)) [
    | inl e ↦ rw e (elim h [
      | inl c ↦ c
      | inr p ↦ subst (CurrentAt now s) p (idle-CurrentAt s a now (λ x g. absurd (cc)))
    ])
    | inr (item, e) ↦ elim (Bool-cases item.deleted) [
      | inr live ↦ rw e (simp live (scan-CurrentAt s a item now b v e h))
      | inl gone ↦ rw e (
          simp gone (elim h [
            | inl c ↦ c
            | inr p ↦ subst (CurrentAt now s) p (
                idle-CurrentAt s a now
                  (λ x g. ap (λ y. y.deleted) (some-injective _ _ (sym g ∙ e)) ∙ gone))
          ]))
    ]
  ]

  -- A pass visits every record that is not deleted.
  covered :
      (s : Service) (a : ℕ) (now : Time)
      → Inv s
      → CurrentAt now s a ⊎ (contains a (all_records s.registry) ≡ true)
  unfolding all_records
  covered s a now v = elim (Option-cases (get_elem? s.registry.heap a)) [
    | inl e ↦ inl (idle-CurrentAt s a now (λ x g. absurd (cc)))
    | inr (item, e) ↦ elim (Bool-cases item.deleted) [
      | inl gone ↦ inl (
          idle-CurrentAt s a now
            (λ x g. ap (λ y. y.deleted) (some-injective _ _ (sym g ∙ e)) ∙ gone))
      | inr live ↦
          inr (lookup-contains (lock_name item) s.registry.locks a (v.registered a item e live))
    ]
  ]

  expire_items-CurrentAt :
      (s : Service) (items : List ℕ) (now : Time) (b : ℕ)
      → Inv s
      → CurrentAt now s b ⊎ (contains b items ≡ true)
      → CurrentAt now (expire_items rand s items now) b
  unfolding expire_items contains
  expire_items-CurrentAt s [] now b v (inl h) = h
  expire_items-CurrentAt s [] now b v (inr m) = absurd (cc)
  expire_items-CurrentAt s (a ∷ items) now b v h =
      let s' = scan_at rand s a (get_elem? s.registry.heap a) now in
      let v' : Inv s' = Step-Inv rand (scans a now) v in
      expire_items-CurrentAt s' items now b v' (elim h [
        | inl c ↦ inl (scan_at-CurrentAt s a now b v (inl c))
        | inr m ↦ elim (Bool-cases (a == b)) [
          | inl same ↦ inl (scan_at-CurrentAt s a now b v (inr ((nat_beq_iff a b).0 same)))
          | inr other ↦ inr (ground arith)
        ]
      ])

  -- After a pass of the expirer at a time, in a service that satisfies the invariant, no record
  -- that is not deleted has a lease that is over at that time.
  pub expire_pass_current :
      (s : Service) (now : Time) (a : ℕ) (item : Lock)
      → Inv s
      → get_elem? (expire_pass rand s now).registry.heap a ≡ some item
      → item.deleted ≡ false
      → lease_expired item.expires_at now ≡ false
  unfolding expire_pass all_records
  expire_pass_current s now a item v g live =
      expire_items-CurrentAt s (all_records s.registry) now a v (covered s a now v) item g live
