-- ===== src/Lock/System/Creates.antt =====
-- `Create` of internal/lock/registry.go and the invariant of the service.
use lockd.Prelude.{
  ℕ, ◌+◌, ◌≤◌, ◌≡◌, refl, sym, ◌∙◌, ap, subst, Bool, false, not, ◌||◌, some, none, [], ◌∷◌, ◌++◌,
  Text, text_eq, nat_eq, ◌==◌, if◌then◌else◌, ℤ, pos, pos_part, ◌≤ℤ◌, ◌+ℤ◌, +ℤ-pos, ltb_ℤ, leb_ℤ,
  length, get_elem?, get_elem?-append_cases, get_elem?-append_old, get_elem?-append_new, All-append,
  lookup, lookup-insert, insert, text_beq_iff, arith, inl, inr, Bool-cases, Option-cases,
}
use lockd.Lock.Errors.{Result-cases}
use lockd.Lock.Types.{Time, Duration, CreateOptions, Lock, lock_name}
use lockd.Lock.Lease.{normalize_ttl}
use lockd.Lock.Lease.Bounds.{InRange, normalize_ttl-InRange}
use lockd.Lock.Registry.{
  Registry, create, enter, count_at, new_lock, valid_name, namespace_allowed, effective_depth,
}
use lockd.Lock.Valid.{IsValid}
use lockd.Lock.Service.{Service, create_lock}
use lockd.Lock.System.{Inv, IsNamed, live_count}
use lockd.Lock.System.Counts.{live_count-append}
use lockd.Lock.System.Writes.{count_at-insert}

-- The registry with one more record.
abbrev entered : Registry → Lock → Registry
entered r item = record r {
  heap = r.heap ++ item ∷ [];
  locks = insert (lock_name item) (length r.heap) r.locks;
  ns_counts = insert item.namespace (count_at item.namespace r.ns_counts +ℤ pos 1) r.ns_counts;
}

module _ (s : Service) (item : Lock) (v : Inv s) (valid : IsValid item) (named : IsNamed item)
    (live : item.deleted ≡ false) (fresh : lookup (lock_name item) s.registry.locks ≡ none)
    (room : leb_ℤ s.registry.quota (count_at item.namespace s.registry.ns_counts) ≡ false) where
  more :
      (ns : Text)
      → live_count ns (s.registry.heap ++ item ∷ [])
        ≡ (if item.namespace == ns then 1 else 0) + live_count ns s.registry.heap
  more ns = live_count-append ns s.registry.heap item live

  registered_more :
      (b : ℕ) (x : Lock)
      → get_elem? (s.registry.heap ++ item ∷ []) b ≡ some x
      → x.deleted ≡ false
      → lookup (lock_name x) (insert (lock_name item) (length s.registry.heap) s.registry.locks)
        ≡ some b
  registered_more b x g d =
      let law =
        lookup-insert (lock_name item) (lock_name x) (length s.registry.heap) s.registry.locks in
      let same = text_beq_iff (lock_name item) (lock_name x) in
      elim (get_elem?-append_cases s.registry.heap item b g) [
        | inl (e, e') ↦ law ∙ rw (same.1 (ap (λ y. lock_name y) e')) (ap some (sym e))
        | inr g' ↦ let old = v.registered b x g' d in ground (arith, law, same, old, fresh)
      ]

  entries_more :
      (key : Text) (b : ℕ)
      → lookup key (insert (lock_name item) (length s.registry.heap) s.registry.locks) ≡ some b
      → (x : Lock) × (get_elem? (s.registry.heap ++ item ∷ []) b ≡ some x)
        × (lock_name x ≡ key)
        × (x.deleted ≡ false)
  entries_more key b l =
      let law = lookup-insert (lock_name item) key (length s.registry.heap) s.registry.locks in
      elim (Bool-cases (lock_name item == key)) [
        | inl e ↦
            let here : length s.registry.heap ≡ b = ground (arith, law) in
            (
              item,
              subst (λ i. get_elem? (s.registry.heap ++ item ∷ []) i ≡ some item) here
                  (get_elem?-append_new s.registry.heap item),
              (text_beq_iff (lock_name item) key).0 e,
              live,
            )
        | inr e ↦
            let (x, g, n, d) = v.entries key b (ground (arith, law)) in
            (x, get_elem?-append_old s.registry.heap (item ∷ []) b g, n, d)
      ]

  counted_more :
      (ns : Text)
      → count_at ns (entered s.registry item).ns_counts
        ≡ pos (live_count ns (s.registry.heap ++ item ∷ []))
  counted_more ns =
      count_at-insert item.namespace ns (count_at item.namespace s.registry.ns_counts +ℤ pos 1)
        s.registry.ns_counts
      ∙ elim (Bool-cases (item.namespace == ns)) [
        | inl e ↦
            let here : item.namespace ≡ ns = (text_beq_iff item.namespace ns).0 e in
            let grown : live_count ns s.registry.heap + 1
                ≡ live_count ns (s.registry.heap ++ item ∷ []) =
              let m : live_count ns (s.registry.heap ++ item ∷ [])
                  ≡ 1 + live_count ns s.registry.heap =
                more ns
                ∙ ap (λ (b : Bool). (if b then 1 else 0) + live_count ns s.registry.heap) e in
              omega (arith, m) in
            rw e (
              ap (λ t. count_at t s.registry.ns_counts +ℤ pos 1) here
              ∙ ap (λ z. z +ℤ pos 1) (v.counted ns)
              ∙ +ℤ-pos (live_count ns s.registry.heap) 1
              ∙ ap pos grown)
        | inr e ↦ rw e (v.counted ns ∙ ap pos (sym (more ns ∙ rw e (omega arith))))
      ]

  bounded_more :
      (ns : Text) → live_count ns (s.registry.heap ++ item ∷ []) ≤ pos_part s.registry.quota
  bounded_more ns =
      ground (arith, more ns, v.bounded ns, v.counted ns, text_beq_iff item.namespace ns, room)

  entered-Inv : Inv (record s { registry = entered s.registry item })
  entered-Inv = record {
    valid = All-append IsValid s.registry.heap (item ∷ []) v.valid (valid, tt);
    named = All-append IsNamed s.registry.heap (item ∷ []) v.named (named, tt);
    registered = registered_more;
    entries = entries_more;
    counted = counted_more;
    bounded = bounded_more;
  }

enter-Inv :
    (s : Service) (item : Lock) (now : Time)
    → Inv s
    → IsValid item
    → IsNamed item
    → item.deleted ≡ false
    → Inv (record s { registry = (enter s.registry item now).0 })
unfolding enter
enter-Inv s item now v valid named live =
    elim (Option-cases (lookup (lock_name item) s.registry.locks)) [
      | inr (a, taken) ↦ rw taken v
      | inl fresh ↦
          elim (Bool-cases
            (leb_ℤ s.registry.quota (count_at item.namespace s.registry.ns_counts))) [
              | inl full ↦ rw fresh (rw full v)
              | inr room ↦ rw fresh (rw room (entered-Inv s item v valid named live fresh room))
            ]
    ]

new_lock-IsValid :
    (options : CreateOptions) (depth : ℤ) (ttl : Duration) (now : Time)
    → InRange ttl
    → pos 1 ≤ℤ depth
    → depth ≤ℤ pos 1024
    → IsValid (new_lock options depth ttl now)
new_lock-IsValid options depth ttl now range low high = record {
  terms = range;
  depths = (low, high);
  lease = (refl, refl, refl);
  queued = tt;
  sound = tt;
  gone = λ d. (refl, refl);
}

pub create_lock-Inv :
    (s : Service) (options : CreateOptions) (now : Time) → Inv s → Inv (create_lock s options now).0
unfolding create_lock create
create_lock-Inv s options now v =
    elim (Bool-cases (not (valid_name options.namespace) || not (valid_name options.name))) [
      | inl refused ↦ simp refused v
      | inr names ↦ elim (Bool-cases (not (namespace_allowed s.registry options.namespace))) [
        | inl denied ↦ simp (names, denied) v
        | inr allowed ↦
            elim (Result-cases (normalize_ttl options.default_ttl s.registry.default_ttl)) [
              | inl (e, range) ↦ simp (names, allowed, range) v
              | inr (ttl, range) ↦
                  let depth = effective_depth options.max_depth in
                  elim (Bool-cases (ltb_ℤ depth (pos 1) || ltb_ℤ (pos 1024) depth)) [
                    | inl deep ↦ simp (names, allowed, range, deep) v
                    | inr fits ↦
                        simp (names, allowed, range, fits)
                          (enter-Inv s (new_lock options depth ttl now) now v
                            (new_lock-IsValid options depth ttl now
                              (normalize_ttl-InRange options.default_ttl s.registry.default_ttl
                                range)
                              (ground arith) (ground arith))
                            (ground arith) refl)
                  ]
            ]
      ]
    ]
