-- ===== src/Lock/System/Writes.antt =====
-- Writes of a record back to the heap, and the two ways in which the map changes, keep the
-- invariant of the service.
use lockd.Prelude.{
  ℕ, ◌+◌, ◌≡◌, refl, sym, ◌∙◌, ap, subst, true, false, Option, some, none, List, Text, text_eq,
  nat_eq, ◌==◌, if◌then◌else◌, pos, get_elem?, get_elem?-set_cases, get_elem?-set_self,
  get_elem?-set_ne, set, All-set, lookup, lookup-insert, lookup-delete, arith, text_beq_iff, inl,
  inr, All-get_elem?, delete, insert, ◌-ℤ◌, -ℤ-suc, text_beq, Bool-cases, ℤ,
}
use mathlib.Core.Option.{some-injective}
use mathlib.Core.Path.{ap₂}
use native.Mathlib.Decide.{ℕ_discrete}
use lockd.Lock.Types.{Lock, lock_name, full_name}
use lockd.Lock.Registry.{Registry, remove, count_at, same_address}
use lockd.Lock.Shared.{Shared}
use lockd.Lock.Valid.{IsValid}
use lockd.Lock.Valid.Grants.{Keeps}
use lockd.Lock.Service.{Service}
use lockd.Lock.System.{Inv, IsNamed, live_count}
use lockd.Lock.System.Counts.{live_count-set_same, live_count-set_deleted}

-- The service with a record written back.
abbrev pub store : Service → Shared → ℕ → Lock → Service
store s sh a item = record s {
  shared = sh;
  registry = record (s.registry) { heap = set s.registry.heap a item };
}

IsNamed-same :
    (item item' : Lock)
    → item'.namespace ≡ item.namespace
    → item'.name ≡ item.name
    → IsNamed item
    → IsNamed item'
IsNamed-same item item' n m h = (rw n h.0, rw m h.1)

module _ (s : Service) (sh : Shared) (a : ℕ) (item item' : Lock) (v : Inv s)
    (found : get_elem? s.registry.heap a ≡ some item) where
  heap_item : IsNamed item
  heap_item = All-get_elem? IsNamed s.registry.heap a v.named found

  -- An entry of the map, after the write of a record that is live as before.
  entry_after :
      Keeps item item'
      → (key : Text) (b : ℕ) → lookup key s.registry.locks ≡ some b
      → (x : Lock) × (get_elem? (set s.registry.heap a item') b ≡ some x)
        × (lock_name x ≡ key)
        × (x.deleted ≡ false)
  entry_after k key b l =
      let (x, g, n, d) = v.entries key b l in
      elim (ℕ_discrete a b) [
        | yes e ↦
            let same : item ≡ x =
              some-injective _ _ (sym found ∙ ap (get_elem? s.registry.heap) e ∙ g) in
            (
              item',
              subst (λ i. get_elem? (set s.registry.heap a item') i ≡ some item') e
                  (get_elem?-set_self s.registry.heap a item' found),
              ap₂ full_name k.same_namespace k.same_name ∙ ap (λ y. lock_name y) same ∙ n,
              k.same_deleted ∙ ap (λ y. y.deleted) same ∙ d,
            )
        | no n' ↦ (x, get_elem?-set_ne s.registry.heap a b item' n' ∙ g, n, d)
      ]

  pub store-Inv : Keeps item item' → Inv (store s sh a item')
  store-Inv k = record {
    valid = All-set IsValid s.registry.heap a item' v.valid k.valid;
    named =
        All-set IsNamed s.registry.heap a item' v.named
          (IsNamed-same item item' k.same_namespace k.same_name heap_item);
    registered = λ b x g live. elim (get_elem?-set_cases s.registry.heap a b item' found g) [
      | inl (e, e') ↦
          subst (λ y. lookup (lock_name y) s.registry.locks ≡ some b) e'
            (subst (λ i. lookup (lock_name item') s.registry.locks ≡ some i) e
              (ap (λ t. lookup t s.registry.locks) (ap₂ full_name k.same_namespace k.same_name)
                ∙ v.registered a item found (sym k.same_deleted ∙ ap (λ y. y.deleted) e' ∙ live)))
      | inr (n, g') ↦ v.registered b x g' live
    ];
    entries = entry_after k;
    counted = λ ns.
        v.counted ns
        ∙ ap pos (
            sym (
              live_count-set_same ns s.registry.heap a item item' found k.same_namespace
                k.same_deleted));
    bounded = λ ns. omega (
      arith,
      v.bounded ns,
      live_count-set_same ns s.registry.heap a item item' found k.same_namespace k.same_deleted,
    );
  }

pub count_at-insert :
    (k ns : Text) (n : ℤ) (m : List (Text × ℤ))
    → count_at ns (insert k n m) ≡ (if k == ns then n else count_at ns m)
count_at-insert k ns n m = ground (arith, lookup-insert k ns n m)

-- The registry without the record `item'` at `a`.
abbrev retired : Service → ℕ → Lock → Registry
retired s a item' = record (s.registry) {
  heap = set s.registry.heap a item';
  locks = delete (lock_name item') s.registry.locks;
  ns_counts =
      insert item'.namespace (count_at item'.namespace s.registry.ns_counts -ℤ pos 1)
        s.registry.ns_counts;
}

module _ (s : Service) (sh : Shared) (a : ℕ) (item item' : Lock) (v : Inv s)
    (found : get_elem? s.registry.heap a ≡ some item) (valid : IsValid item')
    (same_namespace : item'.namespace ≡ item.namespace) (same_name : item'.name ≡ item.name)
    (live : item.deleted ≡ false) (gone : item'.deleted ≡ true) where
  key_same : lock_name item' ≡ lock_name item
  key_same = ap₂ full_name same_namespace same_name

  at_key : lookup (lock_name item') s.registry.locks ≡ some a
  at_key = ap (λ t. lookup t s.registry.locks) key_same ∙ v.registered a item found live

  fewer :
      (ns : Text)
      → live_count ns s.registry.heap
        ≡ (if item'.namespace == ns then 1 else 0) + live_count ns (set s.registry.heap a item')
  fewer ns =
      live_count-set_deleted ns s.registry.heap a item item' found live gone
      ∙ ap (λ (t : Text). (if t == ns then 1 else 0) + live_count ns (set s.registry.heap a item'))
          (sym same_namespace)

  registered_after :
      (b : ℕ) (x : Lock)
      → get_elem? (set s.registry.heap a item') b ≡ some x
      → x.deleted ≡ false
      → lookup (lock_name x) (delete (lock_name item') s.registry.locks) ≡ some b
  registered_after b x g d = elim (get_elem?-set_cases s.registry.heap a b item' found g) [
    | inl (e, e') ↦ absurd (ground arith)
    | inr (n, g') ↦
        let old : lookup (lock_name x) s.registry.locks ≡ some b = v.registered b x g' d in
        ground (
          arith,
          lookup-delete (lock_name item') (lock_name x) s.registry.locks,
          text_beq_iff (lock_name item') (lock_name x),
          old,
          at_key,
        )
  ]

  entries_after :
      (key : Text) (b : ℕ)
      → lookup key (delete (lock_name item') s.registry.locks) ≡ some b
      → (x : Lock) × (get_elem? (set s.registry.heap a item') b ≡ some x)
        × (lock_name x ≡ key)
        × (x.deleted ≡ false)
  entries_after key b l =
      let law = lookup-delete (lock_name item') key s.registry.locks in
      let other : text_beq (lock_name item') key ≡ false = ground (arith, law) in
      let old : lookup key s.registry.locks ≡ some b = ground (arith, law) in
      let (x, g, n, d) = v.entries key b old in
      elim (ℕ_discrete a b) [
        | yes e ↦
            let same : item ≡ x =
              some-injective _ _ (sym found ∙ ap (get_elem? s.registry.heap) e ∙ g) in
            absurd (
              ground (
                arith,
                text_beq_iff (lock_name item') key,
                key_same ∙ ap (λ y. lock_name y) same ∙ n,
              ))
        | no n' ↦ (x, get_elem?-set_ne s.registry.heap a b item' n' ∙ g, n, d)
      ]

  counted_after :
      (ns : Text)
      → count_at ns (
          insert item'.namespace
            (count_at item'.namespace s.registry.ns_counts -ℤ pos 1)
            s.registry.ns_counts)
        ≡ pos (live_count ns (set s.registry.heap a item'))
  counted_after ns =
      count_at-insert item'.namespace ns (count_at item'.namespace s.registry.ns_counts -ℤ pos 1)
        s.registry.ns_counts
      ∙ elim (Bool-cases (item'.namespace == ns)) [
        | inl e ↦
            let here : item'.namespace ≡ ns = (text_beq_iff item'.namespace ns).0 e in
            rw e (
              ap (λ t. count_at t s.registry.ns_counts -ℤ pos 1) here
              ∙ ap (λ z. z -ℤ pos 1) (v.counted ns ∙ ap pos (fewer ns ∙ rw e (omega arith)))
              ∙ -ℤ-suc (live_count ns (set s.registry.heap a item')))
        | inr e ↦ rw e (v.counted ns ∙ ap pos (fewer ns ∙ rw e (omega arith)))
      ]

  retired-Inv : Inv (record s { shared = sh; registry = retired s a item' })
  retired-Inv = record {
    valid = All-set IsValid s.registry.heap a item' v.valid valid;
    named = All-set IsNamed s.registry.heap a item' v.named (
        IsNamed-same item item' same_namespace same_name
          (All-get_elem? IsNamed s.registry.heap a v.named found));
    registered = registered_after;
    entries = entries_after;
    counted = counted_after;
    bounded = λ ns. omega (arith, v.bounded ns, fewer ns);
  }

  -- A live record that is marked as deleted is removed from the map, and the invariant holds.
  pub retire-Inv :
      let removed = remove (store s sh a item').registry a item' in
      (removed.1 ≡ true) × Inv (record s { shared = sh; registry = removed.0 })
  unfolding remove
  retire-Inv =
      let found_here : same_address (lookup (lock_name item') s.registry.locks) a ≡ true =
        ground (arith, at_key) in
      rw (found_here, remove) (refl, retired-Inv)

same_address-some : (o : Option ℕ) (a : ℕ) → same_address o a ≡ true → o ≡ some a
same_address-some none a e = absurd (cc)
same_address-some (some b) a e = ground arith

-- A deleted record is not in the map, and removing it again changes nothing.
pub remove_gone :
    (s : Service) (a : ℕ) (item : Lock)
    → Inv s
    → get_elem? s.registry.heap a ≡ some item
    → item.deleted ≡ true
    → remove s.registry a item ≡ (s.registry, false)
unfolding remove
remove_gone s a item v found gone =
    elim (Bool-cases (same_address (lookup (lock_name item) s.registry.locks) a)) [
      | inr e ↦ rw (e, remove)
      | inl e ↦
          let at_key : lookup (lock_name item) s.registry.locks ≡ some a =
            same_address-some (lookup (lock_name item) s.registry.locks) a e in
          let (x, g, n, d) = v.entries (lock_name item) a at_key in
          let same : item ≡ x = some-injective _ _ (sym found ∙ g) in absurd (cc)
    ]
