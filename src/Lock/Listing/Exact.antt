-- ===== src/Lock/Listing/Exact.antt =====
-- The views that `List` of internal/lock/registry.go returns.
use lockd.Prelude.{
  ℕ, ◌≡◌, ◌↔◌, ◌⊎◌, inl, inr, refl, sym, subst, ◌==◌, true, false, some, List, [], ◌∷◌, Text,
  text_eq, nat_eq, Bool-cases, Option-cases, arith, get_elem?, lookup,
}
use mathlib.Core.Option.{some-injective}
use lockd.Lock.Types.{Time, Lock, lock_name}
use lockd.Lock.Registry.{View, snapshot}
use lockd.Lock.Service.{Service}
use lockd.Lock.System.{Inv}
use lockd.Lock.Listing.{text_ltb, insert_view, sort_views, is_listed, collect, list}

abbrev pub IsMember : View → List View → Type 0
IsMember x [] = ⊥
IsMember x (y ∷ ys) = (x ≡ y) ⊎ IsMember x ys

-- No name is followed by a smaller one.
abbrev pub IsOrdered : List View → Type 0
IsOrdered [] = Unit {0}
IsOrdered (v ∷ []) = Unit {0}
IsOrdered (v ∷ w ∷ views) = (text_ltb w.full_name v.full_name ≡ false) × IsOrdered (w ∷ views)

pub text_ltb_asym : (s t : Text) → text_ltb s t ≡ true → text_ltb t s ≡ false
unfolding text_ltb
text_ltb_asym [] [] h = refl
text_ltb_asym [] (d ∷ t) h = refl
text_ltb_asym (c ∷ s) [] h = cc
text_ltb_asym (c ∷ s) (d ∷ t) h = ground (arith, text_ltb_asym s t)

insert_view-IsOrdered :
    (v : View) (views : List View) → IsOrdered views → IsOrdered (insert_view v views)
unfolding insert_view
insert_view-IsOrdered v [] h = tt
insert_view-IsOrdered v (w ∷ []) h = ground (arith, text_ltb_asym w.full_name v.full_name)
insert_view-IsOrdered v (w ∷ x ∷ views) h =
    ground (arith, insert_view-IsOrdered v (x ∷ views), text_ltb_asym w.full_name v.full_name)

sort_views-IsOrdered : (views : List View) → IsOrdered (sort_views views)
unfolding sort_views
sort_views-IsOrdered [] = tt
sort_views-IsOrdered (v ∷ views) =
    insert_view-IsOrdered v (sort_views views) (sort_views-IsOrdered views)

insert_view-IsMember :
    (x v : View) (views : List View) → IsMember x (insert_view v views) ↔ IsMember x (v ∷ views)
unfolding insert_view
insert_view-IsMember x v [] = (λ m. m, λ m. m)
insert_view-IsMember x v (w ∷ views) =
    let (down, up) = insert_view-IsMember x v views in
    elim (Bool-cases (text_ltb w.full_name v.full_name)) [
      | inr before ↦ rw before (λ m. m, λ m. m)
      | inl after ↦ rw after (
        λ m. elim m [
          | inl e ↦ inr (inl e)
          | inr n ↦ elim (down n) [ inl e ↦ inl e | inr k ↦ inr (inr k) ]
        ],
        λ m. elim m [
          | inl e ↦ inr (up (inl e))
          | inr n ↦ elim n [ inl e ↦ inl e | inr k ↦ inr (up (inr k)) ]
        ],
      )
    ]

sort_views-IsMember :
    (x : View) (views : List View) → IsMember x (sort_views views) ↔ IsMember x views
unfolding sort_views
sort_views-IsMember x [] = (λ m. m, λ m. m)
sort_views-IsMember x (v ∷ views) =
    let (down, up) = insert_view-IsMember x v (sort_views views) in
    let (down', up') = sort_views-IsMember x views in
    (
      λ m. elim (down m) [ inl e ↦ inl e | inr n ↦ inr (down' n) ],
      λ m. up (elim m [ inl e ↦ inl e | inr n ↦ inr (up' n) ]),
    )

-- A record that matches, and its view.
abbrev pub ShownAs : View → List Lock → Text → Text → Time → Type 0
ShownAs v heap namespace state now =
    (a : ℕ) × (item : Lock) × (get_elem? heap a ≡ some item)
    × (is_listed namespace state now item ≡ true)
    × (v ≡ snapshot item now)

module _ (heap : List Lock) (namespace state : Text) (now : Time) where
  collect_sound :
      (v : View) (entries : List (Text × ℕ))
      → IsMember v (collect heap namespace state now entries)
      → ShownAs v heap namespace state now
  unfolding collect
  collect_sound v [] m = absurd m
  collect_sound v ((key, a) ∷ entries) m = elim (Option-cases (get_elem? heap a)) [
    | inl e ↦ collect_sound v entries (rw e at m)
    | inr (item, e) ↦ elim (Bool-cases (is_listed namespace state now item)) [
      | inr hidden ↦ collect_sound v entries (rw hidden at (rw e at m))
      | inl shown ↦ elim (rw shown at (rw e at m)) as (λ _. ShownAs v heap namespace state now) [
        | inl same ↦ (a, item, e, shown, same)
        | inr n ↦ collect_sound v entries n
      ]
    ]
  ]

  collect_complete :
      (a : ℕ) (item : Lock) (key : Text) (entries : List (Text × ℕ))
      → lookup key entries ≡ some a
      → get_elem? heap a ≡ some item
      → is_listed namespace state now item ≡ true
      → IsMember (snapshot item now) (collect heap namespace state now entries)
  unfolding collect lookup
  collect_complete a item key [] found e shown = absurd (cc)
  collect_complete a item key ((k, b) ∷ entries) found e shown = elim (Bool-cases (k == key)) [
    | inl same ↦
        let at_b : b ≡ a = some-injective _ _ (rw same at found) in
        rw at_b (rw e (rw shown (inl refl)))
    | inr differ ↦
        let rest = collect_complete a item key entries (rw differ at found) e shown in
        elim (Option-cases (get_elem? heap b)) [
          | inl g ↦ rw g rest
          | inr (x, g) ↦ elim (Bool-cases (is_listed namespace state now x)) [
            | inr hidden ↦ rw g (rw hidden rest)
            | inl other ↦ rw g (rw other (inr rest))
          ]
        ]
  ]

-- In a service that satisfies the invariant, List gives its views in the order of their full
-- names, and they are exactly the views of the records that are not deleted and that match the
-- namespace and the state asked for.
pub list_exact :
    (s : Service) (namespace state : Text) (now : Time) (v : View)
    → Inv s
    → IsOrdered (list s.registry namespace state now)
      × (IsMember v (list s.registry namespace state now)
          ↔ ShownAs v s.registry.heap namespace state now)
unfolding list
list_exact s namespace state now v inv =
    let r = s.registry in
    let views = collect r.heap namespace state now r.locks in
    let (down, up) = sort_views-IsMember v views in
    (
      sort_views-IsOrdered views,
      (
        λ m. collect_sound r.heap namespace state now v r.locks (down m),
        λ h.
            let live : h.1.deleted ≡ false = ground (arith, h.3) in
            let found = inv.registered h.0 h.1 h.2 live in
            up (
              subst (λ x. IsMember x views) (sym h.4)
                (collect_complete r.heap namespace state now h.0 h.1 (lock_name h.1) r.locks found
                  h.2 h.3)),
      ),
    )
