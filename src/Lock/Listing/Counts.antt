-- ===== src/Lock/Listing/Counts.antt =====
-- `Stats` of internal/lock/registry.go beside `List`.
use lockd.Prelude.{
  ℕ, suc, ◌+◌, ◌≡◌, ◌≢◌, refl, Option-cases, List, [], ◌∷◌, Text, text, text_eq, text_beq_iff,
  text_beq_refl, ◌==◌, if◌then◌else◌, length, get_elem?, lookup, lookup-insert, insert, arith, inl,
  inr,
}
use lockd.Lock.Types.{Time, Lock}
use lockd.Lock.Registry.{Registry, View, snapshot}
use lockd.Lock.Listing.{insert_view, sort_views, collect, list, number_at, by_namespace, stats}

-- The views of a namespace.
abbrev count_in : Text → List View → ℕ
count_in ns [] = 0
count_in ns (v ∷ views) = (if v.namespace == ns then 1 else 0) + count_in ns views

number_at-by_namespace :
    (ns : Text) (m : List (Text × ℕ)) (views : List View)
    → number_at ns (by_namespace m views) ≡ number_at ns m + count_in ns views
unfolding by_namespace number_at
number_at-by_namespace ns m [] = omega arith
number_at-by_namespace ns m (v ∷ views) =
    let m' = insert v.namespace (number_at v.namespace m + 1) m in
    ground (
      arith,
      number_at-by_namespace ns m' views,
      lookup-insert v.namespace ns (number_at v.namespace m + 1) m,
      text_beq_iff v.namespace ns,
    )

insert_view-count :
    (ns : Text) (v : View) (views : List View)
    → (count_in ns (insert_view v views) ≡ count_in ns (v ∷ views))
      × (length (insert_view v views) ≡ suc (length views))
unfolding insert_view
insert_view-count ns v [] = (refl, refl)
insert_view-count ns v (w ∷ views) = ground (arith, insert_view-count ns v views)

sort_views-count :
    (ns : Text) (views : List View)
    → (count_in ns (sort_views views) ≡ count_in ns views)
      × (length (sort_views views) ≡ length views)
unfolding sort_views
sort_views-count ns [] = (refl, refl)
sort_views-count ns (v ∷ views) =
    omega (arith, insert_view-count ns v (sort_views views), sort_views-count ns views)

-- The namespace is not empty, for which `List` would not filter.
collect-count :
    (heap : List Lock) (ns : Text) (now : Time) (entries : List (Text × ℕ))
    → ns ≢ []
    → count_in ns (collect heap [] (text "all") now entries)
      ≡ length (collect heap ns (text "all") now entries)
unfolding collect snapshot
collect-count heap ns now [] h = refl
collect-count heap ns now ((key, a) ∷ entries) h = elim (Option-cases (get_elem? heap a)) [
  | inl e ↦ rw e (collect-count heap ns now entries h)
  | inr (item, e) ↦
      rw e (ground (arith, h, text_beq_refl (text "all"), collect-count heap ns now entries))
]

-- Stats agrees with List: its number for a namespace that is not the empty text is the length of
-- the list for that namespace and any state, and 0 where that list is empty.
stats_agree :
    (r : Registry) (ns : Text) (now : Time)
    → ns ≢ []
    → number_at ns (stats r now).2 ≡ length (list r ns (text "all") now)
unfolding stats list
stats_agree r ns now h =
    let every = collect r.heap [] (text "all") now r.locks in
    let same = collect r.heap ns (text "all") now r.locks in
    let none_yet : number_at ns [] ≡ 0 = unfold number_at lookup in refl in
    omega (
      arith,
      none_yet,
      number_at-by_namespace ns [] (sort_views every),
      (sort_views-count ns every).0,
      collect-count r.heap ns now r.locks h,
      (sort_views-count ns same).1,
    )
