-- ===== src/Lock/Listing.antt =====
-- internal/lock/registry.go: `List` and `Stats`. The look at the map and those at the records are
-- taken as one moment; Go visits the map in any order.
pub mod Exact
pub mod Unordered
pub mod Counts
use lockd.Prelude.{
  ℕ, suc, ◌+◌, Bool, true, false, ◌&&◌, ◌||◌, not, Option, some, none, List, [], ◌∷◌, Text, text,
  text_eq, nat_eq, is_empty, ltb, ◌==◌, if◌then◌else◌, length, get_elem?, lookup, insert,
}
use lockd.Lock.Types.{Time, Lock}
use lockd.Lock.Registry.{Registry, View, snapshot}

-- `<` on strings.
unfoldable pub text_ltb : Text → Text → Bool
text_ltb [] [] = false
text_ltb [] (d ∷ t) = true
text_ltb (c ∷ s) [] = false
text_ltb (c ∷ s) (d ∷ t) = let rest = text_ltb s t in if c == d then rest else ltb c d

unfoldable pub insert_view : View → List View → List View
insert_view v [] = v ∷ []
insert_view v (w ∷ views) =
    let rest = insert_view v views in
    if text_ltb w.full_name v.full_name then w ∷ rest else v ∷ w ∷ views

-- `sort.Slice` by the full names.
unfoldable pub sort_views : List View → List View
unfolding insert_view text_ltb
sort_views [] = []
sort_views (v ∷ views) = insert_view v (sort_views views)

-- The two tests of `List`.
abbrev pub in_namespace : Text → Lock → Bool
in_namespace namespace item = is_empty namespace || item.namespace == namespace

abbrev pub in_state : Text → View → Bool
in_state state view = is_empty state || state == text "all" || view.state == state

abbrev pub is_listed : Text → Text → Time → Lock → Bool
is_listed namespace state now item =
    in_namespace namespace item && not item.deleted && in_state state (snapshot item now)

abbrev add_view : Text → Text → Time → Option Lock → List View → List View
add_view namespace state now none views = views
add_view namespace state now (some item) views =
    if is_listed namespace state now item then snapshot item now ∷ views else views

-- The views before they are sorted.
unfoldable pub collect : List Lock → Text → Text → Time → List (Text × ℕ) → List View
unfolding snapshot
collect heap namespace state now [] = []
collect heap namespace state now ((key, a) ∷ entries) =
    add_view namespace state now (get_elem? heap a) (collect heap namespace state now entries)

-- `List`.
unfoldable pub list : Registry → Text → Text → Time → List View
unfolding sort_views collect
list r namespace state now = sort_views (collect r.heap namespace state now r.locks)

unfoldable pub number_at : Text → List (Text × ℕ) → ℕ
number_at key m = elim (lookup key m) [ none ↦ 0 | some n ↦ n ]

-- The two sums of the loop of `Stats`.
unfoldable pub waiting_sum : List View → ℕ
waiting_sum [] = 0
waiting_sum (v ∷ views) = v.queue_length + waiting_sum views

unfoldable pub by_namespace : List (Text × ℕ) → List View → List (Text × ℕ)
unfolding number_at
by_namespace m [] = m
by_namespace m (v ∷ views) = by_namespace (insert v.namespace (number_at v.namespace m + 1) m) views

-- `Stats`.
unfoldable pub stats : Registry → Time → ℕ × ℕ × List (Text × ℕ)
unfolding waiting_sum by_namespace
stats r now =
    let views = list r [] (text "all") now in
    (length views, waiting_sum views, by_namespace [] views)
