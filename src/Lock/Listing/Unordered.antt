-- ===== src/Lock/Listing/Unordered.antt =====
-- `List` of internal/lock/registry.go does not depend on the order in which Go visits the map: the
-- map is the list of its entries up to their order, a quotient.
use lockd.Prelude.{
  ℕ, ◌≡◌, ◌≢◌, ◌⊎◌, refl, sym, ap, true, false, List, [], ◌∷◌, Text, text_eq, nat_eq, arith,
  Bool-cases, inl, inr, Option, some, none, get_elem?, length, text,
}
use mathlib.Core.Quot
use mathlib.Core.Quot.{Quot}
use lockd.Lock.Types.{Time, Lock, lock_name}
use lockd.Lock.Registry.{Registry, View, snapshot}
use lockd.Lock.Listing.Exact.{text_ltb_asym}
use lockd.Lock.Listing.{
  text_ltb, insert_view, sort_views, is_listed, add_view, collect, list, stats, waiting_sum,
  by_namespace,
}

View-set : IsSet View
View-set = hlevel

views_set : IsSet (List View)
views_set = hlevel

-- The order of the names is total and transitive.
text_ltb_total : (s t : Text) → s ≢ t → text_ltb s t ≡ false → text_ltb t s ≡ true
unfolding text_ltb
text_ltb_total [] [] n h = absurd (n refl)
text_ltb_total [] (d ∷ t) n h = cc
text_ltb_total (c ∷ s) [] n h = refl
text_ltb_total (c ∷ s) (d ∷ t) n h = ground (arith, text_ltb_total s t)

text_ltb_trans : (z w v : Text) → text_ltb z v ≡ true → text_ltb z w ≡ false → text_ltb w v ≡ true
unfolding text_ltb
text_ltb_trans [] [] v h g = h
text_ltb_trans [] (d ∷ w) v h g = cc
text_ltb_trans (c ∷ z) w [] h g = absurd (cc)
text_ltb_trans (c ∷ z) [] (e ∷ v) h g = refl
text_ltb_trans (c ∷ z) (d ∷ w) (e ∷ v) h g = ground (arith, text_ltb_trans z w v)

-- One of two different names is the smaller.
either_first :
    (s t : Text)
    → s ≢ t
    → ((text_ltb s t ≡ true) × (text_ltb t s ≡ false))
      ⊎ ((text_ltb s t ≡ false) × (text_ltb t s ≡ true))
either_first s t n = elim (Bool-cases (text_ltb s t)) [
  | inl first ↦ inl (first, text_ltb_asym s t first)
  | inr later ↦ inr (later, text_ltb_total s t n later)
]

-- Two views with different names may be inserted in either order.
insert_view_comm :
    (v w : View) (views : List View)
    → v.full_name ≢ w.full_name
    → insert_view v (insert_view w views) ≡ insert_view w (insert_view v views)
unfolding insert_view
insert_view_comm v w [] n = elim (either_first v.full_name w.full_name n) [
  | inl (before, not_after) ↦ simp (before, not_after) refl
  | inr (not_before, after) ↦ simp (not_before, after) refl
]
insert_view_comm v w (z ∷ views) n =
    let past_v = text_ltb_trans z.full_name w.full_name v.full_name in
    let past_w = text_ltb_trans z.full_name v.full_name w.full_name in
    ground
      (arith, either_first v.full_name w.full_name n, past_v, past_w, insert_view_comm v w views n)

-- Two addresses at which no two records have one name.
abbrev pub Apart : List Lock → ℕ → ℕ → Type 0
Apart heap a b =
    (x y : Lock) → get_elem? heap a ≡ some x → get_elem? heap b ≡ some y → lock_name x ≢ lock_name y

-- Two neighbours of a map change places.
pub data Swap (heap : List Lock) : List (Text × ℕ) → List (Text × ℕ) → Type 0 where
  swaps :
      (k l : Text) (a b : ℕ) (m : List (Text × ℕ))
      → Apart heap a b
      → Swap heap ((k, a) ∷ (l, b) ∷ m) ((l, b) ∷ (k, a) ∷ m)
  behind : (e : Text × ℕ) {m m' : List (Text × ℕ)} → Swap heap m m' → Swap heap (e ∷ m) (e ∷ m')

-- A map, without the order in which it is visited.
abbrev pub GoMap : List Lock → Type 0
GoMap heap = Quot (Swap heap)

abbrev pub unordered : (heap : List Lock) → List (Text × ℕ) → GoMap heap
unordered heap m = Quot.mk m

module _ (heap : List Lock) (namespace state : Text) (now : Time) where
  -- Views that are added to views that sort alike.
  add_view_alike :
      (o : Option Lock) (views views' : List View)
      → sort_views views ≡ sort_views views'
      → sort_views (add_view namespace state now o views)
        ≡ sort_views (add_view namespace state now o views')
  unfolding sort_views
  add_view_alike none views views' e = e
  add_view_alike (some x) views views' e = elim (Bool-cases (is_listed namespace state now x)) [
    | inl shown ↦ rw shown (ap (insert_view (snapshot x now)) e)
    | inr hidden ↦ rw hidden e
  ]

  add_view_comm :
      (o p : Option Lock) (views : List View)
      → ((x y : Lock) → o ≡ some x → p ≡ some y → lock_name x ≢ lock_name y)
      → sort_views (add_view namespace state now o (add_view namespace state now p views))
        ≡ sort_views (add_view namespace state now p (add_view namespace state now o views))
  unfolding sort_views
  add_view_comm none p views n = refl
  add_view_comm (some x) none views n = refl
  add_view_comm (some x) (some y) views n =
      let names : (snapshot x now).full_name ≢ (snapshot y now).full_name =
        unfold snapshot in n x y refl refl in
      let comm = insert_view_comm (snapshot x now) (snapshot y now) (sort_views views) names in
      elim (Bool-cases (is_listed namespace state now x)) [
        | inr hidden ↦ elim (Bool-cases (is_listed namespace state now y)) [
          | inr hidden' ↦ rw (hidden, hidden') refl
          | inl shown' ↦ rw (hidden, shown') refl
        ]
        | inl shown ↦ elim (Bool-cases (is_listed namespace state now y)) [
          | inr hidden' ↦ rw (shown, hidden') refl
          | inl shown' ↦ rw (shown, shown') comm
        ]
      ]

  collect-Swap :
      {m m' : List (Text × ℕ)}
      → Swap heap m m'
      → sort_views (collect heap namespace state now m)
        ≡ sort_views (collect heap namespace state now m')
  unfolding collect
  collect-Swap (swaps k l a b m apart) =
      add_view_comm (get_elem? heap a) (get_elem? heap b) (collect heap namespace state now m) apart
  collect-Swap (behind (k, a) {m} {m'} s) =
      add_view_alike (get_elem? heap a) (collect heap namespace state now m)
        (collect heap namespace state now m') (collect-Swap s)

  -- The sorted views of a map without order.
  views_of : GoMap heap → List View
  views_of =
      Quot.lift views_set (λ m. sort_views (collect heap namespace state now m))
        (λ m m' s. collect-Swap s)

-- List and Stats do not depend on the order in which Go visits the map of the registry: for any
-- entries that are the same map, up to neighbours that change places where no two records at their
-- addresses have one name, both give the same answer as for the entries of the registry.
pub list_any_order :
    (r : Registry) (m : List (Text × ℕ)) (namespace state : Text) (now : Time)
    → unordered r.heap r.locks ≡ unordered r.heap m
    → (list (record r { locks = m }) namespace state now ≡ list r namespace state now)
      × (stats (record r { locks = m }) now ≡ stats r now)
unfolding list stats views_of
list_any_order r m namespace state now e =
    let same = sym (ap (views_of r.heap namespace state now) e) in
    let all = sym (ap (views_of r.heap [] (text "all") now) e) in
    (same, ap (λ vs. (length vs, waiting_sum vs, by_namespace [] vs)) all)
