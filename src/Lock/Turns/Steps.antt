-- ===== src/Lock/Turns/Steps.antt =====
-- Every run of the service moves each of its locks by the rules of Lock/Turns.antt.
use lockd.Prelude.{
  ℕ, zero, suc, ◌+◌, ◌-◌, ◌≤◌, ◌≡◌, sym, ◌∙◌, ap, subst, Option, some, List, [], ◌∷◌, text_eq,
  get_elem?, get_elem?-append_old, get_elem?-set_self, get_elem?-set_ne, set, arith, ◌⊎◌, inl, inr,
}
use native.Mathlib.Decide.{ℕ_discrete}
use mathlib.Core.Option.{some-injective}
use lockd.Lock.Types.{Lock}
use lockd.Lock.Shared.{Shared}
use lockd.Lock.Service.{Service}
use lockd.Lock.System.{Inv, Reach, here, next}
use lockd.Lock.System.Invariant.{Reach-Inv}
use lockd.Lock.Turns.{
  Turn, turn_of, Move, Moves, stays, after, Moves-trans, wastes, frees, takes, serves, seizes,
  joins, leaves, closes, Cause, Moves-more,
}
use lockd.Lock.Turns.Grants.{Follows, Moves-to}
use lockd.Lock.Turns.Changes.{Change, kept, grown, moved, Ends, Step-Changes}

module _ (rand : ℕ → Option (List ℕ)) (May : Cause → Type 0) where
  pub Move-draws : {t u : Turn} → Move rand May t u → t.draws ≤ u.draws
  Move-draws wastes = omega arith
  Move-draws (frees c m) = omega arith
  Move-draws (takes token idle alone e) = omega arith
  Move-draws (serves token a rest idle e n d) = omega arith
  Move-draws (seizes token m e) = omega arith
  Move-draws joins = omega arith
  Move-draws (leaves a n) = omega arith
  Move-draws (closes m) = omega arith

  -- Draws are counted up.
  pub Moves-draws : {t u : Turn} → Moves rand May t u → t.draws ≤ u.draws
  Moves-draws stays = omega arith
  Moves-draws (after m last) = omega (arith, Moves-draws m, Move-draws last)

  wasted : (n : ℕ) (t : Turn) → Moves rand May t (record t { draws = n + t.draws })
  wasted zero t = Moves-to rand May stays (ground arith)
  wasted (suc n) t = Moves-to rand May (after (wasted n t) wastes) (ground arith)

  -- A record that a section did not touch, while others drew.
  untouched : (s s' : Shared) (item : Lock) → s.draws ≤ s'.draws → Follows rand May s item s' item
  untouched s s' item le = Moves-to rand May (wasted (s'.draws - s.draws) (turn_of s item)) (
      let same : (s'.draws - s.draws) + s.draws ≡ s'.draws = omega (arith, le) in
      ground (arith, same))

module _ (rand : ℕ → Option (List ℕ)) (a : ℕ) where
  -- What became of the record at the address.
  abbrev pub MovedTo : (Cause → Type 0) → Shared → Lock → Shared → List Lock → Type 0
  MovedTo May s item s' heap =
      (item' : Lock) × (get_elem? heap a ≡ some item') × Follows rand May s item s' item'

  set-MovedTo :
      (May : ℕ → Cause → Type 0) (s s' : Shared) (heap : List Lock) (b : ℕ) (x y item : Lock)
      → get_elem? heap b ≡ some x
      → get_elem? heap a ≡ some item
      → Follows rand (May b) s x s' y
      → MovedTo (May a) s item s' (set heap b y)
  set-MovedTo May s s' heap b x y item e g m = elim (ℕ_discrete b a) [
    | no n ↦ (
      item,
      get_elem?-set_ne heap b a y n ∙ g,
      untouched rand (May a) s s' item (Moves-draws rand (May b) m),
    )
    | yes p ↦
        let same : x ≡ item = some-injective _ _ (sym e ∙ ap (get_elem? heap) p ∙ g) in
        (
          y,
          ap (get_elem? (set heap b y)) (sym p) ∙ get_elem?-set_self heap b y e,
          subst (λ z. Follows rand (May a) s z s' y) same
              (subst (λ n. Follows rand (May n) s x s' y) p m),
        )
  ]

  Change-MovedTo :
      {May : ℕ → Cause → Type 0} {s s' : Shared} {heap heap' : List Lock} (item : Lock)
      → Change rand May s heap s' heap'
      → get_elem? heap a ≡ some item
      → MovedTo (May a) s item s' heap'
  Change-MovedTo {May} {s} {s'} item (kept d) g =
      (item, g, untouched rand (May a) s s' item (omega (arith, d)))
  Change-MovedTo {May} {s} {s'} {heap} item (grown x n d) g = (
    item,
    get_elem?-append_old heap (x ∷ []) a g,
    untouched rand (May a) s s' item (omega (arith, d)),
  )
  Change-MovedTo {May} {s} {s'} {heap} item (moved b x y e m) g =
      set-MovedTo May s s' heap b x y item e g m

  -- The causes for which a step of the run can end the lease of the record at the address.
  abbrev pub EndsIn : {s t : Service} → Reach rand s t → Cause → Type 0
  EndsIn here c = ⊥
  EndsIn (next r last) c = EndsIn r c ⊎ Ends rand last a c

  pub reach_refines :
      {s t : Service} (item : Lock)
      → Inv s
      → (r : Reach rand s t) → get_elem? s.registry.heap a ≡ some item
      → MovedTo (EndsIn r) s.shared item t.shared t.registry.heap
  reach_refines item v here g = (item, g, stays)
  reach_refines item v (next r last) g =
      let (x, g', m) = reach_refines item v r g in
      let (y, g2, n) = Change-MovedTo x (Step-Changes rand last (Reach-Inv rand v r)) g' in
      (
        y,
        g2,
        Moves-trans rand (EndsIn (next r last)) (Moves-more rand (λ c h. inl h) m)
            (Moves-more rand (λ c h. inr h) n),
      )
