-- ===== src/Lock/Turns/Flags.antt =====
-- Which writes to the store of waiters leave it as it was who of them was served.
use lockd.Prelude.{
  ℕ, zero, suc, ◌≡◌, refl, ap, ◌∙◌, sym, List, [], ◌∷◌, ◌++◌, some, none, get_elem?, set, Option,
  Option-cases, inl, inr, arith, length,
}
use mathlib.Core.Option.{some-injective}
use lockd.Lock.Errors.{Error, err}
use lockd.Lock.Types.{Waiter, send, cancel}
use lockd.Lock.Queue.{cancel_all, cancel_item}
use lockd.Lock.Turns.{granted_flags}

pub length-granted_flags : (ws : List Waiter) → length (granted_flags ws) ≡ length ws
length-granted_flags [] = refl
length-granted_flags (w ∷ ws) = ap suc (length-granted_flags ws)

pub granted_flags-append :
    (ws vs : List Waiter) → granted_flags (ws ++ vs) ≡ granted_flags ws ++ granted_flags vs
granted_flags-append [] vs = refl
granted_flags-append (w ∷ ws) vs = ap (λ f. w.granted ∷ f) (granted_flags-append ws vs)

pub granted_flags-set :
    (ws : List Waiter) (a : ℕ) (w : Waiter)
    → granted_flags (set ws a w) ≡ set (granted_flags ws) a w.granted
unfolding set
granted_flags-set [] a w = refl
granted_flags-set (x ∷ ws) zero w = refl
granted_flags-set (x ∷ ws) (suc a) w = ap (λ f. x.granted ∷ f) (granted_flags-set ws a w)

-- A write that grants nothing.
pub granted_flags-set_same :
    (ws : List Waiter) (a : ℕ) (w v : Waiter)
    → get_elem? ws a ≡ some w
    → v.granted ≡ w.granted
    → granted_flags (set ws a v) ≡ granted_flags ws
unfolding set get_elem?
granted_flags-set_same [] a w v g e = refl
granted_flags-set_same (x ∷ ws) zero w v g e =
    ap (λ b. b ∷ granted_flags ws) (e ∙ ap (λ y. y.granted) (some-injective _ _ (sym g)))
granted_flags-set_same (x ∷ ws) (suc a) w v g e =
    ap (λ f. x.granted ∷ f) (granted_flags-set_same ws a w v g e)

cancel_item-flags :
    (e : Error) (ws : List Waiter) (a : ℕ)
    → granted_flags (cancel_item e ws a (get_elem? ws a)) ≡ granted_flags ws
cancel_item-flags e ws a = elim (Option-cases (get_elem? ws a)) [
  | inl g ↦ rw g refl
  | inr (w, g) ↦ ground (
    arith,
    granted_flags-set_same ws a w (send (cancel w) (err e)) g (unfold send cancel in refl),
  )
]

pub cancel_all-flags :
    (e : Error) (ws : List Waiter) (items : List ℕ)
    → granted_flags (cancel_all e ws items) ≡ granted_flags ws
unfolding cancel_all
cancel_all-flags e ws [] = refl
cancel_all-flags e ws (a ∷ items) =
    cancel_all-flags e (cancel_item e ws a (get_elem? ws a)) items ∙ cancel_item-flags e ws a

pub granted_flags-some :
    (ws : List Waiter) (i : ℕ) {w : Waiter}
    → get_elem? ws i ≡ some w
    → get_elem? (granted_flags ws) i ≡ some w.granted
unfolding get_elem?
granted_flags-some [] i g = absurd (cc)
granted_flags-some (x ∷ ws) zero g =
    ap (λ (o : Option Waiter). elim o [ none ↦ none | some v ↦ some v.granted ]) g
granted_flags-some (x ∷ ws) (suc i) g = granted_flags-some ws i g

pub granted_flags-none :
    (ws : List Waiter) (i : ℕ) → get_elem? ws i ≡ none → get_elem? (granted_flags ws) i ≡ none
unfolding get_elem?
granted_flags-none [] i g = refl
granted_flags-none (x ∷ ws) zero g = absurd (cc)
granted_flags-none (x ∷ ws) (suc i) g = granted_flags-none ws i g
