-- ===== src/Client/Renewer.antt =====
-- internal/client/renewer.go: the goroutine of `StartRenewer`. The random factor of its waits is
-- left out: a wait is the choice of the `select`, `true` when the timer fires and `false` when the
-- context is done.
use lockd.Prelude.{
  ℕ, ◌+◌, ◌/◌, ◌≡◌, refl, Bool, true, false, Option, some, none, List, [], ◌∷◌, pos, negsuc,
  if◌then◌else◌, leb, arith, Option-cases, inl, inr,
}
use lockd.Lock.Types.{Duration}
use lockd.Client.Types.{Failure, Net, Client}
use lockd.Client.Calls.{renew, nil_lease}

-- `base`: a third of the term, and a tenth of a second at least.
unfoldable pub renewer_base : Duration → Duration
renewer_base (pos n) = if leb 100_000_000 (n / 3) then pos (n / 3) else pos 100_000_000
renewer_base (negsuc n) = pos 100_000_000

-- Where the loop stands: it waits with this number of failures in a row, it was cancelled, or it
-- has given up and called `onLost` with the error.
pub data RenewerState : Type 0 where
  waiting : ℕ → RenewerState
  cancelled : RenewerState
  given_up : Failure → RenewerState

module _ (net : Net) where
  unfoldable pub run_renewer : Client → ℕ → ℕ → List Bool → Client × RenewerState
  run_renewer c a failures [] = (c, waiting failures)
  run_renewer c a failures (false ∷ waits) = (c, cancelled)
  run_renewer c a failures (true ∷ waits) =
      let r = renew net c a in
      elim r.1 [
        | none ↦ run_renewer r.0 a 0 waits
        | some e ↦ elim (leb 3 (failures + 1)) [
          | true ↦ (r.0, given_up e)
          | false ↦ run_renewer r.0 a (failures + 1) waits
        ]
      ]

  -- What the renewals give, one after another, until the context is done.
  unfoldable pub renewals : Client → ℕ → List Bool → List (Option Failure)
  renewals c a [] = []
  renewals c a (false ∷ waits) = []
  renewals c a (true ∷ waits) = let r = renew net c a in r.1 ∷ renewals r.0 a waits

abbrev pub lost_with : RenewerState → Option Failure
lost_with (waiting n) = none
lost_with cancelled = none
lost_with (given_up e) = some e

abbrev after_two : List (Option Failure) → Option Failure
after_two (some a ∷ some b ∷ rest) = some b
after_two (some a ∷ none ∷ rest) = none
after_two (some a ∷ []) = none
after_two (none ∷ rest) = none
after_two [] = none

-- The last of the first three failures in a row.
abbrev pub third_failure : List (Option Failure) → Option Failure
third_failure [] = none
third_failure (none ∷ rest) = third_failure rest
third_failure (some a ∷ rest) = elim (after_two rest) [
  | some e ↦ some e
  | none ↦ third_failure rest
]

module _ (net : Net) where
  run_renewer_lost :
      (waits : List Bool) (c : Client) (a : ℕ) (x y : Failure)
      → let rest = renewals net c a waits in
        (lost_with (run_renewer net c a 0 waits).1 ≡ third_failure rest)
        × (lost_with (run_renewer net c a 1 waits).1 ≡ third_failure (some x ∷ rest))
        × (lost_with (run_renewer net c a 2 waits).1 ≡ third_failure (some x ∷ some y ∷ rest))
  unfolding run_renewer renewals
  run_renewer_lost [] c a x y = (refl, refl, refl)
  run_renewer_lost (false ∷ waits) c a x y = (refl, refl, refl)
  run_renewer_lost (true ∷ waits) c a x y =
      let r = renew net c a in
      elim (Option-cases r.1) [
        | inl e ↦
            let h = run_renewer_lost waits r.0 a x y in
            (ground (arith, h.0), ground (arith, h.0), ground (arith, h.0))
        | inr (f, e) ↦
            let h = run_renewer_lost waits r.0 a f y in
            let k = run_renewer_lost waits r.0 a x f in
            (ground (arith, h.1), ground (arith, k.2), ground arith)
      ]

  -- The renewer gives a lease up exactly if three renewals in a row fail while the context lasts,
  -- and hands the error of the third to onLost.
  pub renewer_gives_up :
      (waits : List Bool) (c : Client) (a : ℕ)
      → lost_with (run_renewer net c a 0 waits).1 ≡ third_failure (renewals net c a waits)
  renewer_gives_up waits c a = (run_renewer_lost waits c a nil_lease nil_lease).0
