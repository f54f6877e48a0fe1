-- ===== src/Metrics/Digits.antt =====
-- The digits of a number.
use lockd.Prelude.{
  ℕ, zero, suc, ◌+◌, ◌-◌, ◌*◌, ◌/◌, ◌%◌, ◌^◌, ◌<◌, ◌≡◌, refl, ap, ◌∙◌, true, false, ◌&&◌,
  Bool-cases, inl, inr, some, [], ◌∷◌, Text, nat_eq, ltb, leb, contains, arith,
}
use native.Mathlib.Numerals.{unary_clauses}
use lockd.Strings.{digits}
use lockd.Metrics.Page.{decimal_from, decimal}

pow_suc : (f : ℕ) → 10 ^ suc f ≡ 10 ^ f * 10
pow_suc f = simp unary_clauses refl

digits-digit : (m d : ℕ) (s : Text) → d < 10 → digits m ((48 + d) ∷ s) ≡ digits (m * 10 + d) s
unfolding digits
digits-digit m d s h =
    let shown : (leb 48 (48 + d) && leb (48 + d) 57) ≡ true = ground arith in
    let value : 48 + d - 48 ≡ d = omega arith in rw (shown, value) refl

-- The digits that are written are read as the number.
digits-decimal_from :
    (fuel n : ℕ) (written : Text)
    → n < 10 ^ fuel
    → digits 0 (decimal_from fuel n written) ≡ digits n written
unfolding decimal_from
digits-decimal_from zero n written h = ap (λ k. digits k written) (omega arith)
digits-decimal_from (suc fuel) n written h = elim (Bool-cases (ltb n 10)) [
  | inl small ↦
      let same : 0 * 10 + n % 10 ≡ n = ground arith in
      rw small (digits-digit 0 (n % 10) written (omega arith) ∙ ap (λ k. digits k written) same)
  | inr large ↦
      let less : n / 10 < 10 ^ fuel = omega (arith, pow_suc fuel) in
      let same : n / 10 * 10 + n % 10 ≡ n = omega arith in
      rw large (
        digits-decimal_from fuel (n / 10) ((48 + n % 10) ∷ written) less
        ∙ digits-digit (n / 10) (n % 10) written (omega arith)
        ∙ ap (λ k. digits k written) same)
]

pub digits-decimal : (n : ℕ) → n < 10 ^ 20 → digits 0 (decimal n) ≡ some n
digits-decimal n h = digits-decimal_from 20 n [] h ∙ unfold digits in refl

-- A number holds no newline.
contains-decimal_from :
    (fuel n : ℕ) (written : Text)
    → contains 10 written ≡ false
    → contains 10 (decimal_from fuel n written) ≡ false
unfolding decimal_from contains
contains-decimal_from zero n written h = h
contains-decimal_from (suc fuel) n written h = elim (Bool-cases (ltb n 10)) [
  | inl small ↦ rw small (ground arith)
  | inr large ↦
      rw large (contains-decimal_from fuel (n / 10) ((48 + n % 10) ∷ written) (ground arith))
]

pub contains-decimal : (n : ℕ) → contains 10 (decimal n) ≡ false
contains-decimal n = contains-decimal_from 20 n [] (unfold contains in refl)
