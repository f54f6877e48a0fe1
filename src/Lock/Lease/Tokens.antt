-- ===== src/Lock/Lease/Tokens.antt =====
-- `newToken` of internal/lock/lease.go: other bytes give another token.
use lockd.Prelude.{
  ℕ, ◌<◌, ◌/◌, ◌%◌, ◌≡◌, refl, ap, sym, Option, some, none, List, [], ◌∷◌, Text, text, All, arith,
}
use mathlib.Core.Path.{ap₂}
use lockd.Lock.Lease.{hex_digit, hex_encode, new_token}

abbrev pub Bytes : List ℕ → Type 0
Bytes bs = All (λ b. b < 256) bs

hex_digit-injective : (m n : ℕ) → m < 16 → n < 16 → hex_digit m ≡ hex_digit n → m ≡ n
hex_digit-injective m n hm hn e = ground arith

byte_parts : (b c : ℕ) → b / 16 ≡ c / 16 → b % 16 ≡ c % 16 → b ≡ c
byte_parts b c d m = omega (arith, d, m)

hex_encode-injective :
    (bs cs : List ℕ) → Bytes bs → Bytes cs → hex_encode bs ≡ hex_encode cs → bs ≡ cs
unfolding hex_encode
hex_encode-injective [] [] hb hc e = refl
hex_encode-injective [] (c ∷ cs) hb hc e = absurd (cc)
hex_encode-injective (b ∷ bs) [] hb hc e = absurd (cc)
hex_encode-injective (b ∷ bs) (c ∷ cs) hb hc e =
    let high : hex_digit (b / 16) ≡ hex_digit (c / 16) = ground arith in
    let low : hex_digit (b % 16) ≡ hex_digit (c % 16) = ground arith in
    let rest : hex_encode bs ≡ hex_encode cs = ground arith in
    ap₂ (λ x xs. x ∷ xs)
      (byte_parts b c
        (hex_digit-injective (b / 16) (c / 16) (omega (arith, hb.0)) (omega (arith, hc.0)) high)
        (hex_digit-injective (b % 16) (c % 16) (omega arith) (omega arith) low))
      (hex_encode-injective bs cs hb.1 hc.1 rest)

pub new_token-injective :
    (o p : Option (List ℕ)) {token : Text}
    → ((b : List ℕ) → o ≡ some b → Bytes b)
    → ((b : List ℕ) → p ≡ some b → Bytes b)
    → new_token o ≡ some token
    → new_token p ≡ some token
    → (b : List ℕ) × (o ≡ some b) × (p ≡ some b)
unfolding new_token text
new_token-injective none p ho hp e f = absurd (cc)
new_token-injective (some b) none ho hp e f = absurd (cc)
new_token-injective (some b) (some c) ho hp e f =
    let same : hex_encode b ≡ hex_encode c = ground arith in
    (b, refl, ap some (sym (hex_encode-injective b c (ho b refl) (hp c refl) same)))
