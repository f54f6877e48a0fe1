-- ===== src/Strings/Trims.antt =====
-- Laws of trimming, and of splitting what was joined.
use lockd.Prelude.{
  ℕ, ◌≡◌, inl, inr, refl, ap, ◌∙◌, false, Bool-cases, List, [], ◌∷◌, ◌++◌, Text, nat_eq, is_empty,
  ◌==◌, contains, All, arith,
}
use lockd.Strings.{split, join, trim_space, trim_left, trim_right, is_space, is_blank, add_char}
use lockd.Strings.Paths.{split-part, split-append}

-- The first byte, if there is one, is no space.
abbrev Starts : Text → Type 0
Starts [] = Unit
Starts (c ∷ s) = is_space c ≡ false

trim_left-Starts : (s : Text) → Starts (trim_left s)
unfolding trim_left
trim_left-Starts [] = tt
trim_left-Starts (c ∷ s) = elim (Bool-cases (is_space c)) [
  | inl e ↦ rw e (trim_left-Starts s)
  | inr e ↦ rw e e
]

trim_left-fixed : (s : Text) → Starts s → trim_left s ≡ s
unfolding trim_left
trim_left-fixed [] h = refl
trim_left-fixed (c ∷ s) h = rw h refl

trim_right-Starts : (s : Text) → Starts s → Starts (trim_right s)
unfolding trim_right
trim_right-Starts [] h = tt
trim_right-Starts (c ∷ s) h = rw h h

blank-trim_right : (s : Text) → is_blank (trim_right s) ≡ is_blank s
unfolding trim_right
blank-trim_right [] = refl
blank-trim_right (c ∷ s) = ground (arith, blank-trim_right s)

trim_right-twice : (s : Text) → trim_right (trim_right s) ≡ trim_right s
unfolding trim_right
trim_right-twice [] = refl
trim_right-twice (c ∷ s) = ground (arith, trim_right-twice s, blank-trim_right s)

-- What was trimmed has nothing to trim.
pub trim_space-twice : (s : Text) → trim_space (trim_space s) ≡ trim_space s
unfolding trim_space
trim_space-twice s =
    ap trim_right (
      trim_left-fixed (trim_right (trim_left s))
        (trim_right-Starts (trim_left s) (trim_left-Starts s)))
    ∙ trim_right-twice (trim_left s)

contains-trim_left : (c : ℕ) (s : Text) → contains c s ≡ false → contains c (trim_left s) ≡ false
unfolding trim_left contains
contains-trim_left c [] h = refl
contains-trim_left c (d ∷ s) h = ground (arith, contains-trim_left c s)

contains-trim_right : (c : ℕ) (s : Text) → contains c s ≡ false → contains c (trim_right s) ≡ false
unfolding trim_right contains
contains-trim_right c [] h = refl
contains-trim_right c (d ∷ s) h = ground (arith, contains-trim_right c s)

pub contains-trim_space :
    (c : ℕ) (s : Text) → contains c s ≡ false → contains c (trim_space s) ≡ false
unfolding trim_space
contains-trim_space c s h = contains-trim_right c (trim_left s) (contains-trim_left c s h)

-- No part holds the separator.
abbrev pub Separated : ℕ → List Text → Type 0
Separated sep parts = All (λ part. contains sep part ≡ false) parts

add_char-Separated :
    (sep c : ℕ) (parts : List Text)
    → (c == sep) ≡ false
    → Separated sep parts
    → Separated sep (add_char c parts)
unfolding contains
add_char-Separated sep c [] e h = (rw e refl, tt)
add_char-Separated sep c (part ∷ parts) e h = (rw e h.0, h.1)

pub split-Separated : (sep : ℕ) (s : Text) → Separated sep (split sep s)
unfolding split
split-Separated sep [] = (unfold contains in refl, tt)
split-Separated sep (c ∷ s) = elim (Bool-cases (c == sep)) [
  | inl e ↦ rw e (unfold contains in refl, split-Separated sep s)
  | inr e ↦ rw e (add_char-Separated sep c (split sep s) e (split-Separated sep s))
]

pub split-join :
    (sep : ℕ) (part : Text) (parts : List Text)
    → Separated sep (part ∷ parts)
    → split sep (join (sep ∷ []) (part ∷ parts)) ≡ part ∷ parts
unfolding join
split-join sep part [] h = split-part sep part h.0
split-join sep part (next ∷ parts) h =
    split-append sep part (join (sep ∷ []) (next ∷ parts)) h.0
    ∙ ap (λ l. part ∷ l) (split-join sep next parts h.1)

-- Trimming leaves nothing just of a blank text.
empty-trim_right : (s : Text) → is_empty (trim_right s) ≡ is_blank s
unfolding trim_right
empty-trim_right [] = refl
empty-trim_right (c ∷ s) = ground arith

blank-trim_left : (s : Text) → is_blank (trim_left s) ≡ is_blank s
unfolding trim_left
blank-trim_left [] = refl
blank-trim_left (c ∷ s) = ground (arith, blank-trim_left s)

pub empty-trim_space : (s : Text) → is_empty (trim_space s) ≡ is_blank s
unfolding trim_space
empty-trim_space s = empty-trim_right (trim_left s) ∙ blank-trim_left s

pub blank-append : (s t : Text) → is_blank s ≡ false → is_blank (s ++ t) ≡ false
blank-append [] t h = absurd (cc)
blank-append (c ∷ s) t h = ground (arith, blank-append s t)
