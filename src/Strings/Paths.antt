-- ===== src/Strings/Paths.antt =====
-- Laws of escaping, and of prefixes, suffixes and parts of paths.
use lockd.Prelude.{
  ℕ, ◌+◌, ◌*◌, ◌/◌, ◌%◌, ◌<◌, ◌≡◌, inl, inr, refl, ap, ◌∙◌, true, false, Bool-cases, some, [], ◌∷◌,
  ◌++◌, Text, text_eq, text_beq, text_beq_refl, nat_eq, ◌==◌, contains, All, arith,
}
use lockd.Lock.Registry.{all_name_chars}
use lockd.Strings.{
  cut_prefix, has_suffix, split, path_escape, path_unescape, unescape_from, outside, percent, half,
  add_byte, unhex, hex_upper, is_path_char,
}

pub cut_prefix-append : (prefix s : Text) → cut_prefix (prefix ++ s) prefix ≡ some s
unfolding cut_prefix
cut_prefix-append [] [] = refl
cut_prefix-append [] (c ∷ s) = refl
cut_prefix-append (p ∷ prefix) s = ground (arith, cut_prefix-append prefix s)

pub has_suffix-append : (s suffix : Text) → has_suffix (s ++ suffix) suffix ≡ true
unfolding has_suffix text_beq
has_suffix-append [] [] = refl
has_suffix-append [] (c ∷ suffix) = ground (arith, text_beq_refl (c ∷ suffix))
has_suffix-append (c ∷ s) suffix = ground (arith, has_suffix-append s suffix)

-- A part without the separator is one part.
pub split-part : (sep : ℕ) (part : Text) → contains sep part ≡ false → split sep part ≡ part ∷ []
unfolding split contains
split-part sep [] h = refl
split-part sep (c ∷ part) h = ground (arith, split-part sep part)

pub split-append :
    (sep : ℕ) (part s : Text)
    → contains sep part ≡ false
    → split sep (part ++ sep ∷ s) ≡ part ∷ split sep s
unfolding split contains
split-append sep [] s h = ground arith
split-append sep (c ∷ part) s h = ground (arith, split-append sep part s)

-- Names hold no slash and are not changed by escaping.
pub name_no_slash : (s : Text) → all_name_chars s ≡ true → contains b'/' s ≡ false
unfolding contains all_name_chars
name_no_slash [] h = refl
name_no_slash (c ∷ s) h = ground (arith, name_no_slash s)

pub path_escape-name : (s : Text) → all_name_chars s ≡ true → path_escape s ≡ s
unfolding path_escape all_name_chars
path_escape-name [] h = refl
path_escape-name (c ∷ s) h = ground (arith, path_escape-name s)

unhex-hex_upper : (d : ℕ) → d < 16 → unhex (hex_upper d) ≡ some d
unfolding unhex hex_upper
unhex-hex_upper d h = ground arith

path_char-ne-percent : (c : ℕ) → is_path_char c ≡ true → (c == b'%') ≡ false
unfolding is_path_char
path_char-ne-percent c h = ground arith

pub outside_step :
    (c : ℕ) (s : Text)
    → (c == b'%') ≡ false
    → unescape_from outside (c ∷ s) ≡ add_byte c (unescape_from outside s)
unfolding unescape_from
outside_step c s e = rw (e, unescape_from)

percent_step :
    (c h : ℕ) (s : Text)
    → unhex c ≡ some h
    → unescape_from percent (c ∷ s) ≡ unescape_from (half h) s
unfolding unescape_from
percent_step c h s e = rw (e, unescape_from)

half_step :
    (h c l : ℕ) (s : Text)
    → unhex c ≡ some l
    → unescape_from (half h) (c ∷ s) ≡ add_byte (h * 16 + l) (unescape_from outside s)
unfolding unescape_from
half_step h c l s e = rw (e, unescape_from)

escape_start : (s : Text) → unescape_from outside (b'%' ∷ s) ≡ unescape_from percent s
unfolding unescape_from
escape_start s = refl

unescape_escape :
    (c : ℕ) (s : Text)
    → c < 256
    → unescape_from outside (b'%' ∷ hex_upper (c / 16) ∷ hex_upper (c % 16) ∷ s)
      ≡ add_byte c (unescape_from outside s)
unescape_escape c s h =
    let high = unhex-hex_upper (c / 16) (omega arith) in
    let low = unhex-hex_upper (c % 16) (omega arith) in
    let halves : c / 16 * 16 + c % 16 ≡ c = omega arith in
    escape_start _
    ∙ percent_step (hex_upper (c / 16)) (c / 16) (hex_upper (c % 16) ∷ s) high
    ∙ half_step (c / 16) (hex_upper (c % 16)) (c % 16) s low
    ∙ ap (λ b. add_byte b (unescape_from outside s)) halves

-- The parser of the server reads back the bytes that were escaped.
pub path_unescape-path_escape :
    (s : Text) → All (λ c. c < 256) s → path_unescape (path_escape s) ≡ some s
unfolding path_escape
path_unescape-path_escape [] h = unfold unescape_from in refl
path_unescape-path_escape (c ∷ s) h = elim (Bool-cases (is_path_char c)) [
  | inl plain ↦ rw plain (
      outside_step c (path_escape s) (path_char-ne-percent c plain)
      ∙ ap (add_byte c) (path_unescape-path_escape s h.1))
  | inr other ↦
      rw other
        (unescape_escape c (path_escape s) h.0 ∙ ap (add_byte c) (path_unescape-path_escape s h.1))
]
