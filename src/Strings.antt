-- ===== src/Strings.antt =====
-- The functions of Go's standard library on texts that the program uses: packages strings, strconv
-- and net/url. A text is a list of bytes. `to_lower` and `trim_space` are those of ASCII texts, the
-- only ones that the program's own literals meet.
pub mod Paths
pub mod Trims
use lockd.Prelude.{
  ℕ, ◌+◌, ◌-◌, ◌*◌, ◌/◌, ◌%◌, Bool, true, false, ◌&&◌, ◌||◌, not, Option, some, none, List, [], ◌∷◌,
  ◌++◌, Text, nat_eq, text_eq, ltb, leb, ◌==◌, if◌then◌else◌, ℤ, pos, negsuc, length,
}
use lockd.Lock.Registry.{is_name_char}

-- `strings.TrimPrefix`, and whether there is such a prefix.
unfoldable pub cut_prefix : Text → Text → Option Text
cut_prefix s [] = some s
cut_prefix [] (p ∷ prefix) = none
cut_prefix (c ∷ s) (p ∷ prefix) = let rest = cut_prefix s prefix in if c == p then rest else none

abbrev pub is_some {ℓ} : {A : Type ℓ} → Option A → Bool
is_some none = false
is_some (some a) = true

abbrev pub or_else {ℓ} : {A : Type ℓ} → Option A → A → A
or_else none d = d
or_else (some a) d = a

abbrev pub has_prefix : Text → Text → Bool
has_prefix s prefix = is_some (cut_prefix s prefix)

abbrev pub trim_prefix : Text → Text → Text
trim_prefix s prefix = or_else (cut_prefix s prefix) s

-- `strings.HasSuffix`: some end of the text is the suffix.
unfoldable pub has_suffix : Text → Text → Bool
has_suffix [] suffix = suffix == []
has_suffix (c ∷ s) suffix = (c ∷ s) == suffix || has_suffix s suffix

abbrev pub add_char : ℕ → List Text → List Text
add_char c [] = (c ∷ []) ∷ []
add_char c (part ∷ parts) = (c ∷ part) ∷ parts

-- `strings.Split` by one byte. It has a part at least.
unfoldable pub split : ℕ → Text → List Text
split sep [] = [] ∷ []
split sep (c ∷ s) = let parts = split sep s in if c == sep then [] ∷ parts else add_char c parts

-- `strings.Join`.
unfoldable pub join : Text → List Text → Text
join sep [] = []
join sep (part ∷ []) = part
join sep (part ∷ parts) = part ++ (sep ++ join sep parts)

unfoldable pub to_lower : Text → Text
to_lower [] = []
to_lower (c ∷ s) = (if leb b'A' c && leb c b'Z' then c + 32 else c) ∷ to_lower s

abbrev pub is_space : ℕ → Bool
is_space c = c == 32 || (leb 9 c && leb c 13)

abbrev pub is_blank : Text → Bool
is_blank [] = true
is_blank (c ∷ s) = is_space c && is_blank s

unfoldable pub trim_left : Text → Text
trim_left [] = []
trim_left (c ∷ s) = let rest = trim_left s in if is_space c then rest else c ∷ s

unfoldable pub trim_right : Text → Text
trim_right [] = []
trim_right (c ∷ s) = let rest = trim_right s in if is_blank (c ∷ s) then [] else c ∷ rest

-- `strings.TrimSpace`.
unfoldable pub trim_space : Text → Text
unfolding trim_left trim_right
trim_space s = trim_right (trim_left s)

-- `strings.TrimRight(s, "/")`.
abbrev all_slashes : Text → Bool
all_slashes [] = true
all_slashes (c ∷ s) = c == b'/' && all_slashes s

unfoldable pub trim_slashes : Text → Text
trim_slashes [] = []
trim_slashes (c ∷ s) = let rest = trim_slashes s in if all_slashes (c ∷ s) then [] else c ∷ rest

-- The number that decimal digits spell behind `n`.
unfoldable pub digits : ℕ → Text → Option ℕ
digits n [] = some n
digits n (c ∷ s) =
    let rest = digits (n * 10 + (c - b'0')) s in if leb b'0' c && leb c b'9' then rest else none

abbrev pub max_int : ℕ
max_int = 9_223_372_036_854_775_807

-- The value and whether the error is nil; a value out of range becomes the nearest in range.
abbrev clamp_pos : Option ℕ → ℤ × Bool
clamp_pos none = (pos 0, false)
clamp_pos (some n) = if leb n max_int then (pos n, true) else (pos max_int, false)

abbrev clamp_neg : Option ℕ → ℤ × Bool
clamp_neg none = (pos 0, false)
clamp_neg (some n) =
    if n == 0
    then (pos 0, true)
    else if leb n (max_int + 1)
    then (negsuc (n - 1), true)
    else (negsuc max_int, false)

abbrev unsigned : Text → Option ℕ
unsigned [] = none
unsigned (c ∷ s) = digits 0 (c ∷ s)

-- `strconv.Atoi`.
unfoldable pub atoi : Text → ℤ × Bool
unfolding digits
atoi [] = (pos 0, false)
atoi (c ∷ s) =
    if c == b'-'
    then clamp_neg (unsigned s)
    else if c == b'+'
    then clamp_pos (unsigned s)
    else clamp_pos (unsigned (c ∷ s))

unfoldable pub hex_upper : ℕ → ℕ
hex_upper d = if ltb d 10 then b'0' + d else 55 + d

-- The bytes that `url.PathEscape` keeps.
unfoldable pub is_path_char : ℕ → Bool
unfolding is_name_char
is_path_char c =
    is_name_char c
    || c == b'~'
    || c == b'$'
    || c == b'&'
    || c == b'+'
    || c == b'='
    || c == b':'
    || c == b'@'

-- `url.PathEscape`.
unfoldable pub path_escape : Text → Text
unfolding is_path_char hex_upper
path_escape [] = []
path_escape (c ∷ s) =
    let rest = path_escape s in
    if is_path_char c then c ∷ rest else b'%' ∷ hex_upper (c / 16) ∷ hex_upper (c % 16) ∷ rest

-- `url.QueryEscape`.
unfoldable pub query_escape : Text → Text
unfolding is_name_char hex_upper
query_escape [] = []
query_escape (c ∷ s) =
    let rest = query_escape s in
    if c == 32
    then b'+' ∷ rest
    else if is_name_char c || c == b'~'
    then c ∷ rest
    else b'%' ∷ hex_upper (c / 16) ∷ hex_upper (c % 16) ∷ rest

unfoldable pub unhex : ℕ → Option ℕ
unhex d =
    if leb b'0' d && leb d b'9'
    then some (d - b'0')
    else if leb b'A' d && leb d b'F'
    then some (d - 55)
    else if leb b'a' d && leb d b'f'
    then some (d - 87)
    else none

abbrev pub add_byte : ℕ → Option Text → Option Text
add_byte c none = none
add_byte c (some s) = some (c ∷ s)

-- What of an escape has been read.
pub data Escape : Type 0 where
  outside percent : Escape
  half : ℕ → Escape

unfoldable pub unescape_from : Escape → Text → Option Text
unfolding unhex
unescape_from outside [] = some []
unescape_from outside (c ∷ s) = elim (c == b'%') [
  | true ↦ unescape_from percent s
  | false ↦ add_byte c (unescape_from outside s)
]
unescape_from percent [] = none
unescape_from percent (c ∷ s) = elim (unhex c) [ none ↦ none | some h ↦ unescape_from (half h) s ]
unescape_from (half h) [] = none
unescape_from (half h) (c ∷ s) = elim (unhex c) [
  | none ↦ none
  | some l ↦ add_byte (h * 16 + l) (unescape_from outside s)
]

-- `url.PathUnescape`, which the server's URL parser applies to a path: `none` for a broken escape.
abbrev pub path_unescape : Text → Option Text
path_unescape s = unescape_from outside s
