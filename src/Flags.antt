-- ===== src/Flags.antt =====
-- Package flag, as cmd/lockctl/main.go and internal/config/config.go use it: the loop of
-- `FlagSet.Parse` over the arguments, for the assignment of one flag.
use lockd.Prelude.{
  ℕ, ◌||◌, not, Option, some, none, List, [], ◌∷◌, Text, text, text_eq, nat_eq, is_empty, ◌==◌,
  if◌then◌else◌,
}

pub data FlagError : Type 0 where
  help bad_flag : FlagError

-- What one argument is: the end of the flags, the name of a flag, one with its value, or neither.
pub data Argument : Type 0 where
  stop malformed : Argument
  named : Text → Argument
  assigned : Text → Text → Argument

-- The name before the first `=`, and the value behind it.
abbrev add_to_name : ℕ → Text × Option Text → Text × Option Text
add_to_name c (name, value) = (c ∷ name, value)

unfoldable pub cut_value : Text → Text × Option Text
cut_value [] = ([], none)
cut_value (c ∷ s) = let rest = cut_value s in if c == b'=' then ([], some s) else add_to_name c rest

abbrev to_argument : Text × Option Text → Argument
to_argument (name, none) = named name
to_argument (name, some value) = assigned name value

abbrev read_name : Text → Argument
read_name [] = malformed
read_name (c ∷ s) =
    if c == b'-' || c == b'=' then malformed else to_argument (add_to_name c (cut_value s))

unfoldable pub read_argument : Text → Argument
unfolding cut_value
read_argument [] = stop
read_argument (c ∷ []) = stop
read_argument (c ∷ d ∷ s) =
    if not (c == b'-')
    then stop
    else if d == b'-'
    then (if is_empty s then stop else read_name s)
    else read_name (d ∷ s)

-- The type of a flag decides whether it takes the next argument.
pub data Kind : Type 0 where
  unknown boolean valued : Kind

pub data Parsed {ℓ} (A : Type ℓ) : Type ℓ where
  parsed : A → Parsed A
  failed : FlagError → Parsed A

module _ {ℓ} {A : Type ℓ} (kind : Text → Kind) (assign : Text → Text → A → Option A) where
  abbrev unknown_flag : Text → Parsed A
  unknown_flag name =
      if name == text "help" || name == text "h" then failed help else failed bad_flag

  -- The flags behind a name that waits for its value, if there is one.
  unfoldable pub parse_flags : Option Text → A → List Text → Parsed A
  unfolding read_argument
  parse_flags none a [] = parsed a
  parse_flags (some name) a [] = failed bad_flag
  parse_flags (some name) a (value ∷ rest) = elim (assign name value a) [
    | none ↦ failed bad_flag
    | some a' ↦ parse_flags none a' rest
  ]
  parse_flags none a (argument ∷ rest) = elim (read_argument argument) [
    | stop ↦ parsed a
    | malformed ↦ failed bad_flag
    | named name ↦ elim (kind name) [
      | unknown ↦ unknown_flag name
      | valued ↦ parse_flags (some name) a rest
      | boolean ↦ elim (assign name (text "true") a) [
        | none ↦ failed bad_flag
        | some a' ↦ parse_flags none a' rest
      ]
    ]
    | assigned name value ↦ elim (kind name) [
      | unknown ↦ unknown_flag name
      | _ ↦ elim (assign name value a) [
        | none ↦ failed bad_flag
        | some a' ↦ parse_flags none a' rest
      ]
    ]
  ]
