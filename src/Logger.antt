-- ===== src/Logger.antt =====
-- internal/logger/logger.go: which records are written. A record's JSON is a parameter, `none` where
-- `json.Marshal` fails.
pub mod Lines
use lockd.Prelude.{
  ℕ, Bool, true, false, Option, some, none, List, [], ◌∷◌, ◌++◌, Text, text, text_eq, ltb, ◌==◌,
  if◌then◌else◌,
}
use lockd.Strings.{to_lower}

-- The map `levels`.
unfoldable pub level_of : Text → Option ℕ
level_of name =
    if name == text "debug"
    then some 0
    else if name == text "info"
    then some 1
    else if name == text "warn"
    then some 2
    else if name == text "error"
    then some 3
    else none

-- `out` is what was written.
pub record Logger : Type 0 where
  pub out : Text
  pub level : ℕ

abbrev pub level_or_info : Option ℕ → ℕ
level_or_info none = 1
level_or_info (some n) = n

-- `New`, for an output that is empty yet.
unfoldable pub new_logger : Text → Logger
unfolding level_of to_lower
new_logger level = record { out = []; level = level_or_info (level_of (to_lower level)) }

abbrev write_line : Logger → Option Text → Logger
write_line l none = l
write_line l (some line) = record l { out = l.out ++ (line ++ 10 ∷ []) }

abbrev pub log_at : Logger → Option ℕ → Option Text → Logger
log_at l none line = l
log_at l (some value) line = if ltb value l.level then l else write_line l line

-- `Log`, for what `json.Marshal` gives for the record.
unfoldable pub log : Logger → Text → Option Text → Logger
unfolding level_of to_lower
log l level line = log_at l (level_of (to_lower level)) line

-- `Debug`, `Info`, `Warn` and `Error`.
abbrev pub debug : Logger → Option Text → Logger
debug l line = log l (text "debug") line

abbrev pub info : Logger → Option Text → Logger
info l line = log l (text "info") line

abbrev pub warn : Logger → Option Text → Logger
warn l line = log l (text "warn") line

abbrev pub error : Logger → Option Text → Logger
error l line = log l (text "error") line
