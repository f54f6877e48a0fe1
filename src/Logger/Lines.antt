-- ===== src/Logger/Lines.antt =====
-- The output of a logger over its life.
use lockd.Prelude.{
  ℕ, ◌≡◌, refl, sym, ap, ◌∙◌, true, false, Bool, Bool-cases, Option, some, none, List, [], ◌∷◌,
  ◌++◌, Text, ltb, not, inl, inr, if◌then◌else◌,
}
use mathlib.Core.List.{append_assoc, append-nil}
use lockd.Strings.{to_lower}
use lockd.Logger.{Logger, level_of, new_logger, log, level_or_info, log_at}

-- Records, each with the level of its call and the JSON of its line.
unfoldable pub log_all : Logger → List (Text × Text) → Logger
log_all l [] = l
log_all l ((level, line) ∷ records) = log_all (log l level (some line)) records

-- A record is wanted if its level has a name, in any case of letters, and is not below that of the
-- logger, which is `info` where the configuration names no level.
abbrev pub wanted_at : ℕ → Option ℕ → Bool
wanted_at threshold none = false
wanted_at threshold (some value) = not (ltb value threshold)

unfoldable pub wanted_lines : ℕ → List (Text × Text) → Text
wanted_lines threshold [] = []
wanted_lines threshold ((level, line) ∷ records) =
    let rest = wanted_lines threshold records in
    if wanted_at threshold (level_of (to_lower level)) then line ++ (10 ∷ rest) else rest

log-line :
    (l : Logger) (value : Option ℕ) (line : Text)
    → log_at l value (some line)
      ≡ (if wanted_at l.level value then record l { out = l.out ++ (line ++ 10 ∷ []) } else l)
log-line l none line = refl
log-line l (some value) line = elim (Bool-cases (ltb value l.level)) [
  | inl low ↦ rw low refl
  | inr high ↦ rw high refl
]

-- What one record adds, and what the rest adds behind it.
add_line :
    (wanted : Bool) (l : Logger) (line rest : Text) (out : Logger → Text)
    → ((k : Logger) → k.level ≡ l.level → out k ≡ k.out ++ rest)
    → out (if wanted then record l { out = l.out ++ (line ++ 10 ∷ []) } else l)
      ≡ l.out ++ (if wanted then line ++ (10 ∷ rest) else rest)
add_line true l line rest out h =
    h (record l { out = l.out ++ (line ++ 10 ∷ []) }) refl
    ∙ append_assoc l.out (line ++ 10 ∷ []) rest
    ∙ ap (λ t. l.out ++ t) (append_assoc line (10 ∷ []) rest)
add_line false l line rest out h = h l refl

log_all-out :
    (l : Logger) (records : List (Text × Text))
    → (log_all l records).out ≡ l.out ++ wanted_lines l.level records
unfolding log_all wanted_lines log
log_all-out l [] = sym (append-nil l.out)
log_all-out l ((level, line) ∷ records) =
    ap (λ k. (log_all k records).out) (log-line l (level_of (to_lower level)) line)
    ∙ add_line (wanted_at l.level (level_of (to_lower level))) l line (wanted_lines l.level records)
        (λ k. (log_all k records).out)
        (λ k e. log_all-out k records ∙ ap (λ n. k.out ++ wanted_lines n records) e)

-- The output of a new logger is the lines of the wanted records, in their order and each with a
-- newline: nothing is written for the others, and no record changes the level.
logger_writes_wanted :
    (level : Text) (records : List (Text × Text))
    → (log_all (new_logger level) records).out
      ≡ wanted_lines (level_or_info (level_of (to_lower level))) records
unfolding new_logger
logger_writes_wanted level records = log_all-out (new_logger level) records
