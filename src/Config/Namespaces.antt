-- ===== src/Config/Namespaces.antt =====
-- The list of the namespaces, which `Parse` writes as a text and reads again.
use lockd.Prelude.{
  ◌≡◌, inl, inr, refl, ap, sym, ◌∙◌, false, Bool-cases, Option, some, none, List, [], ◌∷◌, Text,
  text, nat_eq, is_empty, contains, All, ℤ, pos, ltb_ℤ, ◌≤ℤ◌, ◌&&◌, Bool, arith,
}
use lockd.Lock.Types.{Duration}
use lockd.Strings.{split, join, trim_space, trim_left, trim_right, is_blank, atoi}
use lockd.Strings.Trims.{
  trim_space-twice, contains-trim_space, Separated, split-Separated, split-join, empty-trim_space,
  blank-append,
}
use lockd.Flags.{parsed, parse_flags}
use lockd.Config.{
  Config, default_config, items, split_list, positive_or, quota_or, set_duration, apply_environment,
  parse_config,
}

-- Items that `splitList` takes as they are.
abbrev pub Clean : List Text → Type 0
Clean xs =
    All (λ x. (contains b',' x ≡ false) × (trim_space x ≡ x) × (is_empty (trim_space x) ≡ false)) xs

items-Clean : (parts : List Text) → Separated b',' parts → Clean (items parts)
items-Clean [] h = tt
items-Clean (part ∷ parts) h = elim (Bool-cases (is_empty (trim_space part))) [
  | inl e ↦ rw e (items-Clean parts h.1)
  | inr e ↦ rw e (
    (
      contains-trim_space b',' part h.0,
      trim_space-twice part,
      ap is_empty (trim_space-twice part) ∙ e,
    ),
    items-Clean parts h.1,
  )
]

items-fixed : (xs : List Text) → Clean xs → items xs ≡ xs
items-fixed [] h = refl
items-fixed (x ∷ xs) ((sep, trimmed, kept), h) = rw kept (rw (trimmed, items-fixed xs h) refl)

Clean-Separated : (xs : List Text) → Clean xs → Separated b',' xs
Clean-Separated [] h = tt
Clean-Separated (x ∷ xs) ((sep, trimmed, kept), h) = (sep, Clean-Separated xs h)

split_list-Clean : (value : Text) → Clean (split_list value)
unfolding split_list
split_list-Clean value = elim (Bool-cases (is_empty (trim_space value))) [
  | inl e ↦ rw e tt
  | inr e ↦ rw e (items-Clean (split b',' value) (split-Separated b',' value))
]

join-blank :
    (x : Text) (xs : List Text) → is_blank x ≡ false → is_blank (join (text ",") (x ∷ xs)) ≡ false
unfolding join
join-blank x [] h = h
join-blank x (y ∷ ys) h = blank-append x _ h

split_list-nil : split_list [] ≡ []
unfolding split_list trim_space trim_left trim_right
split_list-nil = refl

-- Clean items are read back from the text that joins them.
split_list-join : (xs : List Text) → Clean xs → split_list (join (text ",") xs) ≡ xs
unfolding split_list text
split_list-join [] h = unfold join in split_list-nil
split_list-join (x ∷ xs) h =
    let shown : is_empty (trim_space (join (b',' ∷ []) (x ∷ xs))) ≡ false =
      empty-trim_space _ ∙ join-blank x xs (sym (empty-trim_space x) ∙ h.0.2) in
    rw (shown, split-join b',' x xs (Clean-Separated (x ∷ xs) h)) (items-fixed (x ∷ xs) h)

-- The whole number and the durations that the server starts with are positive.
abbrev pub IsUsable : Config → Type 0
IsUsable cfg =
    (pos 1 ≤ℤ cfg.namespace_quota)
    × (pos 1 ≤ℤ cfg.default_ttl)
    × (pos 1 ≤ℤ cfg.expire_interval)
    × (pos 1 ≤ℤ cfg.shutdown_timeout)

module _ (env : Text → Text) (parse_duration : Text → Option Duration)
    (parse_int : Text → Option ℤ) where
  apply_environment-Clean :
      (cfg : Config)
      → Clean cfg.namespaces
      → Clean (apply_environment env parse_duration parse_int cfg).namespaces
  unfolding apply_environment
  apply_environment-Clean cfg h = elim (Bool-cases (is_empty (env (text "LOCKD_NAMESPACES")))) [
    | inl e ↦ rw e h
    | inr e ↦ rw e (split_list-Clean (env (text "LOCKD_NAMESPACES")))
  ]

  -- Without flags Parse gives what the environment makes of the defaults: also the list of the
  -- namespaces, which it joins with commas for the flag and splits again.
  pub parse_without_flags :
      parse_config env parse_duration parse_int []
      ≡ parsed (apply_environment env parse_duration parse_int default_config)
  unfolding parse_config parse_flags
  parse_without_flags =
      let cfg = apply_environment env parse_duration parse_int default_config in
      rw (split_list-join cfg.namespaces (apply_environment-Clean default_config tt)) refl

  positive_or-positive :
      (target : Duration) (d : Option Duration) → pos 1 ≤ℤ target → pos 1 ≤ℤ positive_or target d
  positive_or-positive target none h = h
  positive_or-positive target (some d) h = elim (Bool-cases (ltb_ℤ (pos 0) d)) [
    | inl e ↦ rw e (ground arith)
    | inr e ↦ rw e h
  ]

  quota_or-positive : (target : ℤ) (n : ℤ × Bool) → pos 1 ≤ℤ target → pos 1 ≤ℤ quota_or target n
  quota_or-positive target (n, good) h = elim (Bool-cases (good && ltb_ℤ (pos 0) n)) [
    | inl e ↦ rw e (ground arith)
    | inr e ↦ rw e h
  ]

  set_duration-positive :
      (name : Text) (target : Duration)
      → pos 1 ≤ℤ target
      → pos 1 ≤ℤ set_duration env parse_duration parse_int name target
  unfolding set_duration
  set_duration-positive name target h = elim (Bool-cases (is_empty (env name))) [
    | inl e ↦ rw e h
    | inr e ↦ rw e (positive_or-positive target (parse_duration (env name)) h)
  ]

  -- Whatever the environment holds, also values that are no numbers, negative or out of range, the
  -- quota and the durations stay positive if they were.
  environment-IsUsable :
      (cfg : Config) → IsUsable cfg → IsUsable (apply_environment env parse_duration parse_int cfg)
  unfolding apply_environment
  environment-IsUsable cfg (quota, ttl, interval, shutdown) = (
    elim (Bool-cases (is_empty (env (text "LOCKD_NAMESPACE_QUOTA")))) [
      | inl e ↦ rw e quota
      | inr e ↦
          rw e (
            quota_or-positive cfg.namespace_quota (atoi (env (text "LOCKD_NAMESPACE_QUOTA"))) quota)
    ],
    set_duration-positive (text "LOCKD_DEFAULT_TTL") cfg.default_ttl ttl,
    set_duration-positive (text "LOCKD_EXPIRE_INTERVAL") cfg.expire_interval interval,
    set_duration-positive (text "LOCKD_SHUTDOWN_TIMEOUT") cfg.shutdown_timeout shutdown,
  )
