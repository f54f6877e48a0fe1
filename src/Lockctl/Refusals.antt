-- ===== src/Lockctl/Refusals.antt =====
-- What the command does when a flag that it needs is missing.
use lockd.Prelude.{
  ◌≡◌, ◌⊎◌, inl, inr, refl, sym, subst, true, false, Bool-cases, Option, some, none, List, ◌∷◌,
  Text, text, text_eq, text_beq, is_empty, ◌==◌, ℕ, Bool, ◌||◌, if◌then◌else◌,
}
use lockd.Lock.Types.{Duration}
use lockd.Client.Types.{Failure, Net}
use lockd.Client.Calls.{Outcome, new_client}
use lockd.Flags.{parsed, parse_flags}
use lockd.Lockctl.{
  Options, default_options, option_kind, assign_option, Output, Exit, require_name, require_lease,
  required, is_nil, run_command, exit_with, lockctl,
}

-- Nothing was sent, nothing is printed, and the command ends with the status.
abbrev pub HasRefused : {Listed : Type 0} → Exit Listed → ℕ → Type 0
HasRefused x status = (x.sent ≡ 0) × (x.printed ≡ none) × (x.status ≡ status)

abbrev is_command : Text → Bool
is_command command =
    command == text "create"
    || command == text "list"
    || command == text "acquire"
    || command == text "renew"
    || command == text "release"
    || command == text "watch"
    || command == text "steal"
    || command == text "delete"

-- The status of a failed command, and that of a word that is none.
abbrev pub refused_status : Text → ℕ
refused_status command = if is_command command then 1 else 2

module _ (net : Net) where
  required-HasRefused :
      (check : Option Failure) (server : Text) (refused : Output net.Listed)
      (called : Outcome (Output net.Listed))
      → is_nil check ≡ false
      → HasRefused (exit_with net (some (required net check (new_client server) refused called))) 1
  unfolding new_client
  required-HasRefused none server refused called h = absurd (cc)
  required-HasRefused (some e) server refused called h = (refl, refl, refl)

  name_refused :
      (o : Options) (refused : Output net.Listed) (called : Outcome (Output net.Listed))
      → is_empty o.name ≡ true
      → HasRefused
          (exit_with net
            (some (required net (require_name o.name) (new_client o.server) refused called)))
          1
  unfolding require_name
  name_refused o refused called h =
      required-HasRefused (require_name o.name) o.server refused called (rw h refl)

  lease_refused :
      (o : Options) (refused : Output net.Listed) (called : Outcome (Output net.Listed))
      → is_empty o.name ≡ true
      → HasRefused
          (exit_with net (
            some
              (required net (require_lease o.name o.token) (new_client o.server) refused called)))
          1
  unfolding require_lease require_name
  lease_refused o refused called h =
      required-HasRefused (require_lease o.name o.token) o.server refused called (rw h refl)

  token_refused :
      (o : Options) (refused : Output net.Listed) (called : Outcome (Output net.Listed))
      → is_empty o.token ≡ true
      → HasRefused
          (exit_with net (
            some
              (required net (require_lease o.name o.token) (new_client o.server) refused called)))
          1
  unfolding require_lease require_name
  token_refused o refused called h = elim (Bool-cases (is_empty o.name)) [
    | inl e ↦ lease_refused o refused called e
    | inr e ↦
        required-HasRefused (require_lease o.name o.token) o.server refused called (rw (e, h) refl)
  ]

  no_name-HasRefused :
      (command : Text) (o : Options)
      → (command == text "list") ≡ false
      → is_empty o.name ≡ true
      → HasRefused
          (exit_with net (run_command net command (new_client o.server) o))
          (refused_status command)
  unfolding run_command
  no_name-HasRefused command o list h = elim (Bool-cases (command == text "create")) [
    | inl e ↦ rw e (name_refused o _ _ h)
    | inr not_create ↦ elim (Bool-cases (command == text "acquire")) [
      | inl e ↦ rw (not_create, list, e) (name_refused o _ _ h)
      | inr not_acquire ↦ elim (Bool-cases (command == text "renew")) [
        | inl e ↦ rw (not_create, list, not_acquire, e) (lease_refused o _ _ h)
        | inr not_renew ↦ elim (Bool-cases (command == text "release")) [
          | inl e ↦ rw (not_create, list, not_acquire, not_renew, e) (lease_refused o _ _ h)
          | inr not_release ↦ elim (Bool-cases (command == text "watch")) [
            | inl e ↦
                rw (not_create, list, not_acquire, not_renew, not_release, e) (name_refused o _ _ h)
            | inr not_watch ↦ elim (Bool-cases (command == text "steal")) [
              | inl e ↦
                  rw (not_create, list, not_acquire, not_renew, not_release, not_watch, e)
                    (name_refused o _ _ h)
              | inr not_steal ↦ elim (Bool-cases (command == text "delete")) [
                | inl e ↦
                    rw
                      (
                        not_create, list, not_acquire, not_renew, not_release, not_watch, not_steal,
                        e,
                      )
                      (name_refused o _ _ h)
                | inr not_delete ↦
                    rw
                      (
                        not_create, list, not_acquire, not_renew, not_release, not_watch, not_steal,
                        not_delete,
                      )
                      (refl, refl, refl)
              ]
            ]
          ]
        ]
      ]
    ]
  ]

  renew-HasRefused :
      (o : Options)
      → is_empty o.token ≡ true
      → HasRefused (exit_with net (run_command net (text "renew") (new_client o.server) o)) 1
  unfolding run_command text text_beq
  renew-HasRefused o h = token_refused o _ _ h

  release-HasRefused :
      (o : Options)
      → is_empty o.token ≡ true
      → HasRefused (exit_with net (run_command net (text "release") (new_client o.server) o)) 1
  unfolding run_command text text_beq
  release-HasRefused o h = token_refused o _ _ h

  -- The command lacks a flag that it cannot do without: the name of the lock, which all but `list`
  -- need, or the token, which `renew` and `release` need.
  abbrev pub IsIncomplete : Text → Options → Type 0
  IsIncomplete command o =
      (((command == text "list") ≡ false) × (is_empty o.name ≡ true))
      ⊎ (((command ≡ text "renew") ⊎ (command ≡ text "release")) × (is_empty o.token ≡ true))

  run_command-HasRefused :
      (command : Text) (o : Options)
      → IsIncomplete command o
      → HasRefused
          (exit_with net (run_command net command (new_client o.server) o))
          (refused_status command)
  unfolding text text_beq
  run_command-HasRefused command o (inl (list, h)) = no_name-HasRefused command o list h
  run_command-HasRefused command o (inr (inl e, h)) =
      subst
        (λ c.
          HasRefused (exit_with net (run_command net c (new_client o.server) o)) (refused_status c))
        (sym e) (renew-HasRefused o h)
  run_command-HasRefused command o (inr (inr e, h)) =
      subst
        (λ c.
          HasRefused (exit_with net (run_command net c (new_client o.server) o)) (refused_status c))
        (sym e) (release-HasRefused o h)

  -- A command whose flags are parsed but lack what it needs (a name for all but list, a token for
  -- renew and release) sends nothing to the server, prints no result, and ends with status 1 if it
  -- is one of the eight commands, and with 2 if not.
  pub lockctl_checks_first :
      (parse_duration : Text → Option Duration) (command : Text) (args : List Text) (o : Options)
      → parse_flags option_kind (assign_option parse_duration) none default_options args ≡ parsed o
      → IsIncomplete command o
      → HasRefused (lockctl net parse_duration (command ∷ args)) (refused_status command)
  unfolding lockctl
  lockctl_checks_first parse_duration command args o flags h =
      rw flags (run_command-HasRefused command o h)
