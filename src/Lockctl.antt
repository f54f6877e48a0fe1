-- ===== src/Lockctl.antt =====
-- cmd/lockctl/main.go: the command. It runs against a network `net`; `time.ParseDuration` is a
-- parameter.
pub mod Refusals
use lockd.Prelude.{
  ℕ, ◌*◌, Bool, true, false, ◌||◌, Option, some, none, List, [], ◌∷◌, ◌++◌, Text, text, text_eq,
  is_empty, ◌==◌, if◌then◌else◌, pos, get_elem?,
}
use lockd.Lock.Types.{Duration, Event}
use lockd.Client.Types.{Failure, other, Lease, Net, Client, second}
use lockd.Client.Calls.{
  Outcome, new_client, allocate, create, list, acquire, renew, release, steal, delete_lock, watch,
}
use lockd.Flags.{
  FlagError, help, bad_flag, Kind, unknown, boolean, valued, Parsed, parsed, failed, parse_flags,
}

pub record Options : Type 0 where
  pub server : Text
  pub namespace : Text
  pub name : Text
  pub holder : Text
  pub token : Text
  pub ttl : Duration
  pub wait : Bool
  pub wait_timeout : Duration
  pub force_token : Text

-- The flags before they are parsed.
abbrev pub default_options : Options
default_options = record {
  server = text "http://127.0.0.1:8080";
  namespace = text "default";
  name = [];
  holder = text "lockctl";
  token = [];
  ttl = pos (30 * second);
  wait = false;
  wait_timeout = pos (10 * second);
  force_token = [];
}

abbrev pub option_kind : Text → Kind
option_kind name =
    if name == text "wait"
    then boolean
    else if name == text "server"
        || name == text "namespace"
        || name == text "name"
        || name == text "holder"
        || name == text "token"
        || name == text "ttl"
        || name == text "wait-timeout"
        || name == text "force-token"
    then valued
    else unknown

-- `strconv.ParseBool`.
abbrev parse_bool : Text → Option Bool
parse_bool s =
    if s == text "1"
      || s == text "t"
      || s == text "T"
      || s == text "TRUE"
      || s == text "true"
      || s == text "True"
    then some true
    else if s == text "0"
        || s == text "f"
        || s == text "F"
        || s == text "FALSE"
        || s == text "false"
        || s == text "False"
    then some false
    else none

abbrev with_value {ℓ} : {A : Type ℓ} → Option A → (A → Options) → Option Options
with_value none update = none
with_value (some a) update = some (update a)

unfoldable pub assign_option : (Text → Option Duration) → Text → Text → Options → Option Options
assign_option parse_duration name value o =
    if name == text "server"
    then some (record o { server = value })
    else if name == text "namespace"
    then some (record o { namespace = value })
    else if name == text "name"
    then some (record o { name = value })
    else if name == text "holder"
    then some (record o { holder = value })
    else if name == text "token"
    then some (record o { token = value })
    else if name == text "ttl"
    then with_value (parse_duration value) (λ d. record o { ttl = d })
    else if name == text "wait"
    then with_value (parse_bool value) (λ b. record o { wait = b })
    else if name == text "wait-timeout"
    then with_value (parse_duration value) (λ d. record o { wait_timeout = d })
    else if name == text "force-token"
    then some (record o { force_token = value })
    else none

-- What is printed as JSON.
pub data Output (Listed : Type 0) : Type 0 where
  null : Output Listed
  created : Bool → Text → Output Listed
  locks : Listed → Output Listed
  leased : Lease → Output Listed
  released deleted : Bool → Output Listed
  noticed : Event → Output Listed

unfoldable pub require_name : Text → Option Failure
require_name name = if is_empty name then some (other (text "-name is required")) else none

abbrev require_token : Option Failure → Text → Option Failure
require_token (some e) token = some e
require_token none token = if is_empty token then some (other (text "-token is required")) else none

unfoldable pub require_lease : Text → Text → Option Failure
unfolding require_name
require_lease name token = require_token (require_name name) token

abbrev pub is_nil : Option Failure → Bool
is_nil none = true
is_nil (some e) = false

-- How the process ends: its status, what it printed, the error that it reported, and the number of
-- exchanges with the server.
pub record Exit (Listed : Type 0) : Type 0 where
  pub status : ℕ
  pub printed : Option (Output Listed)
  pub error : Option Failure
  pub sent : ℕ

abbrev usage : {Listed : Type 0} → ℕ → Exit Listed
usage status = record { status = status; printed = none; error = none; sent = 0 }

module _ (net : Net) where
  -- A call whose arguments were refused is not made, and prints what the command prints then.
  abbrev pub required :
      Option Failure
      → Client
      → Output net.Listed
      → Outcome (Output net.Listed)
      → Outcome (Output net.Listed)
  required (some e) c refused called = (c, refused, some e)
  required none c refused called = called

  abbrev lease_output : Client → Option ℕ → Output net.Listed
  lease_output c none = null
  lease_output c (some a) = elim (get_elem? c.heap a) [ none ↦ null | some lease ↦ leased lease ]

  -- The lease that `renew` and `release` make of the flags.
  abbrev flag_lease : Options → Lease
  flag_lease o = record {
    namespace = o.namespace;
    name = o.name;
    holder = [];
    token = o.token;
    depth = pos 0;
    expires_at = 0;
    ttl = o.ttl;
  }

  abbrev shown_name : Options → Text
  shown_name o = o.namespace ++ (text ":" ++ o.name)

  abbrev run_create : Client → Options → Outcome (Output net.Listed)
  run_create c o =
      let (c', e) = create net c o.namespace o.name true o.ttl in
      (c', created (is_nil e) (shown_name o), e)

  abbrev run_list : Client → Options → Outcome (Output net.Listed)
  run_list c o = let (c', l, e) = list net c o.namespace in (c', locks l, e)

  abbrev run_acquire : Client → Options → Outcome (Output net.Listed)
  run_acquire c o =
      let (c', a, e) =
        acquire net c o.namespace o.name o.holder
          (record { ttl = o.ttl; wait = o.wait; wait_timeout = o.wait_timeout; request_id = [] }) in
      (c', lease_output c' a, e)

  abbrev run_renew : Client → Options → Outcome (Output net.Listed)
  run_renew c o =
      let (c', a) = allocate c (flag_lease o) in
      let (c'', e) = renew net c' a in (c'', lease_output c'' (some a), e)

  abbrev run_release : Client → Options → Outcome (Output net.Listed)
  run_release c o =
      let (c', a) = allocate c (flag_lease o) in
      let (c'', e) = release net c' a in (c'', released (is_nil e), e)

  abbrev run_watch : Client → Options → Outcome (Output net.Listed)
  run_watch c o =
      let (c', event, e) = watch net c o.namespace o.name o.wait_timeout in (c', noticed event, e)

  abbrev run_steal : Client → Options → Outcome (Output net.Listed)
  run_steal c o =
      let (c', a, e) = steal net c o.namespace o.name o.holder o.ttl o.force_token in
      (c', lease_output c' a, e)

  abbrev run_delete : Client → Options → Outcome (Output net.Listed)
  run_delete c o =
      let (c', e) = delete_lock net c o.namespace o.name o.force_token in
      (c', deleted (is_nil e), e)

  -- The switch of `main`; `none` for a command that is not known.
  unfoldable pub run_command : Text → Client → Options → Option (Outcome (Output net.Listed))
  unfolding require_name require_lease allocate
  run_command command c o =
      let named = require_name o.name in
      let held = require_lease o.name o.token in
      if command == text "create"
      then some (required named c (created false (shown_name o)) (run_create c o))
      else if command == text "list"
      then some (run_list c o)
      else if command == text "acquire"
      then some (required named c null (run_acquire c o))
      else if command == text "renew"
      then some (required held c null (run_renew c o))
      else if command == text "release"
      then some (required held c (released false) (run_release c o))
      else if command == text "watch"
      then some (required named c null (run_watch c o))
      else if command == text "steal"
      then some (required named c null (run_steal c o))
      else if command == text "delete"
      then some (required named c (deleted false) (run_delete c o))
      else none

  -- The end of `main`.
  abbrev pub exit_with : Option (Outcome (Output net.Listed)) → Exit net.Listed
  exit_with none = usage 2
  exit_with (some (c, output, some e)) = record {
    status = 1;
    printed = none;
    error = some e;
    sent = c.sent;
  }
  exit_with (some (c, output, none)) = record {
    status = 0;
    printed = some output;
    error = none;
    sent = c.sent;
  }

  abbrev pub run_parsed : Text → Parsed Options → Exit net.Listed
  run_parsed command (failed help) = usage 0
  run_parsed command (failed bad_flag) = usage 2
  run_parsed command (parsed o) = exit_with (run_command command (new_client o.server) o)

  -- `main`, for `os.Args[1:]`. `flag.ExitOnError` ends with 0 for a call for help and else with 2.
  unfoldable pub lockctl : (Text → Option Duration) → List Text → Exit net.Listed
  unfolding run_command parse_flags assign_option
  lockctl parse_duration [] = usage 2
  lockctl parse_duration (command ∷ args) =
      run_parsed command
        (parse_flags option_kind (assign_option parse_duration) none default_options args)
