-- ===== src/Config.antt =====
-- internal/config/config.go: the configuration of the server. The environment, `time.ParseDuration`
-- and the integers of package flag (`strconv.ParseInt` with base 0) are parameters.
pub mod Namespaces
use lockd.Prelude.{
  ℕ, Bool, true, false, ◌&&◌, ◌||◌, Option, some, none, List, [], ◌∷◌, Text, text, text_eq,
  is_empty, ◌==◌, if◌then◌else◌, ℤ, pos, ltb_ℤ,
}
use lockd.Lock.Types.{Duration}
use lockd.Strings.{split, join, trim_space, atoi}
use lockd.Flags.{FlagError, Kind, unknown, valued, Parsed, parsed, failed, parse_flags}

pub record Config : Type 0 where
  pub addr : Text
  pub force_token : Text
  pub namespaces : List Text
  pub namespace_quota : ℤ
  pub default_ttl : Duration
  pub expire_interval : Duration
  pub shutdown_timeout : Duration
  pub log_level : Text

-- `Default`.
abbrev pub default_config : Config
default_config = record {
  addr = text "127.0.0.1:8080";
  force_token = [];
  namespaces = [];
  namespace_quota = pos 100_000;
  default_ttl = pos 30_000_000_000;
  expire_interval = pos 500_000_000;
  shutdown_timeout = pos 5_000_000_000;
  log_level = text "info";
}

abbrev pub items : List Text → List Text
items [] = []
items (part ∷ parts) =
    let item = trim_space part in
    let rest = items parts in if is_empty item then rest else item ∷ rest

unfoldable pub split_list : Text → List Text
split_list value = if is_empty (trim_space value) then [] else items (split b',' value)

abbrev pub positive_or : Duration → Option Duration → Duration
positive_or target none = target
positive_or target (some d) = if ltb_ℤ (pos 0) d then d else target

abbrev pub quota_or : ℤ → ℤ × Bool → ℤ
quota_or target (n, good) = if good && ltb_ℤ (pos 0) n then n else target

module _ (env : Text → Text) (parse_duration : Text → Option Duration)
    (parse_int : Text → Option ℤ) where
  unfoldable pub set_string : Text → Text → Text
  set_string name target = let value = env name in if is_empty value then target else value

  unfoldable pub set_duration : Text → Duration → Duration
  set_duration name target =
      let value = env name in
      if is_empty value then target else positive_or target (parse_duration value)

  unfoldable pub apply_environment : Config → Config
  unfolding set_string set_duration split_list
  apply_environment cfg =
      let namespaces = env (text "LOCKD_NAMESPACES") in
      let quota = env (text "LOCKD_NAMESPACE_QUOTA") in
      record {
        addr = set_string (text "LOCKD_ADDR") cfg.addr;
        force_token = set_string (text "LOCKD_FORCE_TOKEN") cfg.force_token;
        namespaces = if is_empty namespaces then cfg.namespaces else split_list namespaces;
        namespace_quota =
            if is_empty quota
            then cfg.namespace_quota
            else quota_or cfg.namespace_quota (atoi quota);
        default_ttl = set_duration (text "LOCKD_DEFAULT_TTL") cfg.default_ttl;
        expire_interval = set_duration (text "LOCKD_EXPIRE_INTERVAL") cfg.expire_interval;
        shutdown_timeout = set_duration (text "LOCKD_SHUTDOWN_TIMEOUT") cfg.shutdown_timeout;
        log_level = set_string (text "LOCKD_LOG_LEVEL") cfg.log_level;
      }

  abbrev flag_kind : Text → Kind
  flag_kind name =
      if name == text "addr"
        || name == text "force-token"
        || name == text "namespaces"
        || name == text "namespace-quota"
        || name == text "default-ttl"
        || name == text "expire-interval"
        || name == text "shutdown-timeout"
        || name == text "log-level"
      then valued
      else unknown

  abbrev with_int : Option ℤ → (ℤ → Config × Text) → Option (Config × Text)
  with_int none update = none
  with_int (some n) update = some (update n)

  -- The variables that the flags are bound to: the configuration, and the list of the namespaces as
  -- a text of its own.
  unfoldable pub assign_flag : Text → Text → Config × Text → Option (Config × Text)
  assign_flag name value (cfg, namespaces) =
      if name == text "addr"
      then some (record cfg { addr = value }, namespaces)
      else if name == text "force-token"
      then some (record cfg { force_token = value }, namespaces)
      else if name == text "namespaces"
      then some (cfg, value)
      else if name == text "namespace-quota"
      then with_int (parse_int value) (λ n. (record cfg { namespace_quota = n }, namespaces))
      else if name == text "default-ttl"
      then with_int (parse_duration value) (λ d. (record cfg { default_ttl = d }, namespaces))
      else if name == text "expire-interval"
      then with_int (parse_duration value) (λ d. (record cfg { expire_interval = d }, namespaces))
      else if name == text "shutdown-timeout"
      then with_int (parse_duration value) (λ d. (record cfg { shutdown_timeout = d }, namespaces))
      else if name == text "log-level"
      then some (record cfg { log_level = value }, namespaces)
      else none

  abbrev finish : Parsed (Config × Text) → Parsed Config
  finish (parsed (cfg, namespaces)) = parsed (record cfg { namespaces = split_list namespaces })
  finish (failed e) = failed e

  -- `Parse`.
  unfoldable pub parse_config : List Text → Parsed Config
  unfolding apply_environment assign_flag split_list parse_flags
  parse_config args =
      let cfg = apply_environment default_config in
      finish (parse_flags flag_kind assign_flag none (cfg, join (text ",") cfg.namespaces) args)
