-- ===== src/Checks.antt =====
-- The theorems on the configuration, the logger and the commands at concrete inputs.
use lockd.Prelude.{
  ◌≡◌, inl, inr, refl, true, Option, none, [], ◌∷◌, Text, text, text_eq, text_beq, ◌==◌, ℤ, pos,
  if◌then◌else◌, arith, contains, All, some,
}
use lockd.Metrics.{Metrics}
use lockd.Metrics.Page.{write_prometheus, counters}
use lockd.Metrics.Reading.{read_value, metrics_readable}
use lockd.Lock.Types.{Duration}
use lockd.Lock.System.{Inv}
use lockd.Lock.Checks.Samples.{seconds, counting}
use lockd.Strings.{to_lower, split, join, trim_space, trim_left, trim_right}
use lockd.Flags.{parsed, parse_flags, read_argument, cut_value}
use lockd.Config.{
  Config, default_config, apply_environment, parse_config, set_string, set_duration, split_list,
}
use lockd.Config.Namespaces.{parse_without_flags}
use lockd.Logger.{level_of, new_logger}
use lockd.Lockctl.{lockctl, assign_option}
use lockd.Lockctl.Refusals.{HasRefused, lockctl_checks_first}
use lockd.Lockd.{Server, start, run_expirer, build_service, scan_interval}
use lockd.Lockd.Runs.{idle, requested, ticked, server-Inv}
use lockd.Api.Checks.{codec, acquire_request}
use lockd.Api.Router.{dispatch}
use lockd.Client.Checks.{flaky}

-- Two namespaces, and a term that is no duration.
abbrev environment : Text → Text
environment name =
    if name == text "LOCKD_NAMESPACES"
    then text " jobs, ,mail "
    else if name == text "LOCKD_DEFAULT_TTL"
    then text "soon"
    else []

abbrev no_duration : Text → Option Duration
no_duration value = none

abbrev no_int : Text → Option ℤ
no_int value = none

parse_without_flags_example :
    parse_config environment no_duration no_int []
    ≡ parsed (apply_environment environment no_duration no_int default_config)
parse_without_flags_example = parse_without_flags environment no_duration no_int

lockctl_checks_first_example :
    HasRefused (lockctl flaky no_duration (text "renew" ∷ text "-name=daily" ∷ [])) 1
unfolding parse_flags read_argument cut_value assign_option text text_beq
lockctl_checks_first_example =
    lockctl_checks_first flaky no_duration (text "renew") (text "-name=daily" ∷ []) _ refl
      (inr (inl refl, refl))

abbrev config : Config
config = record default_config { namespaces = text "jobs" ∷ text "mail" ∷ [] }

abbrev server : Server
server = record {
  addr = config.addr;
  read_header_timeout = pos 5_000_000_000;
  service = build_service config;
  log = record { out = []; level = 1 };
  expire_interval = pos 500_000_000;
  shutdown_timeout = pos 5_000_000_000;
}

-- It answers a request, and the expirer makes two passes.
server-Inv_example : Inv (
    run_expirer counting
      (dispatch counting codec (seconds 1) none server.service none acquire_request (seconds 2)).0
      (seconds 3 ∷ seconds 4 ∷ []))
unfolding start scan_interval parse_config parse_flags apply_environment set_string set_duration
    split_list split join trim_space trim_left trim_right text text_beq new_logger level_of to_lower
server-Inv_example =
    server-Inv counting codec none none true environment no_duration no_int [] server (seconds 1)
      refl (ticked (seconds 3 ∷ seconds 4 ∷ []) (requested none acquire_request (seconds 2) idle))

abbrev counters_of : Metrics
counters_of = record {
  acquire = 12;
  acquire_locked = 3;
  renew = 40;
  renew_fail = 0;
  expiry = 1;
  steal = 0;
  notify = 205;
}

abbrev page_of : Text
page_of = write_prometheus (λ s. text "'jobs'") counters_of 7 2 ((text "jobs", 7) ∷ [])

metrics_readable_example :
    (read_value (text "lockd_waiters_total") page_of ≡ some 2)
    × All (λ c. read_value c.0 page_of ≡ some c.1) (counters counters_of)
unfolding contains text
metrics_readable_example =
    metrics_readable (λ s. text "'jobs'") counters_of 7 2 ((text "jobs", 7) ∷ []) (λ s. refl)
      (omega arith)
      (
        omega arith,
        (
          omega arith,
          (omega arith, (omega arith, (omega arith, (omega arith, (omega arith, tt))))),
        ),
      )
