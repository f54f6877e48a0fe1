-- ===== src/Lockd.antt =====
-- cmd/lockd/main.go: how the server is put together, and how it ends. Signals, the listener and the
-- files of the web console are outside; the JSON of a log record is a parameter.
pub mod Runs
use lockd.Prelude.{
  ℕ, ◌*◌, Bool, true, false, Option, some, none, List, [], ◌∷◌, Text, text, pos, leb_ℤ,
  if◌then◌else◌,
}
use lockd.Metrics.{Metrics}
use lockd.Lock.Types.{Time, Duration}
use lockd.Lock.Notify.{new_bus}
use lockd.Lock.Registry.{new_registry}
use lockd.Lock.Service.{Service, new_service}
use lockd.Lock.Expirer.{expire_pass}
use lockd.Logger.{Logger, new_logger, log, info, warn, error}
use lockd.Flags.{Parsed, parsed, failed}
use lockd.Config.{Config, parse_config}

pub record Server : Type 0 where
  pub addr : Text
  pub read_header_timeout : Duration
  pub service : Service
  pub log : Logger
  pub expire_interval : Duration
  pub shutdown_timeout : Duration

-- The process ends at once with a status, or serves.
pub data Start : Type 0 where
  exits : ℕ → Logger → Start
  serves : Server → Start

abbrev pub new_metrics : Metrics
new_metrics = record {
  acquire = 0;
  acquire_locked = 0;
  renew = 0;
  renew_fail = 0;
  expiry = 0;
  steal = 0;
  notify = 0;
}

-- The first lines of `RunExpirer`: the time between two ticks.
unfoldable pub scan_interval : Duration → Duration
scan_interval interval = if leb_ℤ interval (pos 0) then pos 500_000_000 else interval

-- The loop of `RunExpirer`: a pass at every tick, until the context is done.
unfoldable pub run_expirer : (ℕ → Option (List ℕ)) → Service → List Time → Service
run_expirer rand s [] = s
run_expirer rand s (now ∷ ticks) = run_expirer rand (expire_pass rand s now) ticks

-- `NewService` and `NewRegistry` for a configuration.
unfoldable pub build_service : Config → Service
unfolding new_service new_registry
build_service cfg =
    new_service (new_registry cfg.namespaces cfg.namespace_quota cfg.default_ttl) (some new_bus)
      (some new_metrics) cfg.force_token

-- `main` up to `ListenAndServe`; `assets` says whether `fs.Sub` worked, and `line` is the JSON of the
-- record that is logged.
unfoldable pub start : Option Text → Bool → Parsed Config → Start
unfolding build_service scan_interval new_logger log
start line assets (failed e) = exits 2 (record { out = []; level = 1 })
start line false (parsed cfg) = exits 1 (error (new_logger cfg.log_level) line)
start line true (parsed cfg) = serves (record {
  addr = cfg.addr;
  read_header_timeout = pos (5 * 1_000_000_000);
  service = build_service cfg;
  log = info (new_logger cfg.log_level) line;
  expire_interval = scan_interval cfg.expire_interval;
  shutdown_timeout = cfg.shutdown_timeout;
})

-- The goroutine that calls `Shutdown` when a signal has come, for whether that worked.
unfoldable pub shut_down : Option Text → Bool → Logger → Logger
unfolding log
shut_down line true l = l
shut_down line false l = warn l line

-- The end of `main`, after `ListenAndServe`: `closed` says whether its error is none or
-- `http.ErrServerClosed`. The status of the process and its log.
unfoldable pub finish : Option Text → Bool → Logger → ℕ × Logger
unfolding log
finish line true l = (0, info l line)
finish line false l = (1, error l line)
