-- ===== src/Lockd/Runs.antt =====
-- The running server: requests over HTTP, passes of the expirer, and what goes on between them.
use lockd.Prelude.{
  ℕ, ◌≡◌, ap, subst, true, false, ℤ, Option, some, List, [], ◌∷◌, Bool, Text, get_elem?,
}
use lockd.Lock.Errors.{Error}
use lockd.Lock.Notify.{Bus, new_bus}
use lockd.Lock.Types.{Time, Duration}
use lockd.Lock.Service.{Service}
use lockd.Lock.Expirer.{expire_items, expire_pass, scan_at}
use lockd.Lock.Registry.{all_records}
use lockd.Lock.System.{Inv, Step, scans}
use lockd.Lock.System.Invariant.{Step-Inv, share-Inv, new_service-Inv}
use lockd.Api.Types.{Codec, Request, Response}
use lockd.Api.Router.{dispatch}
use lockd.Api.Invariant.{dispatch-Inv}
use lockd.Flags.{Parsed, parsed, failed}
use lockd.Config.{Config, parse_config}
use lockd.Lockd.{Server, Start, exits, serves, build_service, new_metrics, start, run_expirer}

-- The service with another bus.
abbrev pub hear : Service → Bus → Service
hear s bus = record s { shared = record (s.shared) { bus = bus } }

module _ (rand : ℕ → Option (List ℕ)) (codec : Codec) (files : Option (Request → Response)) where
  -- What can happen to the service of a server that was started at a time: a request is answered or
  -- begins to wait, the expirer makes passes, critical sections run on their own, with which waits for
  -- locks end and which other requests may interleave, and subscribers receive events or leave,
  -- which changes the bus in any way.
  pub data Runs (started : Time) (s : Service) : Service → Type 0 where
    idle : Runs started s s
    requested :
        {t : Service} (ctx_err : Option Error) (r : Request) (now : Time)
        → Runs started s t
        → Runs started s (dispatch rand codec started files t ctx_err r now).0
    ticked :
        {t : Service} (ticks : List Time)
        → Runs started s t
        → Runs started s (run_expirer rand t ticks)
    heard : {t : Service} (bus : Bus) → Runs started s t → Runs started s (hear t bus)
    stepped : {t u : Service} → Step rand t u → Runs started s t → Runs started s u

  expire_items-Inv :
      (s : Service) (items : List ℕ) (now : Time) → Inv s → Inv (expire_items rand s items now)
  unfolding expire_items
  expire_items-Inv s [] now v = v
  expire_items-Inv s (a ∷ items) now v =
      expire_items-Inv (scan_at rand s a (get_elem? s.registry.heap a) now) items now
        (Step-Inv rand (scans a now) v)

  run_expirer-Inv : (s : Service) (ticks : List Time) → Inv s → Inv (run_expirer rand s ticks)
  unfolding run_expirer expire_pass
  run_expirer-Inv s [] v = v
  run_expirer-Inv s (now ∷ ticks) v =
      run_expirer-Inv (expire_pass rand s now) ticks
        (expire_items-Inv s (all_records s.registry) now v)

  Runs-Inv : {started : Time} {s t : Service} → Inv s → Runs started s t → Inv t
  Runs-Inv v idle = v
  Runs-Inv {started} v (requested ctx_err r now runs) =
      dispatch-Inv rand codec _ (Runs-Inv v runs) started files ctx_err r now
  Runs-Inv v (ticked ticks runs) = run_expirer-Inv _ ticks (Runs-Inv v runs)
  Runs-Inv v (heard bus runs) = share-Inv _ (Runs-Inv v runs)
  Runs-Inv v (stepped st runs) = Step-Inv rand st (Runs-Inv v runs)

  build_service-Inv : (cfg : Config) → Inv (build_service cfg)
  unfolding build_service
  build_service-Inv cfg =
      new_service-Inv cfg.namespaces cfg.namespace_quota cfg.default_ttl (some new_bus)
        (some new_metrics) cfg.force_token

  abbrev service_of : Service → Start → Service
  service_of s (exits status log) = s
  service_of s (serves server) = server.service

  start-Inv :
      (line : Option Text) (assets : Bool) (p : Parsed Config) (server : Server)
      → start line assets p ≡ serves server
      → Inv server.service
  unfolding start
  start-Inv line assets (failed e) server h = absurd (cc)
  start-Inv line false (parsed cfg) server h = absurd (cc)
  start-Inv line true (parsed cfg) server h =
      subst Inv (ap (service_of server.service) h) (build_service-Inv cfg)

  -- Once main serves, for any environment and flags, the invariant of the service holds whatever
  -- requests arrive, also those that are refused, and whenever the expirer runs.
  pub server-Inv :
      (line : Option Text) (assets : Bool) (env : Text → Text)
      (parse_duration : Text → Option Duration) (parse_int : Text → Option ℤ) (args : List Text)
      (server : Server) (started : Time) {t : Service}
      → start line assets (parse_config env parse_duration parse_int args) ≡ serves server
      → Runs started server.service t
      → Inv t
  server-Inv line assets env parse_duration parse_int args server started h runs =
      Runs-Inv (start-Inv line assets (parse_config env parse_duration parse_int args) server h)
        runs
