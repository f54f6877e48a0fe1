-- ===== src/Api/Checks.antt =====
-- The theorems on the HTTP API at concrete requests.
use lockd.Prelude.{
  ◌≡◌, refl, true, false, Bool, nat_eq, lookup, ◌++◌, Option, some, none, List, [], ◌∷◌, Text, text,
  text_eq, text_beq, pos, is_empty, if◌then◌else◌,
}
use lockd.Lock.Registry.{View, snapshot, new_registry, valid_name, all_name_chars, is_name_char}
use lockd.Lock.Service.{Service, new_service}
use lockd.Lock.Checks.Samples.{seconds, counting, held_lock, waiting_bob}
use lockd.Strings.{cut_prefix, split, path_escape, is_path_char, unescape_from}
use lockd.Client.Types.{lock_path}
use lockd.Api.Types.{Codec, AcquireRequest, WatchRequest, Request}
use lockd.Api.Responses.{decode_json}
use lockd.Api.Handlers.{streaming, handle_locks, operate, steal_handler}
use lockd.Api.Router.{
  handle_lock_path, dispatch, handle_events, sse_frame, stream_event, stream_heartbeat,
}
use lockd.Api.Streams.{StreamTurn, sends, receives, beats, leaves, stream_run}
use lockd.Api.Streams.Written.{stream_text, events_streamed}
use lockd.Lock.Types.{Event, EventKind}
use lockd.Api.Refusals.{
  IsRefused, Leaves, IsUnreadable, bad_body_changes_nothing, steal_needs_force_token,
}
use lockd.Api.Routes.{requests_reach_locks}

abbrev read {ℓ} : {A : Type ℓ} → A → Text → Option A × Bool
read a body = if is_empty body then (none, true) else (some a, true)

abbrev wait_request : AcquireRequest
wait_request = record {
  holder = text "alice";
  request_id = [];
  ttl = text "30s";
  wait = true;
  wait_timeout = text "30s";
}

abbrev watch_request : WatchRequest
watch_request = record { holder = []; request_id = []; timeout = text "30s" }

-- It reads any body but the empty one.
abbrev pub codec : Codec
codec = record {
  parse_duration = λ value. some (pos 30_000_000_000);
  decode_create = read (record {
    namespace = text "jobs";
    name = text "daily";
    reentrant = none;
    max_depth = pos 0;
    ttl = [];
    auto_cleanup = [];
  });
  decode_acquire = read wait_request;
  decode_renew = read (record { token = text "tk_1"; ttl = [] });
  decode_release = read (record { token = text "tk_1"; request_id = [] });
  decode_watch = read watch_request;
  decode_steal = read (record { holder = text "bob"; ttl = []; reason = [] });
}

abbrev service : Service
service = new_service (new_registry [] (pos 0) (pos 0)) none none (text "secret")

abbrev post : Text → Text → Request
post path body = record {
  method = text "POST";
  path = path;
  query = λ name. [];
  force_token = text "guess";
  body = body;
}

abbrev pub acquire_request : Request
acquire_request = post (text "/api/v1/locks/jobs/daily/acquire") (text "{}")

empty_body-IsUnreadable : IsUnreadable codec []
unfolding decode_json
empty_body-IsUnreadable = record {
  bad_create = (_, refl, refl);
  bad_acquire = (_, refl, refl);
  bad_renew = (_, refl, refl);
  bad_release = (_, refl, refl);
  bad_watch = (_, refl, refl);
  bad_steal = (_, refl, refl);
}

abbrev empty_request : Request
empty_request = post (text "/api/v1/locks/jobs/daily/acquire") []

bad_body_changes_nothing_example :
    Leaves service (handle_locks codec service empty_request (seconds 1)) 400
    × Leaves service (handle_lock_path counting codec service none empty_request (seconds 1)) 400
unfolding text text_beq cut_prefix split
bad_body_changes_nothing_example =
    bad_body_changes_nothing counting codec service none empty_request (text "jobs") (text "daily")
      (text "acquire") [] (seconds 1) refl refl empty_body-IsUnreadable

steal_needs_force_token_example :
    IsRefused service
      (steal_handler counting codec service acquire_request
        (text "jobs")
        (text "daily")
        (seconds 1))
      400
      403
unfolding text text_beq new_service
steal_needs_force_token_example =
    steal_needs_force_token counting codec service acquire_request (text "jobs") (text "daily")
      (seconds 1) refl

requests_reach_locks_example :
    dispatch counting codec 0 none service none acquire_request (seconds 1)
    ≡ operate counting codec service none acquire_request
        (text "jobs")
        (text "daily")
        (text "acquire")
        (seconds 1)
unfolding text text_beq valid_name all_name_chars is_name_char lock_path path_escape is_path_char
    unescape_from
requests_reach_locks_example =
    requests_reach_locks counting codec 0 none service none acquire_request (text "jobs")
      (text "daily") (text "acquire") (seconds 1) refl refl refl refl refl refl

abbrev view : Text → View
view name = snapshot (record held_lock { name = name }) (seconds 110)

abbrev three_views : List View
three_views = view (text "a") ∷ view (text "b") ∷ view (text "c") ∷ []

-- A lock that alice holds, for which bob waits.
abbrev contended : Service
contended = record service {
  registry = record (service.registry) {
    heap = record held_lock { waiters = waiting_bob ∷ []; queue = 0 ∷ [] } ∷ [];
  };
}

abbrev event_of : Text → Event
event_of namespace = record {
  lock = namespace ++ text ":daily";
  namespace = namespace;
  event = EventKind.released;
  reason = text "release";
  at = seconds 1;
  seq = 1;
}

-- Two events are sent, one of them of another namespace; the timer ticks, and the client leaves.
abbrev stream_turns : List StreamTurn
stream_turns =
    sends (event_of (text "jobs"))
    ∷ sends (event_of (text "other"))
    ∷ receives true
    ∷ receives true
    ∷ beats (text "{}") true
    ∷ leaves
    ∷ []

abbrev events_request : Request
events_request = record {
  method = text "GET";
  path = text "/api/v1/events";
  query = λ name. text "jobs";
  force_token = [];
  body = [];
}

events_streamed_example :
    let (s', reply) = handle_events service events_request in
    let id = s'.shared.bus.next_id in
    let run =
      stream_run
        (λ event. text "{}")
        id
        (text "jobs")
        (record { bus = s'.shared.bus; out = []; running = true })
        stream_turns in
    (reply ≡ streaming id (text "jobs"))
    × (run.out ≡ stream_text (λ event. text "{}") (text "jobs") 64 [] stream_turns)
    × (run.running ≡ false → lookup id run.bus.subs ≡ none)
unfolding text text_beq
events_streamed_example =
    events_streamed (λ event. text "{}") service events_request stream_turns refl

-- What it writes.
stream_frames :
    stream_text (λ event. text "{}") (text "jobs") 64 [] stream_turns
    ≡ sse_frame (text "lock") (text "{}") ++ sse_frame (text "heartbeat") (text "{}")
unfolding stream_text stream_event stream_heartbeat text text_beq sse_frame
stream_frames = refl
