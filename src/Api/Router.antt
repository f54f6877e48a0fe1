-- ===== src/Api/Router.antt =====
-- internal/api/router.go: the dispatch of a request, and the pages that are not about one lock.
use lockd.Prelude.{
  ℕ, ◌-◌, ◌/◌, Bool, true, false, ◌&&◌, ◌||◌, not, Option, some, none, List, [], ◌∷◌, ◌++◌, Text,
  text, text_eq, is_empty, ◌==◌, if◌then◌else◌, pos,
}
use lockd.Lock.Errors.{Error}
use lockd.Lock.Types.{Time, Event}
use lockd.Lock.Notify.{subscribe, unsubscribe}
use lockd.Lock.Listing.{stats}
use lockd.Lock.Service.{Service}
use lockd.Strings.{split, trim_prefix, has_prefix}
use lockd.Api.Types.{Codec, Request, Response, health, metrics, empty}
use lockd.Api.Responses.{method_not_allowed}
use lockd.Api.Handlers.{Reply, answered, streaming, handle_locks, route_parts}

-- A segment that `path.Clean` removes or resolves.
abbrev pub is_dotted : Text → Bool
is_dotted part = is_empty part || part == text "." || part == text ".."

-- The segments after the first slash; the last may be empty.
abbrev pub clean_parts : List Text → Bool
clean_parts [] = true
clean_parts (part ∷ []) = is_empty part || not (is_dotted part)
clean_parts (part ∷ parts) = not (is_dotted part) && clean_parts parts

abbrev after_root : List Text → Bool
after_root [] = false
after_root (root ∷ parts) = is_empty root && clean_parts parts

-- A path that `http.ServeMux` takes as it is, since `cleanPath` does not change it.
unfoldable pub is_clean : Text → Bool
unfolding split
is_clean path = after_root (split b'/' path)

-- `http.ServeMux` redirects to the clean path.
abbrev pub moved : Response
moved = record { status = 301; content = empty }

abbrev pub page_not_found : Response
page_not_found = record { status = 404; content = empty }

-- `handleEvents` up to its loop. The writer is always a flusher: `statusWriter` has the method.
unfoldable pub handle_events : Service → Request → Service × Reply
handle_events s r =
    if not (r.method == text "GET")
    then (s, answered method_not_allowed)
    else let (bus, id) = subscribe s.shared.bus (pos 64) in
      (
        record s { shared = record (s.shared) { bus = bus } },
        streaming id (r.query (text "namespace")),
      )

-- The `cancel` that `handleEvents` defers, when the client is gone or a write fails.
unfoldable pub close_stream : Service → ℕ → Service
close_stream s id = record s { shared = record (s.shared) { bus = unsubscribe s.shared.bus id } }

unfoldable pub handle_metrics : Service → Request → Time → Service × Reply
handle_metrics s r now =
    if not (r.method == text "GET")
    then (s, answered method_not_allowed)
    else let n = stats s.registry now in
      (s, answered (record { status = 200; content = metrics s.shared.metrics n.0 n.1 n.2 }))

-- `handleHealth`, for the time at which the service was made, which is not after `now`.
unfoldable pub handle_health : Time → Service → Request → Time → Service × Reply
handle_health started s r now =
    if not (r.method == text "GET")
    then (s, answered method_not_allowed)
    else let n = stats s.registry now in
      (
        s,
        answered (record {
          status = 200;
          content = health (pos ((now - started) / 1_000_000_000)) n.0 n.1;
        }),
      )

abbrev pub serve_file : Service → Request → Option (Request → Response) → Service × Reply
serve_file s r none = (s, answered page_not_found)
serve_file s r (some files) = (s, answered (files r))

module _ (rand : ℕ → Option (List ℕ)) (codec : Codec) where
  -- `handleLockPath`.
  unfoldable pub handle_lock_path : Service → Option Error → Request → Time → Service × Reply
  unfolding route_parts
  handle_lock_path s ctx_err r now =
      route_parts rand codec s ctx_err r (split b'/' (trim_prefix r.path (text "/api/v1/locks/")))
        now

  -- The mux of `Handler`; `files` is the file server of the web console, if there is one.
  unfoldable pub dispatch :
      Time → Option (Request → Response) → Service → Option Error → Request → Time → Service × Reply
  unfolding handle_lock_path handle_events handle_metrics handle_health is_clean
  dispatch started files s ctx_err r now =
      if not (is_clean r.path)
      then (s, answered moved)
      else if r.path == text "/api/v1/locks"
      then handle_locks codec s r now
      else if has_prefix r.path (text "/api/v1/locks/")
      then handle_lock_path s ctx_err r now
      else if r.path == text "/api/v1/events"
      then handle_events s r
      else if r.path == text "/api/v1/metrics"
      then handle_metrics s r now
      else if r.path == text "/api/v1/healthz"
      then handle_health started s r now
      else serve_file s r files

-- `encodeSSE`, for the JSON of the value.
unfoldable pub sse_frame : Text → Text → Text
sse_frame event json = text "event: " ++ (event ++ (10 ∷ (text "data: " ++ (json ++ 10 ∷ 10 ∷ []))))

-- What the loop of `handleEvents` writes for a tick of its timer, for the JSON of the time.
unfoldable pub stream_heartbeat : Text → Text
unfolding sse_frame
stream_heartbeat json = sse_frame (text "heartbeat") json

-- What the loop of `handleEvents` writes for an event.
unfoldable pub stream_event : (Event → Text) → Text → Event → Text
unfolding sse_frame
stream_event to_json namespace event =
    if not (is_empty namespace) && not (event.namespace == namespace)
    then []
    else sse_frame (text "lock") (to_json event)
