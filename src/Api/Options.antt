-- ===== src/Api/Options.antt =====
-- internal/api/handlers.go: what the handlers make of the bodies of requests, and the limits that
-- they put on waits.
use lockd.Prelude.{
  ℕ, ◌*◌, Bool, true, ◌||◌, not, Option, some, none, Text, text, text_eq, is_empty, nat_eq,
  if◌then◌else◌, pos, leb_ℤ, ltb_ℤ,
}
use lockd.Lock.Errors.{Result, ok, err}
use lockd.Lock.Types.{Duration, CreateOptions, AcquireOptions}
use lockd.Api.Types.{AcquireRequest, WatchRequest, Codec}
use lockd.Api.Responses.{invalid, decode_json}

abbrev pub minutes : ℕ → Duration
minutes n = pos (n * 60_000_000_000)

abbrev pub optional_duration : Option Duration → Result Duration
optional_duration none = err (invalid (text "invalid duration"))
optional_duration (some d) =
    if ltb_ℤ d (pos 0) then err (invalid (text "invalid duration")) else ok d

-- `parseOptionalDuration`.
unfoldable pub parse_optional_duration : Codec → Text → Result Duration
parse_optional_duration codec value =
    if is_empty value then ok (pos 0) else optional_duration (codec.parse_duration value)

abbrev pub wait_limit : Option Duration → Result (Option Duration)
wait_limit none = err (invalid (text "invalid wait_timeout"))
wait_limit (some d) =
    if ltb_ℤ d (pos 0) || ltb_ℤ (minutes 5) d
    then err (invalid (text "invalid wait_timeout"))
    else ok (some (if ltb_ℤ (pos 0) d then d else minutes 10))

-- The limit that `acquire` puts on its context, if it does.
unfoldable pub acquire_limit : Codec → AcquireRequest → Result (Option Duration)
acquire_limit codec request =
    if not request.wait
    then ok none
    else if is_empty request.wait_timeout
    then ok (some (minutes 10))
    else wait_limit (codec.parse_duration request.wait_timeout)

abbrev pub event_limit : Option Duration → Result Duration
event_limit none = err (invalid (text "invalid timeout"))
event_limit (some d) =
    if leb_ℤ d (pos 0) || ltb_ℤ (minutes 10) d then err (invalid (text "invalid timeout")) else ok d

-- The limit that `watch` puts on its context.
unfoldable pub watch_limit : Codec → WatchRequest → Result Duration
watch_limit codec request =
    if is_empty request.timeout
    then ok (minutes 1)
    else event_limit (codec.parse_duration request.timeout)

infixl 5 ◌>>=◌
abbrev pub ◌>>=◌ {ℓ κ} : {A : Type ℓ} {B : Type κ} → Result A → (A → Result B) → Result B
ok a >>= f = f a
err e >>= f = err e

abbrev reentrant_of : Option Bool → Bool
reentrant_of none = true
reentrant_of (some b) = b

unfoldable pub create_options : Codec → Text → Result CreateOptions
unfolding decode_json parse_optional_duration
create_options codec body = do
  request ← decode_json codec.decode_create body
  ttl ← parse_optional_duration codec request.ttl
  cleanup ← parse_optional_duration codec request.auto_cleanup
  ok (record {
    namespace = request.namespace;
    name = request.name;
    reentrant = reentrant_of request.reentrant;
    max_depth = request.max_depth;
    default_ttl = ttl;
    auto_cleanup = cleanup;
  })

unfoldable pub acquire_options : Codec → Text → Result (AcquireOptions × Option Duration)
unfolding decode_json parse_optional_duration acquire_limit
acquire_options codec body = do
  request ← decode_json codec.decode_acquire body
  ttl ← parse_optional_duration codec request.ttl
  limit ← acquire_limit codec request
  ok (
    record {
      holder = request.holder;
      request_id = request.request_id;
      ttl = ttl;
      wait = request.wait;
    },
    limit,
  )

unfoldable pub renew_options : Codec → Text → Result (Text × Duration)
unfolding decode_json parse_optional_duration
renew_options codec body = do
  request ← decode_json codec.decode_renew body
  ttl ← parse_optional_duration codec request.ttl
  ok (request.token, ttl)

unfoldable pub steal_options : Codec → Text → Result (Text × Duration)
unfolding decode_json parse_optional_duration
steal_options codec body = do
  request ← decode_json codec.decode_steal body
  ttl ← parse_optional_duration codec request.ttl
  ok (request.holder, ttl)

unfoldable pub watch_options : Codec → Text → Result Duration
unfolding decode_json watch_limit
watch_options codec body = do
  request ← decode_json codec.decode_watch body
  watch_limit codec request
