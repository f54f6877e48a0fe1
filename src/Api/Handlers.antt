-- ===== src/Api/Handlers.antt =====
-- internal/api/handlers.go: the handlers of the locks. `now` is the clock that a call reads and
-- `ctx_err` the error of the request's context at that time.
use lockd.Prelude.{
  ℕ, ◌&&◌, ◌||◌, not, Option, List, [], ◌∷◌, Text, text, text_eq, is_empty, nat_eq, leb, ◌==◌,
  if◌then◌else◌, ℤ, pos, pos_part, ltb_ℤ, length, take, drop,
}
use lockd.Lock.Errors.{Error, Result, ok, err, err_not_found}
use lockd.Lock.Types.{Time, Duration}
use lockd.Lock.Registry.{View, get_view}
use lockd.Lock.Acquire.{AcquireStep, returned, waiting}
use lockd.Lock.Watch.{WatchStep, ended, watching, watch_begin}
use lockd.Lock.Listing.{list}
use lockd.Lock.Service.{Service, create_lock, acquire, renew, release, steal, delete_lock}
use lockd.Strings.{atoi}
use lockd.Api.Types.{
  Codec, Request, Response, Payload, deleted, created, viewed, acquired, renewed, released, noticed,
  views,
}
use lockd.Api.Options.{create_options, acquire_options, renew_options, steal_options, watch_options}
use lockd.Api.Responses.{write_ok, write_error, decode_json, method_not_allowed}

-- What a handler has done: it answered, or it waits for a lock, with the limit of its context, or
-- for an event, or streams the events of a namespace.
pub data Reply : Type 0 where
  answered : Response → Reply
  acquiring : ℕ → Option Duration → Reply
  noticing : ℕ → Text → Duration → Reply
  streaming : ℕ → Text → Reply

-- `strconv.Atoi` with its error dropped.
abbrev pub number_of : Text → ℤ
number_of s = (atoi s).0

-- The slices of `listLocks`.
unfoldable pub page : List View → ℤ → ℤ → List View
page vs offset limit =
    let start = pos_part offset in
    let rest = if leb (length vs) start then [] else drop start vs in
    if ltb_ℤ (pos 0) limit && ltb_ℤ limit (pos (length rest))
    then take (pos_part limit) rest
    else rest

unfoldable pub list_locks : Service → Request → Time → Response
unfolding page
list_locks s r now = record {
  status = 200;
  content = views (
      page (list s.registry (r.query (text "namespace")) (r.query (text "state")) now)
        (number_of (r.query (text "offset"))) (number_of (r.query (text "limit"))));
}

-- What a handler writes for the end of a call.
abbrev pub respond {ℓ} : {A : Type ℓ} → (A → Payload) → Result A → Response
respond show (ok a) = write_ok (show a)
respond show (err e) = write_error e

abbrev pub reply {ℓ} : {A : Type ℓ} → (A → Payload) → Service × Result A → Service × Reply
reply show (s, r) = (s, answered (respond show r))

abbrev pub acquire_reply : Option Duration → Service × AcquireStep → Service × Reply
acquire_reply limit (s, returned r) = (s, answered (respond acquired r))
acquire_reply limit (s, waiting w) = (s, acquiring w limit)

-- A handler whose request is refused before it calls the service leaves it alone.
abbrev pub checked {ℓ} : {A : Type ℓ} → Service → Result A → (A → Service × Reply) → Service × Reply
checked s (ok a) call = call a
checked s (err e) call = (s, answered (write_error e))

-- `createLock`.
unfoldable pub create_handler : Codec → Service → Request → Time → Service × Reply
unfolding create_options
create_handler codec s r now =
    checked s (create_options codec r.body) (λ options.
      reply (λ (v : View). created v.full_name v.created_at) (create_lock s options now))

unfoldable pub handle_locks : Codec → Service → Request → Time → Service × Reply
unfolding create_handler list_locks
handle_locks codec s r now =
    if r.method == text "POST"
    then create_handler codec s r now
    else if r.method == text "GET"
    then (s, answered (list_locks s r now))
    else (s, answered method_not_allowed)

abbrev pub watch_step : Service → Duration → WatchStep → Service × Reply
watch_step s limit (ended r) = (s, answered (respond noticed r))
watch_step s limit (watching id full_name) = (s, noticing id full_name limit)

-- `watch`.
unfoldable pub watch_handler : Codec → Service → Request → Text → Text → Time → Service × Reply
unfolding watch_options
watch_handler codec s r namespace name now = checked s (watch_options codec r.body) (λ limit.
    let (bus, step) = watch_begin s.registry s.shared.bus namespace name now in
    watch_step (record s { shared = record (s.shared) { bus = bus } }) limit step)

-- The page of one lock.
unfoldable pub lock_handler :
    (ℕ → Option (List ℕ)) → Service → Request → Text → Text → Time → Service × Reply
lock_handler rand s r namespace name now =
    if r.method == text "GET"
    then (s, answered (respond viewed (get_view s.registry namespace name now)))
    else if r.method == text "DELETE"
    then reply (λ _. deleted) (delete_lock rand s namespace name r.force_token now)
    else (s, answered method_not_allowed)

module _ (rand : ℕ → Option (List ℕ)) (codec : Codec) where
  -- `acquire`.
  unfoldable pub acquire_handler :
      Service → Option Error → Request → Text → Text → Time → Service × Reply
  unfolding acquire_options
  acquire_handler s ctx_err r namespace name now =
      checked s (acquire_options codec r.body)
        (λ o. acquire_reply o.1 (acquire rand s ctx_err namespace name o.0 now))

  -- `renew`.
  unfoldable pub renew_handler : Service → Request → Text → Text → Time → Service × Reply
  unfolding renew_options
  renew_handler s r namespace name now =
      checked s (renew_options codec r.body)
        (λ o. reply renewed (renew rand s namespace name o.0 o.1 now))

  -- `release`.
  unfoldable pub release_handler : Service → Request → Text → Text → Time → Service × Reply
  unfolding decode_json
  release_handler s r namespace name now =
      checked s (decode_json codec.decode_release r.body)
        (λ request. reply released (release rand s namespace name request.token now))

  -- `steal`.
  unfoldable pub steal_handler : Service → Request → Text → Text → Time → Service × Reply
  unfolding steal_options
  steal_handler s r namespace name now =
      checked s (steal_options codec r.body)
        (λ o. reply acquired (steal rand s namespace name r.force_token o.0 o.1 now))

  -- The last switch of `handleLockPath`.
  unfoldable pub operate :
      Service → Option Error → Request → Text → Text → Text → Time → Service × Reply
  unfolding acquire_handler renew_handler release_handler watch_handler steal_handler
  operate s ctx_err r namespace name operation now =
      if operation == text "acquire"
      then acquire_handler s ctx_err r namespace name now
      else if operation == text "renew"
      then renew_handler s r namespace name now
      else if operation == text "release"
      then release_handler s r namespace name now
      else if operation == text "watch"
      then watch_handler codec s r namespace name now
      else if operation == text "steal"
      then steal_handler s r namespace name now
      else (s, answered (write_error err_not_found))

  -- `handleLockPath` for the parts of the path.
  unfoldable pub route_parts : Service → Option Error → Request → List Text → Time → Service × Reply
  unfolding operate lock_handler
  route_parts s ctx_err r (namespace ∷ name ∷ []) now =
      if is_empty namespace || is_empty name
      then (s, answered (write_error err_not_found))
      else lock_handler rand s r namespace name now
  route_parts s ctx_err r (namespace ∷ name ∷ operation ∷ []) now =
      if is_empty namespace || is_empty name || not (r.method == text "POST")
      then (s, answered (write_error err_not_found))
      else operate s ctx_err r namespace name operation now
  route_parts s ctx_err r _ now = (s, answered (write_error err_not_found))
