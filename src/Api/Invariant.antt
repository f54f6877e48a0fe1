-- ===== src/Api/Invariant.antt =====
-- Requests and the invariant of the service.
use lockd.Prelude.{
  ℕ, inl, inr, ◌||◌, not, Bool-cases, Option, some, none, List, [], ◌∷◌, Text, text, text_eq,
  is_empty, ◌==◌,
}
use lockd.Lock.Errors.{Error, Result, ok, err}
use lockd.Lock.Types.{Time, Duration}
use lockd.Lock.Registry.{View, get}
use lockd.Lock.Acquire.{AcquireStep, returned, waiting}
use lockd.Lock.Watch.{WatchStep, ended, watching, watch_begin}
use lockd.Lock.Service.{Service, create_lock, acquire, renew, release, steal, delete_lock}
use lockd.Lock.System.{Inv, creates}
use lockd.Lock.System.Calls.{acquire-Inv, renew-Inv, release-Inv, steal-Inv, delete_lock-Inv}
use lockd.Lock.System.Invariant.{Step-Inv, share-Inv}
use lockd.Strings.{split, trim_prefix, has_prefix}
use lockd.Api.Types.{
  Codec, Request, Response, Payload, created, deleted, acquired, renewed, released,
}
use lockd.Api.Responses.{decode_json}
use lockd.Api.Options.{create_options, acquire_options, renew_options, steal_options, watch_options}
use lockd.Api.Handlers.{
  Reply, reply, checked, acquire_reply, watch_step, handle_locks, create_handler, lock_handler,
  acquire_handler, renew_handler, release_handler, steal_handler, watch_handler, operate,
  route_parts,
}
use lockd.Api.Router.{
  handle_lock_path, handle_events, handle_metrics, handle_health, serve_file, is_clean, dispatch,
}

reply-Inv {ℓ} :
    {A : Type ℓ} (show : A → Payload) (r : Service × Result A) → Inv r.0 → Inv (reply show r).0
reply-Inv show (s, r) v = v

acquire_reply-Inv :
    (limit : Option Duration) (r : Service × AcquireStep) → Inv r.0 → Inv (acquire_reply limit r).0
acquire_reply-Inv limit (s, returned r) v = v
acquire_reply-Inv limit (s, waiting w) v = v

watch_step-Inv :
    (s : Service) (limit : Duration) (w : WatchStep) → Inv s → Inv (watch_step s limit w).0
watch_step-Inv s limit (ended r) v = v
watch_step-Inv s limit (watching id name) v = v

checked-Inv {ℓ} :
    {A : Type ℓ} (s : Service) (r : Result A) (call : A → Service × Reply)
    → Inv s
    → ((a : A) → Inv (call a).0)
    → Inv (checked s r call).0
checked-Inv s (ok a) call v h = h a
checked-Inv s (err e) call v h = v

module _ (rand : ℕ → Option (List ℕ)) (codec : Codec) (s : Service) (v : Inv s) where
  handle_locks-Inv : (r : Request) (now : Time) → Inv (handle_locks codec s r now).0
  unfolding handle_locks create_handler
  handle_locks-Inv r now = elim (Bool-cases (r.method == text "POST")) [
    | inl post ↦ rw post (
        checked-Inv s (create_options codec r.body) _ v (λ options.
          reply-Inv (λ (x : View). created x.full_name x.created_at) (create_lock s options now)
            (Step-Inv rand (creates options now) v)))
    | inr other ↦ elim (Bool-cases (r.method == text "GET")) [
      | inl get ↦ rw (other, get) v
      | inr wrong ↦ rw (other, wrong) v
    ]
  ]

  lock_handler-Inv :
      (r : Request) (ns name : Text) (now : Time) → Inv (lock_handler rand s r ns name now).0
  unfolding lock_handler
  lock_handler-Inv r ns name now = elim (Bool-cases (r.method == text "GET")) [
    | inl get ↦ rw get v
    | inr other ↦ elim (Bool-cases (r.method == text "DELETE")) [
      | inl delete ↦
          rw (other, delete)
            (reply-Inv (λ _. deleted) (delete_lock rand s ns name r.force_token now)
              (delete_lock-Inv rand s v ns name r.force_token now))
      | inr wrong ↦ rw (other, wrong) v
    ]
  ]

  watch_handler-Inv :
      (r : Request) (ns name : Text) (now : Time) → Inv (watch_handler codec s r ns name now).0
  unfolding watch_handler
  watch_handler-Inv r ns name now = checked-Inv s (watch_options codec r.body) _ v (λ limit.
      let (bus, step) = watch_begin s.registry s.shared.bus ns name now in
      let shared = record (s.shared) { bus = bus } in
      watch_step-Inv (record s { shared = shared }) limit step (share-Inv shared v))

  operate-Inv :
      (ctx_err : Option Error) (r : Request) (ns name op : Text) (now : Time)
      → Inv (operate rand codec s ctx_err r ns name op now).0
  unfolding operate acquire_handler renew_handler release_handler steal_handler
  operate-Inv ctx_err r ns name op now = elim (Bool-cases (op == text "acquire")) [
    | inl e ↦ rw e (
        checked-Inv s (acquire_options codec r.body) _ v (λ o.
          acquire_reply-Inv o.1 (acquire rand s ctx_err ns name o.0 now)
            (acquire-Inv rand s v ctx_err ns name o.0 now)))
    | inr a ↦ elim (Bool-cases (op == text "renew")) [
      | inl e ↦
          rw (a, e)
            (checked-Inv s (renew_options codec r.body) _ v (λ o.
              reply-Inv renewed (renew rand s ns name o.0 o.1 now)
                (renew-Inv rand s v ns name o.0 o.1 now)))
      | inr b ↦ elim (Bool-cases (op == text "release")) [
        | inl e ↦
            rw (a, b, e)
              (checked-Inv s (decode_json codec.decode_release r.body) _ v (λ o.
                reply-Inv released (release rand s ns name o.token now)
                  (release-Inv rand s v ns name o.token now)))
        | inr c ↦ elim (Bool-cases (op == text "watch")) [
          | inl e ↦ rw (a, b, c, e) (watch_handler-Inv r ns name now)
          | inr d ↦ elim (Bool-cases (op == text "steal")) [
            | inl e ↦
                rw (a, b, c, d, e)
                  (checked-Inv s (steal_options codec r.body) _ v (λ o.
                    reply-Inv acquired (steal rand s ns name r.force_token o.0 o.1 now)
                      (steal-Inv rand s v ns name r.force_token o.0 o.1 now)))
            | inr e ↦ rw (a, b, c, d, e) v
          ]
        ]
      ]
    ]
  ]

  route_parts-Inv :
      (ctx_err : Option Error) (r : Request) (parts : List Text) (now : Time)
      → Inv (route_parts rand codec s ctx_err r parts now).0
  unfolding route_parts
  route_parts-Inv ctx_err r [] now = v
  route_parts-Inv ctx_err r (ns ∷ []) now = v
  route_parts-Inv ctx_err r (ns ∷ name ∷ []) now =
      elim (Bool-cases (is_empty ns || is_empty name)) [
        | inl e ↦ rw e v
        | inr e ↦ rw e (lock_handler-Inv r ns name now)
      ]
  route_parts-Inv ctx_err r (ns ∷ name ∷ op ∷ []) now =
      elim (Bool-cases (is_empty ns || is_empty name || not (r.method == text "POST"))) [
        | inl e ↦ rw e v
        | inr e ↦ rw e (operate-Inv ctx_err r ns name op now)
      ]
  route_parts-Inv ctx_err r (a ∷ b ∷ c ∷ d ∷ parts) now = v

  handle_lock_path-Inv :
      (ctx_err : Option Error) (r : Request) (now : Time)
      → Inv (handle_lock_path rand codec s ctx_err r now).0
  unfolding handle_lock_path
  handle_lock_path-Inv ctx_err r now =
      route_parts-Inv ctx_err r (split b'/' (trim_prefix r.path (text "/api/v1/locks/"))) now

  handle_events-Inv : (r : Request) → Inv (handle_events s r).0
  unfolding handle_events
  handle_events-Inv r = elim (Bool-cases (r.method == text "GET")) [
    | inl get ↦ rw get (share-Inv _ v)
    | inr wrong ↦ rw wrong v
  ]

  handle_metrics-Inv : (r : Request) (now : Time) → Inv (handle_metrics s r now).0
  unfolding handle_metrics
  handle_metrics-Inv r now = elim (Bool-cases (r.method == text "GET")) [
    | inl get ↦ rw get v
    | inr wrong ↦ rw wrong v
  ]

  handle_health-Inv :
      (started : Time) (r : Request) (now : Time) → Inv (handle_health started s r now).0
  unfolding handle_health
  handle_health-Inv started r now = elim (Bool-cases (r.method == text "GET")) [
    | inl get ↦ rw get v
    | inr wrong ↦ rw wrong v
  ]

  serve_file-Inv :
      (r : Request) (files : Option (Request → Response)) → Inv (serve_file s r files).0
  serve_file-Inv r none = v
  serve_file-Inv r (some files) = v

  pub dispatch-Inv :
      (started : Time) (files : Option (Request → Response)) (ctx_err : Option Error) (r : Request)
      (now : Time)
      → Inv (dispatch rand codec started files s ctx_err r now).0
  unfolding dispatch
  dispatch-Inv started files ctx_err r now = elim (Bool-cases (is_clean r.path)) [
    | inr unclean ↦ rw unclean v
    | inl z ↦ elim (Bool-cases (r.path == text "/api/v1/locks")) [
      | inl e ↦ rw (z, e) (handle_locks-Inv r now)
      | inr a ↦ elim (Bool-cases (has_prefix r.path (text "/api/v1/locks/"))) [
        | inl e ↦ rw (z, a, e) (handle_lock_path-Inv ctx_err r now)
        | inr b ↦ elim (Bool-cases (r.path == text "/api/v1/events")) [
          | inl e ↦ rw (z, a, b, e) (handle_events-Inv r)
          | inr c ↦ elim (Bool-cases (r.path == text "/api/v1/metrics")) [
            | inl e ↦ rw (z, a, b, c, e) (handle_metrics-Inv r now)
            | inr d ↦ elim (Bool-cases (r.path == text "/api/v1/healthz")) [
              | inl e ↦ rw (z, a, b, c, d, e) (handle_health-Inv started r now)
              | inr e ↦ rw (z, a, b, c, d, e) (serve_file-Inv r files)
            ]
          ]
        ]
      ]
    ]
  ]
