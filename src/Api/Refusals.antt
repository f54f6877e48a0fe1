-- ===== src/Api/Refusals.antt =====
-- What the lock endpoints of internal/api/handlers.go do with a body that they cannot read.
use lockd.Prelude.{
  ℕ, ◌≡◌, ◌⊎◌, inl, inr, refl, sym, ap, subst, ◌||◌, not, true, false, Bool-cases, Option, List, [],
  ◌∷◌, Text, text, text_eq, is_empty, ◌==◌, Bool, some, none, pos, ltb_ℤ, take, ◌^◌, if◌then◌else◌,
}
use lockd.Lock.Errors.{
  Error, ErrorCode, Result, ok, err, err_not_found, err_force_unauthorized, Result-cases,
}
use lockd.Lock.Types.{Time, Duration}
use lockd.Lock.Service.{Service, steal, steal_refused}
use lockd.Strings.{split, trim_prefix}
use lockd.Api.Types.{Codec, Request, acquired}
use lockd.Api.Responses.{write_error, one_value, status_of, code_of, decode_json}
use lockd.Api.Options.{
  parse_optional_duration, optional_duration, ◌>>=◌, create_options, acquire_options, renew_options,
  steal_options, watch_options,
}
use lockd.Api.Handlers.{
  Reply, reply, answered, acquiring, noticing, streaming, handle_locks, create_handler,
  acquire_handler, renew_handler, release_handler, steal_handler, watch_handler, operate,
  route_parts, checked,
}
use lockd.Api.Router.{handle_lock_path}

-- The call gives an error of the class "invalid".
abbrev pub IsInvalid {ℓ} : {A : Type ℓ} → Result A → Type ℓ
IsInvalid r = (e : Error) × (code_of e ≡ ErrorCode.invalid) × (r ≡ err e)

-- No decoder of a request reads the body.
pub record IsUnreadable (codec : Codec) (body : Text) : Type 0 where
  pub bad_create : IsInvalid (decode_json codec.decode_create body)
  pub bad_acquire : IsInvalid (decode_json codec.decode_acquire body)
  pub bad_renew : IsInvalid (decode_json codec.decode_renew body)
  pub bad_release : IsInvalid (decode_json codec.decode_release body)
  pub bad_watch : IsInvalid (decode_json codec.decode_watch body)
  pub bad_steal : IsInvalid (decode_json codec.decode_steal body)

-- The service is as it was, and the answer has one of two statuses.
abbrev pub IsRefused : Service → Service × Reply → ℕ → ℕ → Type 0
IsRefused s (t, answered r) a b = (t ≡ s) × ((r.status ≡ a) ⊎ (r.status ≡ b))
IsRefused s (t, acquiring w limit) a b = ⊥
IsRefused s (t, noticing id name limit) a b = ⊥
IsRefused s (t, streaming id namespace) a b = ⊥

-- The service is as it was, and the answer has the status.
abbrev pub Leaves : Service → Service × Reply → ℕ → Type 0
Leaves s (t, answered r) a = (t ≡ s) × (r.status ≡ a)
Leaves s (t, acquiring w limit) a = ⊥
Leaves s (t, noticing id name limit) a = ⊥
Leaves s (t, streaming id namespace) a = ⊥

-- The operations below a lock.
abbrev pub is_operation : Text → Bool
is_operation op =
    op == text "acquire"
    || op == text "renew"
    || op == text "release"
    || op == text "watch"
    || op == text "steal"

-- The status of a POST that cannot be read: a path of three parts that are a namespace, a name and
-- an operation is a bad request, any longer or other one is not found.
abbrev pub unreadable_status : Text → Text → Text → List Text → ℕ
unreadable_status ns name op [] =
    if is_empty ns || is_empty name then 404 else if is_operation op then 400 else 404
unreadable_status ns name op (part ∷ rest) = 404

write_error-Leaves :
    (s : Service) (e : Error)
    → code_of e ≡ ErrorCode.invalid
    → Leaves s (s, answered (write_error e)) 400
unfolding write_error status_of
write_error-Leaves s e c = (refl, ap status_of c)

err_not_found-Leaves : (s : Service) → Leaves s (s, answered (write_error err_not_found)) 404
unfolding write_error status_of
err_not_found-Leaves s = (refl, refl)

checked-Leaves {ℓ} :
    {A : Type ℓ} (s : Service) (r : Result A) (call : A → Service × Reply)
    → IsInvalid r
    → Leaves s (checked s r call) 400
checked-Leaves s r call (e, c, h) =
    subst (λ x. Leaves s (checked s x call) 400) (sym h) (write_error-Leaves s e c)

module _ (codec : Codec) (body : Text) (h : IsUnreadable codec body) where
  create_options-IsInvalid : IsInvalid (create_options codec body)
  unfolding create_options
  create_options-IsInvalid = let (e, c, p) = h.bad_create in (e, c, rw p refl)

  acquire_options-IsInvalid : IsInvalid (acquire_options codec body)
  unfolding acquire_options
  acquire_options-IsInvalid = let (e, c, p) = h.bad_acquire in (e, c, rw p refl)

  renew_options-IsInvalid : IsInvalid (renew_options codec body)
  unfolding renew_options
  renew_options-IsInvalid = let (e, c, p) = h.bad_renew in (e, c, rw p refl)

  steal_options-IsInvalid : IsInvalid (steal_options codec body)
  unfolding steal_options
  steal_options-IsInvalid = let (e, c, p) = h.bad_steal in (e, c, rw p refl)

  watch_options-IsInvalid : IsInvalid (watch_options codec body)
  unfolding watch_options
  watch_options-IsInvalid = let (e, c, p) = h.bad_watch in (e, c, rw p refl)

-- The only errors of reading a request are of the class "invalid".
abbrev OnlyInvalid {ℓ} : {A : Type ℓ} → Result A → Type 0
OnlyInvalid (ok a) = Unit {0}
OnlyInvalid (err e) = code_of e ≡ ErrorCode.invalid

bind-OnlyInvalid {ℓ κ} :
    {A : Type ℓ} {B : Type κ} (r : Result A) (f : A → Result B)
    → OnlyInvalid r
    → ((a : A) → OnlyInvalid (f a))
    → OnlyInvalid (r >>= f)
bind-OnlyInvalid (ok a) f h k = k a
bind-OnlyInvalid (err e) f h k = h

one_value-OnlyInvalid : {A : Type 0} (r : Option A × Bool) → OnlyInvalid (one_value r)
one_value-OnlyInvalid (none, ends) = refl
one_value-OnlyInvalid (some a, true) = tt
one_value-OnlyInvalid (some a, false) = refl

optional_duration-OnlyInvalid : (d : Option Duration) → OnlyInvalid (optional_duration d)
optional_duration-OnlyInvalid none = refl
optional_duration-OnlyInvalid (some d) = elim (Bool-cases (ltb_ℤ d (pos 0))) [
  | inl e ↦ rw e refl
  | inr e ↦ rw e tt
]

parse_optional_duration-OnlyInvalid :
    (codec : Codec) (value : Text) → OnlyInvalid (parse_optional_duration codec value)
unfolding parse_optional_duration
parse_optional_duration-OnlyInvalid codec value = elim (Bool-cases (is_empty value)) [
  | inl e ↦ rw e tt
  | inr e ↦ rw e (optional_duration-OnlyInvalid (codec.parse_duration value))
]

steal_options-OnlyInvalid : (codec : Codec) (body : Text) → OnlyInvalid (steal_options codec body)
unfolding steal_options decode_json
steal_options-OnlyInvalid codec body =
    bind-OnlyInvalid (decode_json codec.decode_steal body) _
      (one_value-OnlyInvalid (codec.decode_steal (take (2 ^ 20) body)))
      (λ request.
        bind-OnlyInvalid (parse_optional_duration codec request.ttl) _
          (parse_optional_duration-OnlyInvalid codec request.ttl) (λ ttl. tt))

steal_options-IsRefused :
    (s : Service) (codec : Codec) (body : Text) (e : Error)
    → steal_options codec body ≡ err e
    → IsRefused s (s, answered (write_error e)) 400 403
unfolding write_error status_of
steal_options-IsRefused s codec body e h =
    (refl, inl (ap status_of (subst OnlyInvalid h (steal_options-OnlyInvalid codec body))))

module _ (rand : ℕ → Option (List ℕ)) (codec : Codec) where
  operate-Leaves :
      (s : Service) (ctx_err : Option Error) (r : Request) (namespace name operation : Text)
      (now : Time)
      → IsUnreadable codec r.body
      → Leaves s
          (operate rand codec s ctx_err r namespace name operation now)
          (if is_operation operation then 400 else 404)
  unfolding operate acquire_handler renew_handler release_handler steal_handler watch_handler
  operate-Leaves s ctx_err r ns name op now h = elim (Bool-cases (op == text "acquire")) [
    | inl e ↦ rw e (checked-Leaves s _ _ (acquire_options-IsInvalid codec r.body h))
    | inr a ↦ elim (Bool-cases (op == text "renew")) [
      | inl e ↦ rw (a, e) (checked-Leaves s _ _ (renew_options-IsInvalid codec r.body h))
      | inr b ↦ elim (Bool-cases (op == text "release")) [
        | inl e ↦ rw (a, b, e) (checked-Leaves s _ _ h.bad_release)
        | inr c ↦ elim (Bool-cases (op == text "watch")) [
          | inl e ↦ rw (a, b, c, e) (checked-Leaves s _ _ (watch_options-IsInvalid codec r.body h))
          | inr d ↦ elim (Bool-cases (op == text "steal")) [
            | inl e ↦
                rw (a, b, c, d, e) (checked-Leaves s _ _ (steal_options-IsInvalid codec r.body h))
            | inr e ↦ rw (a, b, c, d, e) (err_not_found-Leaves s)
          ]
        ]
      ]
    ]
  ]

  -- The page of a lock has no body to read, so the path has an operation.
  route_parts-Leaves :
      (s : Service) (ctx_err : Option Error) (r : Request) (ns name op : Text) (rest : List Text)
      (now : Time)
      → (r.method == text "POST") ≡ true
      → IsUnreadable codec r.body
      → Leaves s
          (route_parts rand codec s ctx_err r (ns ∷ name ∷ op ∷ rest) now)
          (unreadable_status ns name op rest)
  unfolding route_parts
  route_parts-Leaves s ctx_err r ns name op [] now post h = elim (Bool-cases (is_empty ns)) [
    | inl e ↦ rw e (err_not_found-Leaves s)
    | inr e ↦ elim (Bool-cases (is_empty name)) [
      | inl e' ↦ rw (e, e') (err_not_found-Leaves s)
      | inr e' ↦ rw (e, e', post) (operate-Leaves s ctx_err r ns name op now h)
    ]
  ]
  route_parts-Leaves s ctx_err r ns name op (part ∷ rest) now post h = err_not_found-Leaves s

  handle_locks-Leaves :
      (s : Service) (r : Request) (now : Time)
      → (r.method == text "POST") ≡ true
      → IsUnreadable codec r.body
      → Leaves s (handle_locks codec s r now) 400
  unfolding handle_locks create_handler
  handle_locks-Leaves s r now post h =
      rw post (checked-Leaves s _ _ (create_options-IsInvalid codec r.body h))

  -- A POST whose body no decoder reads leaves the service as it is: to the endpoint of the locks,
  -- and to the paths with an operation below a lock; the answer has status 400 at the endpoint of
  -- the locks, and for a path of a namespace, a name and an operation, and 404 for any other of
  -- those paths.
  pub bad_body_changes_nothing :
      (s : Service) (ctx_err : Option Error) (r : Request) (ns name op : Text) (rest : List Text)
      (now : Time)
      → (r.method == text "POST") ≡ true
      → split b'/' (trim_prefix r.path (text "/api/v1/locks/")) ≡ ns ∷ name ∷ op ∷ rest
      → IsUnreadable codec r.body
      → Leaves s (handle_locks codec s r now) 400
        × Leaves s (handle_lock_path rand codec s ctx_err r now) (unreadable_status ns name op rest)
  unfolding handle_lock_path
  bad_body_changes_nothing s ctx_err r ns name op rest now post path h = (
    handle_locks-Leaves s r now post h,
    rw path (route_parts-Leaves s ctx_err r ns name op rest now post h),
  )

  steal_unauthorized :
      (s : Service) (ns name force_token holder : Text) (ttl : Duration) (now : Time)
      → (is_empty s.force || not (force_token == s.force)) ≡ true
      → steal rand s ns name force_token holder ttl now ≡ (s, err err_force_unauthorized)
  unfolding steal steal_refused
  steal_unauthorized s ns name force_token holder ttl now h = rw (h, steal) refl

  -- A steal whose X-Force-Token header is not the server's force token, or to a server without one,
  -- leaves the service as it is, whatever its body: the answer has status 400 or 403.
  pub steal_needs_force_token :
      (s : Service) (r : Request) (ns name : Text) (now : Time)
      → (is_empty s.force || not (r.force_token == s.force)) ≡ true
      → IsRefused s (steal_handler rand codec s r ns name now) 400 403
  unfolding steal_handler
  steal_needs_force_token s r ns name now h = elim (Result-cases (steal_options codec r.body)) [
    | inl (e, bad) ↦ rw bad (steal_options-IsRefused s codec r.body e bad)
    | inr (o, good) ↦ rw good (
        subst (λ x. IsRefused s (reply acquired x) 400 403)
          (sym (steal_unauthorized s ns name r.force_token o.0 o.1 now h))
          (refl, inr (unfold write_error status_of in refl)))
  ]
