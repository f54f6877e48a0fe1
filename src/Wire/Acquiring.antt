-- ===== src/Wire/Acquiring.antt =====
-- `TryAcquire` of internal/client/client.go as the `Acquire` of internal/lock/service.go.
use lockd.Prelude.{
  ℕ, suc, ◌≡◌, refl, sym, ◌∙◌, ap, subst, true, false, ◌||◌, Option, some, none, List, [], Text,
  text, text_eq, text_beq, text_beq_refl, ltb_ℤ, Bool, Bool-cases, inl, inr, ◌∷◌, ◌==◌,
  if◌then◌else◌, pos, arith, length, get_elem?, get_elem?-append_new, lookup, lookup-insert,
}
use mathlib.Core.Path.{ap₂}
use lockd.Lock.Errors.{Result, ok, err}
use lockd.Lock.Types.{Time, Duration, AcquireOptions, AcquireResult}
use lockd.Lock.Registry.{all_name_chars, is_name_char, valid_name}
use lockd.Lock.Acquire.{AcquireStep, returned, waiting}
use lockd.Lock.Service.{Service, acquire}
use lockd.Lock.Given.{GivenAt, acquire-GivenAt}
use lockd.Api.Types.{Codec, Request, Response, acquired, AcquireRequest}
use lockd.Api.Responses.{decode_json, method_not_allowed}
use lockd.Api.Options.{acquire_options, acquire_limit, parse_optional_duration}
use lockd.Api.Handlers.{Reply, answered, acquire_reply, acquire_handler, operate, respond}
use lockd.Api.Router.{is_dotted}
use lockd.Api.Routes.{operation_path}
use lockd.Client.Types.{
  Failure, Lease, ClientOptions, Net, Client, Field, string, flag, lock_key, effective_ttl,
}
use lockd.Client.Requests.{build_request}
use lockd.Client.Calls.{acquire as ask, try_acquire, allocate, acquire_body, zero_lease}
use lockd.Wire.{Served, post, Carries, IsShown, Holds, lease_reply}
use lockd.Wire.Calls.{served_operation}
use lockd.Wire.Exchange.{reported, read_reply-error, read_reply-ok, do_request_final, Carries-ok}

-- The text of an optional duration in a request.
abbrev pub shown : Net → Duration → Text
shown net d = if ltb_ℤ (pos 0) d then net.show_duration d else []

-- The members of a JSON object with the fields that a client sends: the text or the truth of a
-- field, and the zero value of Go where there is none.
unfoldable pub text_member : Text → List (Text × Field) → Text
text_member name [] = []
text_member name ((key, string v) ∷ fields) =
    let rest = text_member name fields in if key == name then v else rest
text_member name ((key, flag b) ∷ fields) = text_member name fields

unfoldable pub truth_member : Text → List (Text × Field) → Bool
truth_member name [] = false
truth_member name ((key, string v) ∷ fields) = truth_member name fields
truth_member name ((key, flag b) ∷ fields) =
    let rest = truth_member name fields in if key == name then b else rest

-- The request for a lease that an object with these fields is.
abbrev pub sent_request : List (Text × Field) → AcquireRequest
sent_request fields = record {
  holder = text_member (text "holder") fields;
  request_id = text_member (text "request_id") fields;
  ttl = text_member (text "ttl") fields;
  wait = truth_member (text "wait") fields;
  wait_timeout = text_member (text "wait_timeout") fields;
}

abbrev try_request : Net → Text → ClientOptions → AcquireRequest
try_request net holder options = record {
  holder = holder;
  request_id = options.request_id;
  ttl = shown net options.ttl;
  wait = false;
  wait_timeout = shown net options.wait_timeout;
}

-- What `TryAcquire` sends says what was meant.
try_request_sent :
    (net : Net) (holder : Text) (options : ClientOptions)
    → sent_request (acquire_body net holder (record options { wait = false }))
      ≡ try_request net holder options
unfolding text_member truth_member acquire_body text text_beq
try_request_sent net holder options = elim (Bool-cases (ltb_ℤ (pos 0) options.ttl)) [
  | inl long ↦ elim (Bool-cases (ltb_ℤ (pos 0) options.wait_timeout)) [
    | inl limit ↦ simp (long, limit) refl
    | inr unlimited ↦ simp (long, unlimited) refl
  ]
  | inr short ↦ elim (Bool-cases (ltb_ℤ (pos 0) options.wait_timeout)) [
    | inl limit ↦ simp (short, limit) refl
    | inr unlimited ↦ simp (short, unlimited) refl
  ]
]

-- The options that the handler makes of it.
abbrev pub try_options : Text → ClientOptions → AcquireOptions
try_options holder options = record {
  holder = holder;
  request_id = options.request_id;
  ttl = if ltb_ℤ (pos 0) options.ttl then options.ttl else pos 0;
  wait = false;
}

try_options_read :
    (net : Net) (codec : Codec) (holder body : Text) (options : ClientOptions)
    → IsShown net codec options.ttl
    → Holds codec.decode_acquire body (try_request net holder options)
    → acquire_options codec body ≡ ok (try_options holder options, none)
unfolding acquire_options decode_json parse_optional_duration acquire_limit
try_options_read net codec holder body options h read = ground (arith, h.nonempty, h.parsed, read)

-- The end of a call of the service that was answered at once.
answered_step :
    (limit : Option Duration) (s s' : Service) (step : AcquireStep) (answer : Response)
    → acquire_reply limit (s, step) ≡ (s', answered answer)
    → (r : Result AcquireResult) × (step ≡ returned r) × (s ≡ s') × (answer ≡ respond acquired r)
answered_step limit s s' (returned r) answer e =
    (r, refl, ap (λ p. p.0) e, sym (answered-injective (ap (λ p. p.1) e)))
  where
    response_of : Reply → Response
    response_of (answered r) = r
    response_of _ = method_not_allowed

    answered-injective : {a b : Response} → answered a ≡ answered b → a ≡ b
    answered-injective e = ap response_of e
answered_step limit s s' (waiting w) answer e = absurd (ground arith)

module _ (net : Net) (codec : Codec) (rand : ℕ → Option (List ℕ)) (started now : Time)
    (files : Option (Request → Response)) where
  -- The lease that the client has for the answer of the service, or the error.
  abbrev pub Understood :
      Text → Text → Client × Option ℕ × Option Failure → Result AcquireResult → Type 0
  Understood namespace name (c, a, failure) (err e) = (a ≡ none) × (failure ≡ some (reported e))
  Understood namespace name (c, a, failure) (ok r) =
      (lease : Lease) × (i : ℕ) × (a ≡ some i)
      × (failure ≡ none)
      × (get_elem? c.heap i ≡ some lease)
      × (lookup (lock_key namespace name) c.leases ≡ some i)
      × (lease.namespace ≡ namespace)
      × (lease.name ≡ name)
      × (lease.token ≡ r.token)
      × (lease.depth ≡ pos r.depth)
      × (lease.expires_at ≡ r.expires_at)

  acquire_answer :
      (s s' : Service) (c : Client) (ns name holder : Text) (options : ClientOptions)
      → valid_name ns ≡ true
      → valid_name name ≡ true
      → (is_dotted ns || is_dotted name) ≡ false
      → IsShown net codec options.ttl
      → (served : Served net codec rand started now files s s' c
          (operation_path ns name (text "acquire"))
          (acquire_body net holder (record options { wait = false })))
      → Holds codec.decode_acquire served.request.body
          (sent_request (acquire_body net holder (record options { wait = false })))
      → (r : Result AcquireResult) × (acquire rand s none ns name (try_options holder options) now
          ≡ (s', returned r))
        × (served.answer ≡ respond acquired r)
  unfolding operate acquire_handler text text_beq all_name_chars is_name_char
  acquire_answer s s' c ns name holder options hn hm plain h served body =
      let called = acquire rand s none ns name (try_options holder options) now in
      let run =
        served_operation net codec rand started now files s s' c ns name (text "acquire") _ hn hm
          plain refl refl served in
      let meant : Holds codec.decode_acquire served.request.body (try_request net holder options) =
        subst (λ q. Holds codec.decode_acquire served.request.body q)
          (try_request_sent net holder options) body in
      let reply : acquire_reply none called ≡ (s', answered served.answer) =
        sym (rw (try_options_read net codec holder served.request.body options h meant) refl)
        ∙ run in
      let (r, e, e', a) = answered_step none called.0 s' called.1 served.answer reply in
      (r, ap₂ (λ x y. (x, y)) e' e, a)

  -- What the client makes of the answer.
  acquire-Understood :
      (c : Client) (n : ℕ) (ns name holder : Text) (options : ClientOptions)
      (r : Result AcquireResult)
      → c.retries ≡ pos n
      → Carries net (respond acquired r) (
          net.reply c.sent (
            post c
              (operation_path ns name (text "acquire"))
              (acquire_body net holder (record options { wait = false }))))
      → Understood ns name (try_acquire net c ns name holder options) r
  unfolding try_acquire allocate text build_request ask get_elem? lookup
  acquire-Understood c n ns name holder options (err e) retries h =
      let path = operation_path ns name (text "acquire") in
      let body = acquire_body net holder (record options { wait = false }) in
      let done =
        do_request_final net net.decode_lease path c n (text "POST") (some body) [] zero_lease _ _
          retries (read_reply-error net net.decode_lease path e _ zero_lease h) refl in
      rw done (refl, refl)
  acquire-Understood c n ns name holder options (ok r) retries h =
      let path = operation_path ns name (text "acquire") in
      let body = acquire_body net holder (record options { wait = false }) in
      let (bytes, json, same, opened, reads) = Carries-ok net (acquired r) _ h in
      let (filled, read, _) = reads in
      let done =
        do_request_final net net.decode_lease path c n (text "POST") (some body) [] zero_lease _ _
          retries
          (read_reply-ok net net.decode_lease path _ 200 bytes (text "ok") json zero_lease
            (lease_reply r) same opened filled (read zero_lease))
          refl in
      let key = lock_key ns name in
      let lease : Lease = record {
        namespace = ns;
        name = name;
        holder = holder;
        token = r.token;
        depth = pos r.depth;
        expires_at = r.expires_at;
        ttl = effective_ttl options.ttl (net.until (suc c.sent) r.expires_at);
      } in
      rw done (
        lease,
        length c.heap,
        refl,
        refl,
        get_elem?-append_new c.heap lease,
        lookup-insert key key (length c.heap) c.leases
            ∙ ap (λ b. if b then some (length c.heap) else lookup key c.leases) (text_beq_refl key),
        refl,
        refl,
        refl,
        refl,
        refl,
      )

  -- From a client whose retries are not negative, and for a lock whose names are valid and not
  -- dots: when the exchange of a TryAcquire is served (the request arrives, the server decodes the
  -- object of the fields that the client put in the body and answers, and the client reads what
  -- was written), the answer is that of the service for the holder, the request id and the
  -- positive term that the caller gave, without waiting; a lease of the service becomes a lease
  -- that the client finds under the key of the lock, with its token, depth and end, and that the
  -- record of the server has for the holder; an error of the service becomes that error with its
  -- code and message.
  pub acquire_over_wire :
      (s s' : Service) (c : Client) (n : ℕ) (ns name holder : Text) (options : ClientOptions)
      → c.retries ≡ pos n
      → valid_name ns ≡ true
      → valid_name name ≡ true
      → (is_dotted ns || is_dotted name) ≡ false
      → IsShown net codec options.ttl
      → (served : Served net codec rand started now files s s' c
          (operation_path ns name (text "acquire"))
          (acquire_body net holder (record options { wait = false })))
      → Holds codec.decode_acquire served.request.body
          (sent_request (acquire_body net holder (record options { wait = false })))
      → (r : Result AcquireResult) × (acquire rand s none ns name (try_options holder options) now
          ≡ (s', returned r))
        × Understood ns name (try_acquire net c ns name holder options) r
        × GivenAt holder ns name (s', returned r)
  acquire_over_wire s s' c n ns name holder options retries hn hm plain h served body =
      let (r, called, a) = acquire_answer s s' c ns name holder options hn hm plain h served body in
      let reply = net.reply c.sent (
        post c (operation_path ns name (text "acquire"))
          (acquire_body net holder (record options { wait = false }))) in
      (
        r,
        called,
        acquire-Understood c n ns name holder options r retries
            (subst (λ x. Carries net x reply) a served.carries),
        subst (GivenAt holder ns name) called
            (acquire-GivenAt rand s none ns name (try_options holder options) now),
      )
