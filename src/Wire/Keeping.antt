-- ===== src/Wire/Keeping.antt =====
-- `Renew` and `Release` of internal/client/client.go as those of internal/lock/service.go.
use lockd.Prelude.{
  ℕ, ◌≡◌, refl, sym, ◌∙◌, ap, subst, true, false, ◌||◌, Option, some, none, List, [], ◌∷◌, Text,
  text, text_eq, text_beq, text_beq_refl, pos, ◌≤ℤ◌, arith, get_elem?, get_elem?-set_self, lookup,
  lookup-delete,
}
use lockd.Lock.Errors.{Result, ok, err}
use lockd.Lock.Types.{Time, Duration, ReleaseResult}
use lockd.Lock.Registry.{all_name_chars, is_name_char, valid_name}
use lockd.Lock.Service.{Service, renew, release}
use lockd.Api.Types.{Codec, Request, Response, Payload, renewed, released}
use lockd.Api.Responses.{decode_json, method_not_allowed}
use lockd.Api.Options.{renew_options, parse_optional_duration}
use lockd.Api.Handlers.{Reply, answered, reply, renew_handler, release_handler, operate, respond}
use lockd.Api.Router.{is_dotted}
use lockd.Api.Routes.{operation_path}
use lockd.Client.Types.{Failure, Field, string, Lease, ReleaseReply, Net, Client, lock_key}
use lockd.Client.Requests.{build_request}
use lockd.Client.Calls.{renew as send_renew, release as send_release}
use lockd.Wire.{Served, post, Carries, IsShown, Holds, release_reply}
use lockd.Wire.Calls.{served_operation}
use lockd.Wire.Exchange.{reported, read_reply-error, read_reply-ok, do_request_final, Carries-ok}

abbrev response_of : Reply → Response
response_of (answered r) = r
response_of _ = method_not_allowed

-- A handler that answers a call at once.
reply_parts {ℓ} :
    {A : Type ℓ} (show : A → Payload) (called : Service × Result A) (s' : Service)
    (answer : Response)
    → reply show called ≡ (s', answered answer)
    → (called ≡ (s', called.1)) × (answer ≡ respond show called.1)
reply_parts show (s, r) s' answer e =
    (ap (λ x. (x, r)) (ap (λ p. p.0) e), sym (ap (λ p. response_of p.1) e))

abbrev pub renew_body : Net → Lease → List (Text × Field)
renew_body net lease =
    (text "token", string lease.token) ∷ (text "ttl", string (net.show_duration lease.ttl)) ∷ []

abbrev pub release_body : Lease → List (Text × Field)
release_body lease = (text "token", string lease.token) ∷ []

renew_options_read :
    (net : Net) (codec : Codec) (token body : Text) (ttl : Duration)
    → pos 0 ≤ℤ ttl
    → IsShown net codec ttl
    → Holds codec.decode_renew body (record { token = token; ttl = net.show_duration ttl })
    → renew_options codec body ≡ ok (token, ttl)
unfolding renew_options decode_json parse_optional_duration
renew_options_read net codec token body ttl low h read = ground (arith, h.nonempty, h.parsed, read)

-- What the client makes of the answer to a renewal, and to a release.
abbrev pub Renewed : Lease → ℕ → Client × Option Failure → Result Time → Type 0
Renewed lease i (c, failure) (err e) =
    (failure ≡ some (reported e)) × (get_elem? c.heap i ≡ some lease)
Renewed lease i (c, failure) (ok t) =
    (failure ≡ none) × (get_elem? c.heap i ≡ some (record lease { expires_at = t }))

abbrev pub Returned : Lease → ℕ → Client × Option Failure → Result ReleaseResult → Type 0
Returned lease i (c, failure) (err e) =
    (failure ≡ some (reported e)) × (get_elem? c.heap i ≡ some lease)
Returned lease i (c, failure) (ok r) =
    (failure ≡ none)
    × (get_elem? c.heap i ≡ some (record lease { depth = pos r.depth }))
    × (r.released ≡ true → lookup (lock_key lease.namespace lease.name) c.leases ≡ none)

module _ (net : Net) (c : Client) (n : ℕ) (lease : Lease) (i : ℕ) (retries : c.retries ≡ pos n)
    (kept : get_elem? c.heap i ≡ some lease) where
  renew_understood :
      (r : Result Time)
      → Carries net (respond renewed r) (
          net.reply c.sent (
            post c
              (operation_path lease.namespace lease.name (text "renew"))
              (renew_body net lease)))
      → Renewed lease i (send_renew net c i) r
  unfolding send_renew text build_request
  renew_understood (err e) h =
      let path = operation_path lease.namespace lease.name (text "renew") in
      let done =
        do_request_final net net.decode_expiry path c n (text "POST") (some (renew_body net lease))
          [] 0 _ _ retries (read_reply-error net net.decode_expiry path e _ 0 h) refl in
      rw kept (rw done (refl, kept))
  renew_understood (ok t) h =
      let path = operation_path lease.namespace lease.name (text "renew") in
      let (bytes, json, same, opened, reads) = Carries-ok net (renewed t) _ h in
      let done =
        do_request_final net net.decode_expiry path c n (text "POST") (some (renew_body net lease))
          [] 0 _ _ retries
          (read_reply-ok net net.decode_expiry path _ 200 bytes (text "ok") json 0 t same opened
            reads.0 (reads.1 0))
          refl in
      rw kept (rw done (refl, get_elem?-set_self c.heap i (record lease { expires_at = t }) kept))

  release_understood :
      (r : Result ReleaseResult)
      → Carries net (respond released r) (
          net.reply c.sent (
            post c
              (operation_path lease.namespace lease.name (text "release"))
              (release_body lease)))
      → Returned lease i (send_release net c i) r
  unfolding send_release text build_request
  release_understood (err e) h =
      let path = operation_path lease.namespace lease.name (text "release") in
      let none_yet : ReleaseReply = record { released = false; depth = pos 0 } in
      let done =
        do_request_final net net.decode_release path c n (text "POST") (some (release_body lease))
          [] none_yet _ _ retries (read_reply-error net net.decode_release path e _ none_yet h)
          refl in
      rw kept (rw done (refl, kept))
  release_understood (ok r) h =
      let path = operation_path lease.namespace lease.name (text "release") in
      let none_yet : ReleaseReply = record { released = false; depth = pos 0 } in
      let (bytes, json, same, opened, reads) = Carries-ok net (released r) _ h in
      let done =
        do_request_final net net.decode_release path c n (text "POST") (some (release_body lease))
          [] none_yet _ _ retries
          (read_reply-ok net net.decode_release path _ 200 bytes (text "ok") json none_yet
            (release_reply r) same opened reads.0 (reads.1 none_yet))
          refl in
      let key = lock_key lease.namespace lease.name in
      rw kept (
        rw done (
          refl,
          get_elem?-set_self c.heap i (record lease { depth = pos r.depth }) kept,
          λ freed. rw freed (lookup-delete key key c.leases ∙ rw (text_beq_refl key) refl),
        ))

module _ (net : Net) (codec : Codec) (rand : ℕ → Option (List ℕ)) (started now : Time)
    (files : Option (Request → Response)) (s s' : Service) (c : Client) (n : ℕ) (lease : Lease)
    (i : ℕ) (retries : c.retries ≡ pos n) (kept : get_elem? c.heap i ≡ some lease)
    (hn : valid_name lease.namespace ≡ true) (hm : valid_name lease.name ≡ true)
    (plain : (is_dotted lease.namespace || is_dotted lease.name) ≡ false) where
  -- When the exchange of a Renew of a lease with a term that is not negative is served in this
  -- way, the call of the service is that for the names, the token and the term of the lease; the
  -- new end becomes the one of the lease, and an error of the service is that of the call and
  -- leaves the lease alone.
  pub renew_over_wire :
      pos 0 ≤ℤ lease.ttl
      → IsShown net codec lease.ttl
      → (served : Served net codec rand started now files s s' c
          (operation_path lease.namespace lease.name (text "renew"))
          (renew_body net lease))
      → Holds codec.decode_renew served.request.body
          (record { token = lease.token; ttl = net.show_duration lease.ttl })
      → let called = renew rand s lease.namespace lease.name lease.token lease.ttl now in
        (called.0 ≡ s') × Renewed lease i (send_renew net c i) called.1
  unfolding operate renew_handler text text_beq all_name_chars is_name_char
  renew_over_wire low h served body =
      let called = renew rand s lease.namespace lease.name lease.token lease.ttl now in
      let run =
        served_operation net codec rand started now files s s' c lease.namespace lease.name
          (text "renew") _ hn hm plain refl refl served in
      let handled : reply (λ t. renewed t) called ≡ (s', answered served.answer) =
        sym (
          rw (renew_options_read net codec lease.token served.request.body lease.ttl low h body)
            refl)
        ∙ run in
      let (e, a) = reply_parts (λ t. renewed t) called s' served.answer handled in
      let replied = net.reply c.sent (
        post c (operation_path lease.namespace lease.name (text "renew")) (renew_body net lease)) in
      (
        ap (λ p. p.0) e,
        renew_understood net c n lease i retries kept called.1
            (subst (λ x. Carries net x replied) a served.carries),
      )

  -- When the exchange of a Release of a lease of the client is served in this way, the call of the
  -- service is that for the names and the token of the lease; an answer that the lock was released
  -- takes the lease out of the map of the client, any answer sets its depth, and an error of the
  -- service is that of the call and leaves the lease alone.
  pub release_over_wire :
      (served : Served net codec rand started now files s s' c
        (operation_path lease.namespace lease.name (text "release"))
        (release_body lease))
      → Holds codec.decode_release served.request.body
          (record { token = lease.token; request_id = [] })
      → let called = release rand s lease.namespace lease.name lease.token now in
        (called.0 ≡ s') × Returned lease i (send_release net c i) called.1
  unfolding operate release_handler decode_json text text_beq all_name_chars is_name_char
  release_over_wire served body =
      let called = release rand s lease.namespace lease.name lease.token now in
      let run =
        served_operation net codec rand started now files s s' c lease.namespace lease.name
          (text "release") _ hn hm plain refl refl served in
      let handled : reply (λ r. released r) called ≡ (s', answered served.answer) =
        sym (rw body refl) ∙ run in
      let (e, a) = reply_parts (λ r. released r) called s' served.answer handled in
      let replied = net.reply c.sent (
        post c (operation_path lease.namespace lease.name (text "release")) (release_body lease)) in
      (
        ap (λ p. p.0) e,
        release_understood net c n lease i retries kept called.1
            (subst (λ x. Carries net x replied) a served.carries),
      )
