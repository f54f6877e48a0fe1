-- ===== src/Wire/Exchange.antt =====
-- One exchange of `do` with a server that answers it: internal/client/client.go and
-- internal/api/response.go.
use lockd.Prelude.{
  ℕ, suc, ◌≡◌, refl, true, false, Option, some, none, List, Text, text, text_eq, text_beq, is_empty,
  ℤ, pos, Bool-cases, inl, inr,
}
use lockd.Lock.Errors.{ErrorCode, Error, number}
use lockd.Api.Types.{Payload}
use lockd.Api.Responses.{write_ok, write_error, code_of, message_of}
use lockd.Client.Types.{Failure, api, Field, Reply, response, Decoder, Net, Client}
use lockd.Client.Requests.{
  do_request, read_reply, attempts, is_repeated, is_zero, build_request, is_listing,
}
use lockd.Client.Requests.Attempts.{is_final, repeat_final, exchange}
use lockd.Wire.{Carries, Reads}

-- A code of an error is not 0.
number-nonzero : (code : ErrorCode) → is_zero (pos (number code)) ≡ false
unfolding number
number-nonzero ErrorCode.invalid = refl
number-nonzero ErrorCode.not_found = refl
number-nonzero ErrorCode.already_exists = refl
number-nonzero ErrorCode.locked = refl
number-nonzero ErrorCode.not_held = refl
number-nonzero ErrorCode.token_invalid = refl
number-nonzero ErrorCode.namespace_denied = refl
number-nonzero ErrorCode.force_unauthorized = refl
number-nonzero ErrorCode.wait_timeout = refl
number-nonzero ErrorCode.quota_exceeded = refl
number-nonzero ErrorCode.internal = refl

-- There is a first round.
attempts-suc :
    (retries : ℤ) (n : ℕ) (method path : Text)
    → retries ≡ pos n
    → (k : ℕ) × (attempts retries method path ≡ suc k)
unfolding attempts
attempts-suc retries n method path e = elim (Bool-cases (is_repeated method path)) [
  | inl again ↦ (n, rw (again, e) refl)
  | inr once ↦ (0, rw once refl)
]

-- The error that the client makes of one of the server.
abbrev pub reported : Error → Failure
reported e = api (pos (number (code_of e))) (message_of e)

pub Carries-ok :
    (net : Net) (payload : Payload) (reply : Reply)
    → Carries net (write_ok payload) reply
    → (body json : Text) × (reply ≡ response 200 body)
      × (net.decode_envelope body ≡ some (record { code = pos 0; msg = text "ok"; payload = json }))
      × Reads net json payload
unfolding write_ok
Carries-ok net payload reply h = (h.body, h.reads.0, h.same_response, h.reads.1, h.reads.2)

module _ {ℓ} {A : Type ℓ} (net : Net) (decode : Decoder A) (path : Text) where
  pub read_reply-error :
      (e : Error) (reply : Reply) (target : A)
      → Carries net (write_error e) reply
      → read_reply net decode (text "POST") path target reply ≡ (target, some (reported e))
  unfolding read_reply write_error is_listing text text_beq
  read_reply-error e reply target h =
      rw (h.same_response, h.reads.1, number-nonzero (code_of e)) refl

  pub read_reply-ok :
      (reply : Reply) (status : ℕ) (body msg json : Text) (target found : A)
      → reply ≡ response status body
      → net.decode_envelope body ≡ some (record { code = pos 0; msg = msg; payload = json })
      → is_empty json ≡ false
      → decode json target ≡ (found, true)
      → read_reply net decode (text "POST") path target reply ≡ (found, none)
  unfolding read_reply is_listing text text_beq
  read_reply-ok reply status body msg json target found r e filled read =
      rw (r, e, filled, read) refl

  -- An exchange that ends the loop of `do` is its only one.
  pub do_request_final :
      (c : Client) (n : ℕ) (method : Text) (body : Option (List (Text × Field)))
      (force_token : Text) (target : A) (found : A) (failure : Option Failure)
      → c.retries ≡ pos n
      → read_reply net decode method path target
          (net.reply c.sent (build_request c.base_url method path body force_token))
        ≡ (found, failure)
      → is_final failure ≡ true
      → do_request net decode c method path body force_token target
        ≡ (record c { sent = suc c.sent }, found, failure)
  unfolding do_request
  do_request_final c n method body force_token target found failure retries read final =
      let request = build_request c.base_url method path body force_token in
      let (k, some_rounds) = attempts-suc c.retries n method path retries in
      let last : is_final (exchange net decode method path request c.sent target).1 ≡ true =
        rw read final in
      let round = repeat_final net decode method path request k 0 c.sent target none refl last in
      rw (some_rounds, round, read) refl
