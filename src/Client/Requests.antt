-- ===== src/Client/Requests.antt =====
-- internal/client/client.go: one exchange with the server, and the loop that repeats it.
pub mod Attempts
pub mod Sending
use lockd.Prelude.{
  ℕ, zero, suc, ◌-◌, ◌*◌, ◌^◌, Bool, true, false, ◌&&◌, ◌||◌, not, Option, some, none, List, [],
  ◌∷◌, ◌++◌, Text, text, text_eq, nat_eq, is_empty, leb, ◌==◌, if◌then◌else◌, ℤ, pos, negsuc,
}
use lockd.Lock.Errors.{Error}
use lockd.Lock.Types.{Duration}
use lockd.Strings.{has_prefix, has_suffix, cut_prefix}
use lockd.Client.Types.{
  Failure, api, ended, http_status, other, Envelope, Field, HttpRequest, Reply, lost, response,
  Decoder, Net, Client,
}

-- The listing of locks is the one answer that has no envelope.
unfoldable pub is_listing : Text → Text → Bool
is_listing method path =
    method == text "GET"
    && (path == text "/api/v1/locks" || has_prefix path (text "/api/v1/locks?"))

abbrev pub decoded {ℓ} : {A : Type ℓ} → A × Bool → A × Option Failure
decoded (target, true) = (target, none)
decoded (target, false) = (target, some (other (text "json")))

abbrev pub is_zero : ℤ → Bool
is_zero (pos n) = n == 0
is_zero (negsuc n) = false

abbrev read_envelope {ℓ} : {A : Type ℓ} → Decoder A → A → Option Envelope → A × Option Failure
read_envelope decode target none = (target, some (other (text "json")))
read_envelope decode target (some e) =
    if not (is_zero e.code)
    then (target, some (api e.code e.msg))
    else if is_empty e.payload
    then (target, none)
    else decoded (decode e.payload target)

-- What `doOnce` makes of the end of an exchange: the target, and the error.
unfoldable pub read_reply {ℓ} :
    {A : Type ℓ} → Net → Decoder A → Text → Text → A → Reply → A × Option Failure
unfolding is_listing
read_reply net decode method path target (lost e) = (target, some (other e))
read_reply net decode method path target (response status body) =
    if is_listing method path
    then if leb 400 status
      then (target, some (http_status status))
      else decoded (decode body target)
    else read_envelope decode target (net.decode_envelope body)

unfoldable pub build_request :
    Text → Text → Text → Option (List (Text × Field)) → Text → HttpRequest
build_request base_url method path body force_token = record {
  method = method;
  url = base_url ++ path;
  body = body;
  force_token = force_token;
}

-- `time.Duration(1<<(attempt-1)) * 50 * time.Millisecond`.
abbrev pub delay : ℕ → Duration
delay attempt = pos (2 ^ (attempt - 1) * 50_000_000)

abbrev pub pause : Net → ℕ → ℕ → Option Error
pause net sent zero = none
pause net sent (suc attempt) = net.wake sent (delay (suc attempt))

-- What an exchange, a loop or a call ends with: the count of exchanges, the target and the error.
abbrev pub Done {ℓ} : Type ℓ → Type ℓ
Done A = ℕ × A × Option Failure

-- The loop of `do` at its `attempt`, with `rounds` of it left.
unfoldable pub repeat {ℓ} :
    {A : Type ℓ}
    → Net
    → Decoder A
    → Text
    → Text
    → HttpRequest
    → ℕ
    → ℕ
    → ℕ
    → A
    → Option Failure
    → Done A
unfolding read_reply
repeat net decode method path request zero attempt sent target last = (sent, target, last)
repeat net decode method path request (suc rounds) attempt sent target last =
    elim (pause net sent attempt) [
      | some e ↦ (sent, target, some (ended e))
      | none ↦
          let r = read_reply net decode method path target (net.reply sent request) in
          elim r.1 [
            | none ↦ (suc sent, r.0, none)
            | some failure ↦ elim failure [
              | api code msg ↦ (suc sent, r.0, some (api code msg))
              | ended e ↦
                  repeat net decode method path request rounds (suc attempt) (suc sent) r.0
                    (some (ended e))
              | http_status status ↦
                  repeat net decode method path request rounds (suc attempt) (suc sent) r.0
                    (some (http_status status))
              | other e ↦
                  repeat net decode method path request rounds (suc attempt) (suc sent) r.0
                    (some (other e))
            ]
          ]
    ]

-- Requests that `do` repeats.
unfoldable pub is_repeated : Text → Text → Bool
is_repeated method path = method == text "GET" || has_suffix path (text "/watch")

-- The number of rounds of the loop: `attempt <= attempts` from 0.
abbrev rounds_of : ℤ → ℕ
rounds_of (pos n) = suc n
rounds_of (negsuc n) = 0

unfoldable pub attempts : ℤ → Text → Text → ℕ
unfolding is_repeated
attempts retries method path = if is_repeated method path then rounds_of retries else 1

-- `do`.
unfoldable pub do_request {ℓ} :
    {A : Type ℓ}
    → Net
    → Decoder A
    → Client
    → Text
    → Text
    → Option (List (Text × Field))
    → Text
    → A
    → Client × A × Option Failure
unfolding attempts repeat build_request
do_request net decode c method path body force_token target =
    let r =
      repeat net decode method path (build_request c.base_url method path body force_token)
        (attempts c.retries method path) 0 c.sent target none in
    (record c { sent = r.0 }, r.1, r.2)
