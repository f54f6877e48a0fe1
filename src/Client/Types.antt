-- ===== src/Client/Types.antt =====
-- internal/client/client.go and watch.go: the client's data, and what stands outside of it.
--
-- The network, the clock and package encoding/json are parameters, the fields of `Net`. A `*Lease` is an index into
-- the client's heap of leases, and `none` stands for nil.
use lockd.Prelude.{
  ℕ, ◌+◌, ◌*◌, ◌/◌, ◌-◌, Bool, Option, none, some, List, ◌++◌, Text, text, text_eq, if◌then◌else◌,
  leb, ℤ, pos, negsuc, leb_ℤ, ltb_ℤ,
}
use lockd.Lock.Errors.{Error}
use lockd.Lock.Types.{Time, Duration, Event}
use lockd.Strings.{path_escape}

-- An `error` of a call: an `*Error` of this package, `ctx.Err()`, or another one with its message.
pub data Failure : Type 0 where
  api : ℤ → Text → Failure
  ended : Error → Failure
  http_status : ℕ → Failure
  other : Text → Failure

-- `responseEnvelope`; `payload` is the raw JSON of `data`.
pub record Envelope : Type 0 where
  pub code : ℤ
  pub msg : Text
  pub payload : Text

-- A value in the JSON object of a request.
pub data Field : Type 0 where
  string : Text → Field
  flag : Bool → Field

pub record HttpRequest : Type 0 where
  pub method : Text
  pub url : Text
  pub body : Option (List (Text × Field))
  pub force_token : Text

-- What an exchange gives: an error before there is a response, also where the request cannot be built, or a response's status and body.
pub data Reply : Type 0 where
  lost : Text → Reply
  response : ℕ → Text → Reply

pub record Lease : Type 0 where
  pub namespace : Text
  pub name : Text
  pub holder : Text
  pub token : Text
  pub depth : ℤ
  pub expires_at : Time
  pub ttl : Duration

pub record ClientOptions : Type 0 where
  pub ttl : Duration
  pub wait : Bool
  pub wait_timeout : Duration
  pub request_id : Text

-- The targets into which responses are decoded.
pub record LeaseReply : Type 0 where
  pub token : Text
  pub holder : Text
  pub depth : ℤ
  pub expires_at : Time

pub record ReleaseReply : Type 0 where
  pub released : Bool
  pub depth : ℤ

-- Decoding into a target: the target afterwards, and whether the error is nil.
abbrev pub Decoder {ℓ} : Type ℓ → Type ℓ
Decoder A = Text → A → A × Bool

-- `reply n` answers the n-th exchange of the client. `wake n d` is the end of the wait of `d` before
-- that exchange: `none` when the timer fires, or `ctx.Err()`. `until n` is `time.Until` after it.
-- `show_duration` is `Duration.String`.
pub record Net : Type 1 where
  pub reply : ℕ → HttpRequest → Reply
  pub wake : ℕ → Duration → Option Error
  pub until : ℕ → Time → Duration
  pub show_duration : Duration → Text
  pub Listed : Type 0
  pub nothing_listed : Listed
  pub decode_envelope : Text → Option Envelope
  pub decode_lease : Decoder LeaseReply
  pub decode_stolen : Decoder LeaseReply
  pub decode_expiry : Decoder Time
  pub decode_release : Decoder ReleaseReply
  pub decode_event : Decoder Event
  pub decode_list : Decoder Listed

-- `SetHTTPClient`: nil leaves the client with the network that it has.
unfoldable pub set_http_client : Net → Option Net → Net
set_http_client current none = current
set_http_client current (some net) = net

-- `sent` counts the exchanges.
pub record Client : Type 0 where
  pub base_url : Text
  pub retries : ℤ
  pub leases : List (Text × ℕ)
  pub heap : List Lease
  pub sent : ℕ

unfoldable pub lock_path : Text → Text → Text
lock_path namespace name =
    text "/api/v1/locks/" ++ (path_escape namespace ++ (text "/" ++ path_escape name))

unfoldable pub lock_key : Text → Text → Text
lock_key namespace name = namespace ++ (text ":" ++ name)

abbrev pub second : ℕ
second = 1_000_000_000

-- `d.Round(time.Second)`: to the nearest second, halves away from zero.
abbrev round_pos : ℕ → ℕ
round_pos n = (n + 500_000_000) / second * second

unfoldable pub round_second : Duration → Duration
round_second (pos n) = pos (round_pos n)
round_second (negsuc n) = let r = round_pos (n + 1) in if leb r 0 then pos 0 else negsuc (r - 1)

abbrev max_ℤ : ℤ → ℤ → ℤ
max_ℤ a b = if leb_ℤ a b then b else a

abbrev min_ℤ : ℤ → ℤ → ℤ
min_ℤ a b = if leb_ℤ a b then a else b

-- `effectiveTTL`, for what `time.Until(expiresAt)` gives.
unfoldable pub effective_ttl : Duration → Duration → Duration
unfolding round_second
effective_ttl requested until =
    if ltb_ℤ (pos 0) requested
    then requested
    else min_ℤ (pos (600 * second)) (max_ℤ (pos second) (round_second until))
