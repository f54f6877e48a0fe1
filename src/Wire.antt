-- ===== src/Wire.antt =====
-- The client of internal/client against the server of internal/api: what one exchange carries.
--
-- Between them stand net/http and encoding/json. The relations below say that a request arrives as
-- it was sent, and that a response is read as it was written.
pub mod Exchange
pub mod Calls
pub mod Acquiring
pub mod Keeping
pub mod Checks
use lockd.Prelude.{
  ℕ, ◌≡◌, ◌^◌, Bool, true, false, Option, some, none, List, [], ◌∷◌, ◌++◌, Text, text, is_empty,
  take, pos, if◌then◌else◌, ltb_ℤ,
}
use lockd.Lock.Errors.{Result, ok, err}
use lockd.Lock.Types.{Time, Duration, AcquireResult, ReleaseResult}
use lockd.Lock.Service.{Service}
use lockd.Strings.{path_unescape}
use lockd.Api.Types.{
  Codec, Request, Response, Payload, acquired, renewed, released, Content, envelope,
}
use lockd.Api.Handlers.{answered}
use lockd.Api.Router.{dispatch}
use lockd.Client.Requests.{build_request}
use lockd.Client.Types.{
  Client, Field, HttpRequest, Reply, response, LeaseReply, ReleaseReply, ClientOptions, Net,
}

-- The request that the server is given has the method, the token and the decoded path of the one
-- that the client sent.
pub record Arrives (path : Text) (q : HttpRequest) (r : Request) : Type 0 where
  pub same_method : r.method ≡ q.method
  pub same_token : r.force_token ≡ q.force_token
  pub located : path_unescape path ≡ some r.path

abbrev pub lease_reply : AcquireResult → LeaseReply
lease_reply a = record {
  token = a.token;
  holder = a.holder;
  depth = pos a.depth;
  expires_at = a.expires_at;
}

abbrev pub release_reply : ReleaseResult → ReleaseReply
release_reply r = record { released = r.released; depth = pos r.depth }

-- The decoders of the client read the JSON of what the server wrote.
abbrev pub Reads : Net → Text → Payload → Type 0
Reads net json (acquired a) =
    (is_empty json ≡ false)
    × ((target : LeaseReply) → net.decode_lease json target ≡ (lease_reply a, true))
    × ((target : LeaseReply) → net.decode_stolen json target ≡ (lease_reply a, true))
Reads net json (renewed t) =
    (is_empty json ≡ false) × ((target : Time) → net.decode_expiry json target ≡ (t, true))
Reads net json (released r) =
    (is_empty json ≡ false)
    × ((target : ReleaseReply) → net.decode_release json target ≡ (release_reply r, true))
Reads net json _ = Unit {0}

abbrev pub ReadsContent : Net → Text → Content → Type 0
ReadsContent net body (envelope code msg payload) =
    (json : Text) × (net.decode_envelope body
      ≡ some (record { code = pos code; msg = msg; payload = json }))
    × Reads net json payload
ReadsContent net body _ = Unit {0}

-- The reply that the client gets carries the response.
pub record Carries (net : Net) (r : Response) (reply : Reply) : Type 0 where
  pub body : Text
  pub same_response : reply ≡ response r.status body
  pub reads : ReadsContent net body r.content

-- A duration in the text of a request.
pub record IsShown (net : Net) (codec : Codec) (d : Duration) : Type 0 where
  pub nonempty : is_empty (net.show_duration d) ≡ false
  pub parsed : codec.parse_duration (net.show_duration d) ≡ some d

-- The next POST of a client.
abbrev pub post : Client → Text → List (Text × Field) → HttpRequest
post c path body = build_request c.base_url (text "POST") path (some body) []

-- The client's next exchange: the request arrives, the server answers it at once, and the answer
-- comes back.
pub record Served (net : Net) (codec : Codec) (rand : ℕ → Option (List ℕ)) (started now : Time)
    (files : Option (Request → Response)) (s s' : Service) (c : Client) (path : Text)
    (body : List (Text × Field)) : Type 0 where
  pub request : Request
  pub arrives : Arrives path (post c path body) request
  pub answer : Response
  pub answers : dispatch rand codec started files s none request now ≡ (s', answered answer)
  pub carries : Carries net answer (net.reply c.sent (post c path body))

-- A decoder of the server finds just this value in a body.
abbrev pub Holds : {A : Type 0} → (Text → Option A × Bool) → Text → A → Type 0
Holds decode body a = decode (take (2 ^ 20) body) ≡ (some a, true)
