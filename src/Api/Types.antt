-- ===== src/Api/Types.antt =====
-- internal/api: requests and responses. A body is decoded by package encoding/json, which with
-- `time.ParseDuration` is a parameter, the record `Codec`: a decoder gives what the first value of
-- a body decodes to, `none` for an error, and whether nothing but space follows it.
use lockd.Prelude.{ℕ, Bool, Option, List, Text, ℤ}
use lockd.Lock.Types.{Time, Duration, AcquireResult, ReleaseResult, Event}
use lockd.Metrics.{Metrics}
use lockd.Lock.Registry.{View}

pub record CreateRequest : Type 0 where
  pub namespace : Text
  pub name : Text
  pub reentrant : Option Bool
  pub max_depth : ℤ
  pub ttl : Text
  pub auto_cleanup : Text

pub record AcquireRequest : Type 0 where
  pub holder : Text
  pub request_id : Text
  pub ttl : Text
  pub wait : Bool
  pub wait_timeout : Text

pub record RenewRequest : Type 0 where
  pub token : Text
  pub ttl : Text

pub record ReleaseRequest : Type 0 where
  pub token : Text
  pub request_id : Text

pub record WatchRequest : Type 0 where
  pub holder : Text
  pub request_id : Text
  pub timeout : Text

pub record StealRequest : Type 0 where
  pub holder : Text
  pub ttl : Text
  pub reason : Text

abbrev pub Decode : Type 0 → Type 0
Decode A = Text → Option A × Bool

pub record Codec : Type 0 where
  pub parse_duration : Text → Option Duration
  pub decode_create : Decode CreateRequest
  pub decode_acquire : Decode AcquireRequest
  pub decode_renew : Decode RenewRequest
  pub decode_release : Decode ReleaseRequest
  pub decode_watch : Decode WatchRequest
  pub decode_steal : Decode StealRequest

-- `path` is the decoded path of the URL, `query` gives the first value of a parameter or `""`.
pub record Request : Type 0 where
  pub method : Text
  pub path : Text
  pub query : Text → Text
  pub force_token : Text
  pub body : Text

-- The `data` of an envelope.
pub data Payload : Type 0 where
  nothing deleted : Payload
  created : Text → Time → Payload
  viewed : View → Payload
  acquired : AcquireResult → Payload
  renewed : Time → Payload
  released : ReleaseResult → Payload
  noticed : Event → Payload

-- What a handler writes after the status: an envelope, a bare list of views, the answer of the health
-- check (uptime in seconds, locks, waiters), the page of the metrics (with what `WritePrometheus` is
-- given: the counters, locks, waiters, locks by namespace), or nothing.
pub data Content : Type 0 where
  empty : Content
  envelope : ℕ → Text → Payload → Content
  views : List View → Content
  health : ℤ → ℕ → ℕ → Content
  metrics : Metrics → ℕ → ℕ → List (Text × ℕ) → Content

pub record Response : Type 0 where
  pub status : ℕ
  pub content : Content
