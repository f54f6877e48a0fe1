-- ===== src/Api/Answers.antt =====
-- The statuses of answers and the codes in their envelopes: internal/api/handlers.go and response.go.
use lockd.Prelude.{ℕ, ◌≡◌, ◌⊎◌, text_eq}
use lockd.Lock.Errors.{ErrorCode}
use lockd.Lock.Service.{Service}
use lockd.Api.Types.{Response, nothing, envelope, empty, views, health, metrics}
use lockd.Api.Handlers.{Reply, answered, acquiring, noticing, streaming}

-- The status and the code in the envelope of each class of errors, as clients know them.
abbrev pub wire_table : ErrorCode → ℕ × ℕ
wire_table ErrorCode.invalid = (400, 10001)
wire_table ErrorCode.not_found = (404, 10002)
wire_table ErrorCode.already_exists = (409, 10003)
wire_table ErrorCode.locked = (409, 10004)
wire_table ErrorCode.token_invalid = (403, 10005)
wire_table ErrorCode.not_held = (409, 10006)
wire_table ErrorCode.wait_timeout = (408, 10007)
wire_table ErrorCode.namespace_denied = (403, 10008)
wire_table ErrorCode.quota_exceeded = (429, 10009)
wire_table ErrorCode.force_unauthorized = (403, 10010)
wire_table ErrorCode.internal = (500, 10011)

-- Success is status 200 with code 0 or with a page of its own; an error has the status and the code
-- of the table, and shows no data; a wrong method has status 405 and no envelope.
abbrev pub IsCoherent : Response → Type 0
IsCoherent r = elim r.content [
  | envelope code msg payload ↦
      ((r.status ≡ 200) × (code ≡ 0))
      ⊎ ((c : ErrorCode) × ((r.status, code) ≡ wire_table c) × (payload ≡ nothing))
  | empty ↦ r.status ≡ 405
  | views vs ↦ r.status ≡ 200
  | health uptime locks waiters ↦ r.status ≡ 200
  | metrics counters locks waiters namespaces ↦ r.status ≡ 200
]

abbrev pub AnswersWell : Service × Reply → Type 0
AnswersWell (s, answered r) = IsCoherent r
AnswersWell (s, acquiring w limit) = Unit {0}
AnswersWell (s, noticing id name limit) = Unit {0}
AnswersWell (s, streaming id namespace) = Unit {0}
