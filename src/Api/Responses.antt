-- ===== src/Api/Responses.antt =====
-- internal/api/response.go: envelopes, statuses and bodies.
use lockd.Prelude.{ℕ, Bool, true, false, Option, some, none, Text, text, ◌^◌, take}
use lockd.Lock.Errors.{ErrorCode, Error, Result, ok, err, core, canceled, deadline_exceeded, number}
use lockd.Api.Types.{Decode, Payload, nothing, envelope, empty, Response}

unfoldable pub write_ok : Payload → Response
write_ok payload = record { status = 200; content = envelope 0 (text "ok") payload }

-- The switch of `writeError`.
unfoldable pub status_of : ErrorCode → ℕ
status_of ErrorCode.invalid = 400
status_of ErrorCode.not_found = 404
status_of ErrorCode.already_exists = 409
status_of ErrorCode.locked = 409
status_of ErrorCode.not_held = 409
status_of ErrorCode.token_invalid = 403
status_of ErrorCode.namespace_denied = 403
status_of ErrorCode.force_unauthorized = 403
status_of ErrorCode.wait_timeout = 408
status_of ErrorCode.quota_exceeded = 429
status_of ErrorCode.internal = 500

-- `errors.As`: any other error becomes an internal one.
abbrev pub code_of : Error → ErrorCode
code_of (core code message) = code
code_of canceled = ErrorCode.internal
code_of deadline_exceeded = ErrorCode.internal

abbrev pub message_of : Error → Text
message_of (core code message) = message
message_of canceled = text "internal error"
message_of deadline_exceeded = text "internal error"

unfoldable pub write_error : Error → Response
unfolding status_of number
write_error e = record {
  status = status_of (code_of e);
  content = envelope (number (code_of e)) (message_of e) nothing;
}

abbrev pub invalid : Text → Error
invalid message = core ErrorCode.invalid message

abbrev pub one_value {ℓ} : {A : Type ℓ} → Option A × Bool → Result A
one_value (none, ends) = err (invalid (text "invalid JSON body"))
one_value (some a, true) = ok a
one_value (some a, false) = err (invalid (text "request body must contain one JSON value"))

-- `decodeJSON`; the decoder reads a megabyte at most.
unfoldable pub decode_json : {A : Type 0} → Decode A → Text → Result A
decode_json decode body = one_value (decode (take (2 ^ 20) body))

-- `w.WriteHeader` with no body.
abbrev pub method_not_allowed : Response
method_not_allowed = record { status = 405; content = empty }
