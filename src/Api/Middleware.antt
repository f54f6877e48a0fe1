-- ===== src/Api/Middleware.antt =====
-- internal/api/middleware.go: the status and the level of a request's log record, and the answer to a panic.
use lockd.Prelude.{List, [], ◌∷◌, ℕ, ◌||◌, Option, some, none, Text, text, leb, ltb, if◌then◌else◌}
use lockd.Lock.Errors.{ErrorCode, core}
use lockd.Logger.{Logger, log, error}
use lockd.Api.Types.{Response}
use lockd.Api.Responses.{write_error}

-- `requestLogging`, for a handler that took `elapsed` nanoseconds.
unfoldable pub request_level : ℕ → ℕ → Text
request_level status elapsed =
    if ltb 50_000_000 elapsed || leb 400 status then text "warn" else text "info"

-- `statusWriter`, which forwards what it is told and keeps the status.
pub record StatusWriter : Type 0 where
  pub status : ℕ

-- `statusWriter.WriteHeader`.
unfoldable pub write_header : StatusWriter → ℕ → StatusWriter
write_header w status = record w { status = status }

-- The writer that `requestLogging` makes, and what the handler's calls of `WriteHeader` leave.
unfoldable pub serve_statuses : StatusWriter → List ℕ → StatusWriter
unfolding write_header
serve_statuses w [] = w
serve_statuses w (status ∷ statuses) = serve_statuses (write_header w status) statuses

-- `requestLogging`, for a handler that wrote these statuses. The record is logged at the end.
unfoldable pub log_request : Logger → List ℕ → ℕ → Option Text → Logger
unfolding request_level serve_statuses
log_request l statuses elapsed line =
    let wrapped = serve_statuses (record { status = 200 }) statuses in
    log l (request_level wrapped.status elapsed) line

-- `recoverPanics`: `none` is a handler that panicked before it wrote.
unfoldable pub recovered : Logger → Option Response → Option Text → Logger × Response
recovered l (some r) line = (l, r)
recovered l none line =
    (error l line, write_error (core ErrorCode.internal (text "internal error")))
