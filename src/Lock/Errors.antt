-- ===== src/Lock/Errors.antt =====
-- internal/lock/errors.go, with the two errors of a context that calls pass on.
use lockd.Prelude.{ℕ, Text, text, ◌≡◌, ◌⊎◌, inl, inr, refl}

pub data ErrorCode : Type 0 where
  invalid not_found already_exists locked token_invalid not_held wait_timeout : ErrorCode
  namespace_denied quota_exceeded force_unauthorized internal : ErrorCode

-- The wire number of a code.
unfoldable pub number : ErrorCode → ℕ
number ErrorCode.invalid = 10001
number ErrorCode.not_found = 10002
number ErrorCode.already_exists = 10003
number ErrorCode.locked = 10004
number ErrorCode.token_invalid = 10005
number ErrorCode.not_held = 10006
number ErrorCode.wait_timeout = 10007
number ErrorCode.namespace_denied = 10008
number ErrorCode.quota_exceeded = 10009
number ErrorCode.force_unauthorized = 10010
number ErrorCode.internal = 10011

-- An `error` value: an `*Error` of this package, or what `ctx.Err()` gives.
pub data Error : Type 0 where
  core : ErrorCode → Text → Error
  canceled deadline_exceeded : Error

pub data Result {ℓ} (A : Type ℓ) : Type ℓ where
  ok : A → Result A
  err : Error → Result A

abbrev pub err_invalid : Error
err_invalid = core ErrorCode.invalid (text "invalid argument")

abbrev pub err_not_found : Error
err_not_found = core ErrorCode.not_found (text "lock not found")

abbrev pub err_already_exists : Error
err_already_exists = core ErrorCode.already_exists (text "lock already exists")

abbrev pub err_locked : Error
err_locked = core ErrorCode.locked (text "lock is held")

abbrev pub err_token_invalid : Error
err_token_invalid = core ErrorCode.token_invalid (text "token is invalid")

abbrev pub err_not_held : Error
err_not_held = core ErrorCode.not_held (text "lock is not held")

abbrev pub err_wait_timeout : Error
err_wait_timeout = core ErrorCode.wait_timeout (text "wait timed out")

abbrev pub err_namespace_denied : Error
err_namespace_denied = core ErrorCode.namespace_denied (text "namespace is not allowed")

abbrev pub err_quota_exceeded : Error
err_quota_exceeded = core ErrorCode.quota_exceeded (text "namespace quota exceeded")

abbrev pub err_force_unauthorized : Error
err_force_unauthorized = core ErrorCode.force_unauthorized (text "force token is invalid")

pub Result-cases {ℓ} :
    {A : Type ℓ} (r : Result A) → ((e : Error) × (r ≡ err e)) ⊎ ((a : A) × (r ≡ ok a))
Result-cases (ok a) = inr (a, refl)
Result-cases (err e) = inl (e, refl)
