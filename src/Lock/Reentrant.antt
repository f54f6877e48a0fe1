-- ===== src/Lock/Reentrant.antt =====
-- internal/lock/reentrant.go: entering a lock again, and giving one level back.
use lockd.Prelude.{
  ◌+◌, ◌-◌, true, false, ◌||◌, not, Option, some, none, [], Text, text, text_eq, is_empty, ltb,
  ◌==◌, if◌then◌else◌, pos, leb_ℤ,
}
use lockd.Lock.Errors.{ErrorCode, Result, ok, err, core}
use lockd.Lock.Types.{Time, Duration, next64, Lock, AcquireResult, ReleaseResult}
use lockd.Lock.Lease.{lease_expiry}

-- `none` when the call is not handled here.
unfoldable pub try_reenter : Lock → Text → Duration → Time → Lock × Option (Result AcquireResult)
unfolding lease_expiry
try_reenter r holder ttl now =
    if not (r.holder == holder) || is_empty r.token
    then (r, none)
    else if not r.reentrant
    then (r, none)
    else if leb_ℤ r.max_depth (pos r.depth)
    then (r, some (err (core ErrorCode.invalid (text "maximum reentrant depth reached"))))
    else (
      record r {
        depth = r.depth + 1;
        expires_at = lease_expiry now ttl;
        version = next64 r.version;
      },
      some (
          ok (record {
            token = r.token;
            holder = r.holder;
            depth = r.depth + 1;
            expires_at = lease_expiry now ttl;
            reentered = true;
          })),
    )

unfoldable pub decrease_depth : Lock → Time → Lock × ReleaseResult
unfolding lease_expiry
decrease_depth r now =
    if ltb 1 r.depth
    then (
      record r {
        depth = r.depth - 1;
        expires_at = lease_expiry now r.default_ttl;
        version = next64 r.version;
      },
      record { released = false; depth = r.depth - 1; next_holder = [] },
    )
    else (r, record { released = true; depth = 0; next_holder = [] })
