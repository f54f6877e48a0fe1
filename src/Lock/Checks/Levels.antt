-- ===== src/Lock/Checks/Levels.antt =====
-- A lock that its holder enters twice.
use lockd.Prelude.{◌≡◌, refl, true, false, [], pos, contains, text, arith}
use lockd.Lock.Errors.{ok}
use lockd.Lock.Types.{Lock, next64}
use lockd.Lock.Lease.{normalize_ttl, lease_expiry, lease_expired}
use lockd.Lock.Acquire.{acquire_locked, returned}
use lockd.Lock.Calls.{release_locked}
use lockd.Lock.Exclusion.{Runs}
use lockd.Lock.Levels.{reenter_release}
use lockd.Lock.Checks.Samples.{seconds, counting, held_lock, held_lock-Runs, shared, request}

abbrev twice_lock : Lock
twice_lock = record held_lock { reentrant = true }

twice_lock-Runs : Runs twice_lock (seconds 110)
twice_lock-Runs = record {
  held = held_lock-Runs.held;
  unexpired = held_lock-Runs.unexpired;
  live = held_lock-Runs.live;
}

reenter_release_example :
    let r = acquire_locked counting shared twice_lock (request (text "alice")) (seconds 110) in
    let u = release_locked counting shared r.1 (text "tk_alice") (seconds 120) in
    (r.2
      ≡ returned (
          ok (record {
            token = text "tk_alice";
            holder = text "alice";
            depth = 2;
            expires_at = seconds 130;
            reentered = true;
          })))
    × (u.2 ≡ ok (record { released = false; depth = 1; next_holder = [] }))
    × (u.0 ≡ shared)
    × (u.1 ≡ record twice_lock { expires_at = seconds 150; version = 4 })
unfolding normalize_ttl lease_expiry lease_expired contains next64
reenter_release_example =
    reenter_release counting shared shared twice_lock (request (text "alice")) (seconds 110)
      (seconds 120) {ttl = pos (seconds 20)} twice_lock-Runs (omega arith) refl refl (ground arith)
      refl refl refl
