-- ===== src/Metrics.antt =====
-- internal/metrics/metrics.go: the counters. Each is a uint64 and wraps.
pub mod Page
pub mod Digits
pub mod Reading
use lockd.Prelude.{ℕ, ◌+◌, ◌%◌, ◌^◌}

pub record Metrics : Type 0 where
  pub acquire : ℕ
  pub acquire_locked : ℕ
  pub renew : ℕ
  pub renew_fail : ℕ
  pub expiry : ℕ
  pub steal : ℕ
  pub notify : ℕ

abbrev add_one : ℕ → ℕ
add_one n = (n + 1) % 2 ^ 64

unfoldable pub inc_acquire : Metrics → Metrics
inc_acquire m = record m { acquire = add_one m.acquire }

unfoldable pub inc_acquire_locked : Metrics → Metrics
inc_acquire_locked m = record m { acquire_locked = add_one m.acquire_locked }

unfoldable pub inc_renew : Metrics → Metrics
inc_renew m = record m { renew = add_one m.renew }

unfoldable pub inc_renew_fail : Metrics → Metrics
inc_renew_fail m = record m { renew_fail = add_one m.renew_fail }

unfoldable pub inc_expiry : Metrics → Metrics
inc_expiry m = record m { expiry = add_one m.expiry }

unfoldable pub inc_steal : Metrics → Metrics
inc_steal m = record m { steal = add_one m.steal }

unfoldable pub inc_notify : Metrics → Metrics
inc_notify m = record m { notify = add_one m.notify }
