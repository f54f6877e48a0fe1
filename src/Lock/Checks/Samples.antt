-- ===== src/Lock/Checks/Samples.antt =====
-- Concrete data for the examples: a source of random bytes, locks, waiters and services.
use lockd.Prelude.{
  ℕ, ◌*◌, ◌%◌, ◌/◌, ◌≡◌, ◌≢◌, text_beq, text_beq_iff, refl, true, false, Option, some, none, List,
  [], ◌∷◌, Text, text, pos, get_elem?, contains, arith,
}
use lockd.Lock.Types.{Lock, Waiter, CreateOptions, AcquireOptions, zero_result}
use lockd.Lock.Lease.{new_token, lease_expired}
use lockd.Lock.Shared.{Shared}
use lockd.Lock.Notify.{new_bus}
use lockd.Lock.Valid.{IsValid}
use lockd.Lock.Exclusion.{Runs}
use lockd.Lock.Progress.{Works}

abbrev pub seconds : ℕ → ℕ
seconds n = n * 1_000_000_000

-- Two bytes that count the calls, and 16 that do not change.
abbrev pub counting : ℕ → Option (List ℕ)
counting n = some (
    n % 256
    ∷ n / 256 % 256
    ∷ 1
    ∷ 2
    ∷ 3
    ∷ 4
    ∷ 5
    ∷ 6
    ∷ 7
    ∷ 8
    ∷ 9
    ∷ 10
    ∷ 11
    ∷ 12
    ∷ 13
    ∷ 14
    ∷ 15
    ∷ 16
    ∷ [])

pub differ : (s t : Text) → text_beq s t ≡ false → s ≢ t
differ s t e h = absurd (grind (arith, e, (text_beq_iff s t).1 h))

pub counting-Works : Works counting
unfolding new_token
counting-Works n = λ e. absurd (cc)

-- A source that always fails.
abbrev pub broken : ℕ → Option (List ℕ)
broken n = none

abbrev pub waiting_bob : Waiter
waiting_bob = record {
  seq = 1;
  holder = text "bob";
  request_id = [];
  ttl = pos (seconds 20);
  waiting_since = seconds 101;
  done = [];
  cancelled = false;
  granted = false;
  result = zero_result;
}

-- A lock that alice holds until second 130, and that bob waits for.
abbrev pub held_lock : Lock
held_lock = record {
  namespace = text "default";
  name = text "build";
  created_at = seconds 90;
  reentrant = false;
  max_depth = pos 64;
  default_ttl = pos (seconds 30);
  auto_cleanup = pos 0;
  holder = text "alice";
  token = text "tk_alice";
  depth = 1;
  expires_at = seconds 130;
  version = 2;
  last_idle_at = seconds 90;
  deleted = false;
  queue = 0 ∷ [];
  released_token = [];
  waiters = waiting_bob ∷ [];
}

abbrev pub shared : Shared
shared = record {
  bus = new_bus;
  metrics = record {
    acquire = 0;
    acquire_locked = 0;
    renew = 0;
    renew_fail = 0;
    expiry = 0;
    steal = 0;
    notify = 0;
  };
  seq = 1;
  event_seq = 1;
  draws = 0;
}

pub held_lock-IsValid : IsValid held_lock
unfolding text get_elem? contains
held_lock-IsValid = record {
  terms = ground arith;
  depths = ground arith;
  lease = ground arith;
  queued = ground arith;
  sound = ground arith;
  gone = λ e. absurd (cc);
}

pub held_lock-Runs : Runs held_lock (seconds 110)
unfolding text lease_expired
held_lock-Runs = record { held = λ e. absurd (cc); unexpired = refl; live = refl }

abbrev pub creation : CreateOptions
creation = record {
  namespace = text "default";
  name = text "build";
  reentrant = false;
  max_depth = pos 0;
  default_ttl = pos 0;
  auto_cleanup = pos 0;
}

abbrev pub request : Text → AcquireOptions
request holder = record { holder = holder; request_id = []; ttl = pos (seconds 20); wait = true }
