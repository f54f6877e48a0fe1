-- ===== src/Lock/Types.antt =====
-- internal/lock/types.go and waiter.go: the data of the lock service.
--
-- A `time.Time` is the number of nanoseconds since the zero time, so that 0 is `time.Time{}`; a
-- `time.Duration` is a signed number of nanoseconds. A `*waiter` is an index into the record's
-- store of waiters, and an index with no entry stands for a nil pointer.
use lockd.Prelude.{
  ℕ, ◌+◌, ◌-◌, ◌%◌, ◌^◌, Bool, true, false, ◌&&◌, not, List, [], ◌∷◌, ◌++◌, Text, text, is_empty,
  ltb, leb, if◌then◌else◌, ℤ, pos_part, neg_part, length, take, drop,
}
use lockd.Lock.Errors.{Result, ok}

abbrev pub Time : Type 0
Time = ℕ

abbrev pub Duration : Type 0
Duration = ℤ

-- `x++` and `x.Add(1)` on a uint64.
unfoldable pub next64 : ℕ → ℕ
next64 n = (n + 1) % 2 ^ 64

-- `t.Add(d)`.
abbrev pub add_time : Time → Duration → Time
add_time t d = t + pos_part d - neg_part d

pub data EventKind : Type 0 where
  held released expired stolen purged : EventKind

pub record CreateOptions : Type 0 where
  pub namespace : Text
  pub name : Text
  pub reentrant : Bool
  pub max_depth : ℤ
  pub default_ttl : Duration
  pub auto_cleanup : Duration

pub record AcquireOptions : Type 0 where
  pub holder : Text
  pub request_id : Text
  pub ttl : Duration
  pub wait : Bool

pub record AcquireResult : Type 0 where
  pub token : Text
  pub holder : Text
  pub depth : ℕ
  pub expires_at : Time
  pub reentered : Bool

pub record ReleaseResult : Type 0 where
  pub released : Bool
  pub depth : ℕ
  pub next_holder : Text

pub record Event : Type 0 where
  pub lock : Text
  pub namespace : Text
  pub event : EventKind
  pub reason : Text
  pub at : Time
  pub seq : ℕ

pub record WaiterView : Type 0 where
  pub seq : ℕ
  pub holder : Text
  pub request_id : Text
  pub waiting_since : Time

-- `done` holds what was sent into the channel and not yet received; its buffer has one place.
pub record Waiter : Type 0 where
  pub seq : ℕ
  pub holder : Text
  pub request_id : Text
  pub ttl : Duration
  pub waiting_since : Time
  pub done : List (Result AcquireResult)
  pub cancelled : Bool
  pub granted : Bool
  pub result : AcquireResult

-- A `*record` with the waiters that its calls have made. `queue` is `queue.items`.
pub record Lock : Type 0 where
  pub namespace : Text
  pub name : Text
  pub created_at : Time
  pub reentrant : Bool
  pub max_depth : ℤ
  pub default_ttl : Duration
  pub auto_cleanup : Duration
  pub holder : Text
  pub token : Text
  pub depth : ℕ
  pub expires_at : Time
  pub version : ℕ
  pub last_idle_at : Time
  pub deleted : Bool
  pub queue : List ℕ
  pub released_token : List Text
  pub waiters : List Waiter

-- `fullName`.
unfoldable pub full_name : Text → Text → Text
full_name namespace name = namespace ++ (text ":" ++ name)

-- `record.fullName`.
abbrev pub lock_name : Lock → Text
lock_name item = full_name item.namespace item.name

-- `record.held`.
unfoldable pub is_held : Lock → Time → Bool
is_held item now = not (is_empty item.token) && ltb now item.expires_at

-- `tokenHint`: the three bytes between are the ellipsis in UTF-8.
unfoldable pub token_hint : Text → Text
token_hint token =
    if leb (length token) 10
    then token
    else take 7 token ++ (226 ∷ 128 ∷ 166 ∷ []) ++ drop (length token - 4) token

-- `&waiter{...}` of `newWaiter`, and the zero result.
abbrev pub zero_result : AcquireResult
zero_result = record { token = []; holder = []; depth = 0; expires_at = 0; reentered = false }

unfoldable pub new_waiter : ℕ → AcquireOptions → Time → Waiter
new_waiter seq options now = record {
  seq = seq;
  holder = options.holder;
  request_id = options.request_id;
  ttl = options.ttl;
  waiting_since = now;
  done = [];
  cancelled = false;
  granted = false;
  result = zero_result;
}

-- `waiter.view`.
unfoldable pub waiter_view : Waiter → WaiterView
waiter_view w = record {
  seq = w.seq;
  holder = w.holder;
  request_id = w.request_id;
  waiting_since = w.waiting_since;
}

-- `w.done <- outcome`.
unfoldable pub send : Waiter → Result AcquireResult → Waiter
send w outcome = record w { done = w.done ++ outcome ∷ [] }

-- `waiter.grant`.
unfoldable pub grant : Waiter → AcquireResult → Waiter
unfolding send
grant w result = send (record w { granted = true; result = result }) (ok result)

-- `waiter.cancel`.
unfoldable pub cancel : Waiter → Waiter
cancel w = record w { cancelled = true }
