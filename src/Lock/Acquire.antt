-- ===== src/Lock/Acquire.antt =====
-- internal/lock/service.go: the critical sections of `Acquire` under the record's mutex, and what
-- the caller does when its wait ends.
use lockd.Prelude.{
  ℕ, ◌&&◌, not, Option, some, none, List, [], ◌∷◌, ◌++◌, text, is_empty, nat_eq, ◌==◌,
  if◌then◌else◌, length, get_elem?, set,
}
use lockd.Metrics.{inc_acquire, inc_acquire_locked}
use lockd.Lock.Errors.{
  Error, Result, ok, err, core, canceled, deadline_exceeded, err_not_found, err_locked,
  err_wait_timeout,
}
use lockd.Lock.Types.{
  Time, EventKind, AcquireOptions, AcquireResult, Lock, Waiter, next64, new_waiter, cancel,
}
use lockd.Lock.Lease.{normalize_ttl}
use lockd.Lock.Queue.{push, active_length, remove}
use lockd.Lock.Reentrant.{try_reenter}
use lockd.Lock.Shared.{Shared, emit, assign_locked, expire_locked}

-- The call has returned, or waits at the waiter with this address.
pub data AcquireStep : Type 0 where
  returned : Result AcquireResult → AcquireStep
  waiting : ℕ → AcquireStep

abbrev pub count_acquire : Shared → Shared
count_acquire s = record s { metrics = inc_acquire s.metrics }

-- Lines 95 to 98: a new waiter joins the queue.
unfoldable pub join_queue : Shared → Lock → AcquireOptions → Time → Shared × Lock × AcquireStep
unfolding push new_waiter
join_queue s item options now =
    let seq = next64 s.seq in
    let address = length item.waiters in
    (
      record s { seq = seq },
      record item {
        waiters = item.waiters ++ new_waiter seq options now ∷ [];
        queue = push item.queue address;
        version = next64 item.version;
      },
      waiting address,
    )

-- What follows when the lock cannot be granted at once.
unfoldable pub contend : Shared → Lock → AcquireOptions → Time → Shared × Lock × AcquireStep
unfolding join_queue
contend s item options now =
    let (item', handled) = try_reenter item options.holder options.ttl now in
    elim handled [
      | some (ok result) ↦ (
        emit (count_acquire s) item' EventKind.held (text "reenter") now,
        item',
        returned (ok result),
      )
      | some (err e) ↦ (s, item', returned (err e))
      | none ↦
          if not options.wait
          then (
            record s { metrics = inc_acquire_locked s.metrics },
            item',
            returned (err err_locked),
          )
          else join_queue s item' options now
    ]

module _ (rand : ℕ → Option (List ℕ)) where
  -- Lines 73 to 80.
  unfoldable pub acquire_idle : Shared → Lock → AcquireOptions → Time → Shared × Lock × AcquireStep
  acquire_idle s item options now =
      let (s', item', outcome) = assign_locked rand s item options.holder options.ttl now in
      elim outcome [
        | ok result ↦ (
          emit (count_acquire s') item' EventKind.held (text "acquire") now,
          item',
          returned (ok result),
        )
        | err e ↦ (s', item', returned (err e))
      ]

  -- Lines 72 to 98, after the expiry check.
  unfoldable pub acquire_live : Shared → Lock → AcquireOptions → Time → Shared × Lock × AcquireStep
  unfolding acquire_idle
  acquire_live s item options now =
      if is_empty item.token && (active_length item.waiters item.queue == 0)
      then acquire_idle s item options now
      else contend s item options now

  -- Lines 59 to 98.
  unfoldable pub acquire_locked :
      Shared → Lock → AcquireOptions → Time → Shared × Lock × AcquireStep
  unfolding acquire_live
  acquire_locked s item options now =
      if item.deleted
      then (s, item, returned (err err_not_found))
      else elim (normalize_ttl options.ttl item.default_ttl) [
        | err e ↦ (s, item, returned (err e))
        | ok ttl ↦
            let (s', item', _) = expire_locked rand s item now in
            acquire_live s' item' (record options { ttl = ttl }) now
      ]

abbrev received : Shared → Result AcquireResult → Shared
received s (ok result) = count_acquire s
received s (err e) = s

abbrev receive : Shared → Lock → ℕ → Option Waiter → Option (Shared × Lock × Result AcquireResult)
receive s item a none = none
receive s item a (some w) = elim w.done [
  | [] ↦ none
  | outcome ∷ rest ↦ some (
    received s outcome,
    record item { waiters = set item.waiters a (record w { done = rest }) },
    outcome,
  )
]

-- `case outcome := <-w.done`: `none` while the channel is empty.
unfoldable pub wait_done : Shared → Lock → ℕ → Option (Shared × Lock × Result AcquireResult)
wait_done s item a = receive s item a (get_elem? item.waiters a)

-- `ctx.Err()` as the call reports it.
abbrev pub wait_error : Error → Error
wait_error deadline_exceeded = err_wait_timeout
wait_error canceled = canceled
wait_error (core c m) = core c m

abbrev give_up : Shared → Lock → ℕ → Error → Option Waiter → Shared × Lock × Result AcquireResult
give_up s item a e none = (s, item, err (wait_error e))
give_up s item a e (some w) = if w.granted then (count_acquire s, item, ok w.result) else (
  s,
  record item {
    waiters = set item.waiters a (cancel w);
    queue = (remove item.queue a).1;
    version = next64 item.version;
  },
  err (wait_error e),
)

-- `case <-ctx.Done()`, where `e` is `ctx.Err()`.
unfoldable pub wait_cancelled : Shared → Lock → ℕ → Error → Shared × Lock × Result AcquireResult
unfolding cancel remove
wait_cancelled s item a e = give_up s item a e (get_elem? item.waiters a)
