-- ===== src/Lock/Shared.antt =====
-- internal/lock/service.go: what the calls on all locks share (the bus, the metrics, the counters),
-- and the helpers that run under a record's mutex: emit, assignLocked, grantNextLocked and
-- expireLocked. `rand` is crypto/rand: `rand n` is what the n-th call of `rand.Read` gives.
pub mod Rounds
use lockd.Prelude.{
  ℕ, zero, suc, Bool, true, false, ◌||◌, not, Option, some, none, List, Text, text, is_empty, ltb,
  if◌then◌else◌, length, get_elem?, set, [],
}
use lockd.Metrics.{Metrics, inc_expiry, inc_notify}
use lockd.Lock.Errors.{ErrorCode, Result, ok, err, core}
use lockd.Lock.Types.{
  Time, Duration, EventKind, Lock, Waiter, AcquireResult, next64, lock_name, grant, send,
}
use lockd.Lock.Lease.{new_token, assign_lease, clear_lease, lease_expired}
use lockd.Lock.Queue.{pop}
use lockd.Lock.Notify.{Bus, broadcast}

-- The fields of `Service` but the registry and the force token; `draws` counts the calls of
-- `rand.Read`.
pub record Shared : Type 0 where
  pub bus : Bus
  pub metrics : Metrics
  pub seq : ℕ
  pub event_seq : ℕ
  pub draws : ℕ

-- `emit`. The event carries the new value of the counter.
unfoldable pub emit : Shared → Lock → EventKind → Text → Time → Shared
emit s item kind reason now =
    let seq = next64 s.event_seq in
    let (bus, delivered) = broadcast s.bus (record {
      lock = lock_name item;
      namespace = item.namespace;
      event = kind;
      reason = reason;
      at = now;
      seq = seq;
    }) in
    record s {
      bus = bus;
      event_seq = seq;
      metrics = if ltb 0 delivered then inc_notify s.metrics else s.metrics;
    }

module _ (rand : ℕ → Option (List ℕ)) where
  -- `assignLocked`.
  unfoldable pub assign_locked :
      Shared → Lock → Text → Duration → Time → Shared × Lock × Result AcquireResult
  unfolding assign_lease
  assign_locked s item holder ttl now =
      let s' = record s { draws = suc s.draws } in
      elim (new_token (rand s.draws)) [
        | none ↦ (s', item, err (core ErrorCode.internal (text "could not create lease token")))
        | some token ↦
            let (item', result) = assign_lease item holder token ttl now in (s', item', ok result)
      ]

  -- One round of the loop of `grantNextLocked`, for the waiter `w` at `a`: whether it was granted.
  unfoldable pub serve : Shared → Lock → ℕ → Waiter → Time → Shared × Lock × Bool
  unfolding assign_locked grant send
  serve s item a w now =
      let (s', item', outcome) = assign_locked s item w.holder w.ttl now in
      elim outcome [
        | ok result ↦ (s', record item' { waiters = set item'.waiters a (grant w result) }, true)
        | err e ↦ (s', record item' { waiters = set item'.waiters a (send w (err e)) }, false)
      ]

  -- `grantNextLocked`: the holder that was served, if any. Each round shortens the queue, so the
  -- length of the queue bounds the rounds.
  unfoldable pub grant_loop : ℕ → Shared → Lock → Time → Shared × Lock × Option Text
  grant_loop zero s item now = (s, item, none)
  grant_loop (suc fuel) s item now =
      let (next, rest) = pop item.waiters item.queue in
      let item' = record item { queue = rest } in
      elim next [
        | none ↦ (s, item', none)
        | some a ↦ elim (get_elem? item.waiters a) [
          | none ↦ (s, item', none)
          | some w ↦
              let (s2, item2, granted) = serve s item' a w now in
              elim granted [
                | true ↦ (s2, item2, some w.holder)
                | false ↦ grant_loop fuel s2 item2 now
              ]
        ]
      ]

  unfoldable pub grant_next_locked : Shared → Lock → Time → Shared × Lock × Option Text
  grant_next_locked s item now = grant_loop (suc (length item.queue)) s item now

  -- The events of `expireLocked` after the lease is handed on.
  unfoldable pub announce_expiry : Shared → Lock → Option Text → Time → Shared
  announce_expiry s item next now =
      let s' =
        emit (record s { metrics = inc_expiry s.metrics }) item EventKind.expired (text "expire")
          now in
      elim next [ none ↦ s' | some _ ↦ emit s' item EventKind.held (text "queue") now ]

  -- `expireLocked`: the token that expired, or the empty text.
  unfoldable pub expire_locked : Shared → Lock → Time → Shared × Lock × Text
  expire_locked s item now =
      if is_empty item.token || not (lease_expired item.expires_at now)
      then (s, item, [])
      else let (s', item', next) = grant_next_locked s (clear_lease item now false) now in
        (announce_expiry s' item' next now, item', item.token)
