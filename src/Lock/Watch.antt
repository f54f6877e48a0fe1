-- ===== src/Lock/Watch.antt =====
-- internal/lock/service.go: `Watch`, on the bus of the service. The subscription stands before the
-- look at the record; each receipt of an event is a step.
pub mod Wakeup
use lockd.Prelude.{
  ℕ, Bool, true, false, ◌&&◌, not, Option, some, none, List, [], ◌∷◌, ◌==◌, Text, text, text_eq,
  nat_eq, pos, if◌then◌else◌, lookup, insert,
}
use lockd.Lock.Errors.{Error, Result, ok, err}
use lockd.Lock.Types.{Time, Event, EventKind}
use lockd.Lock.Notify.{Bus, Channel, subscribe, unsubscribe}
use lockd.Lock.Registry.{Registry, View, get_view}
use lockd.Lock.Acquire.{wait_error}

-- The call has returned, or waits on the channel with this id for events of the lock with this name.
pub data WatchStep : Type 0 where
  ended : Result Event → WatchStep
  watching : ℕ → Text → WatchStep

abbrev pub is_held_event : EventKind → Bool
is_held_event EventKind.held = true
is_held_event EventKind.released = false
is_held_event EventKind.expired = false
is_held_event EventKind.stolen = false
is_held_event EventKind.purged = false

-- Lines 227 to 235. The event of a lock that is idle has no sequence number.
unfoldable pub watch_begin : Registry → Bus → Text → Text → Time → Bus × WatchStep
watch_begin r b namespace name now =
    let (b', id) = subscribe b (pos 8) in
    elim (get_view r namespace name now) [
      | err e ↦ (unsubscribe b' id, ended (err e))
      | ok view ↦
          if view.state == text "idle"
          then (
            unsubscribe b' id,
            ended (
                ok (record {
                  lock = view.full_name;
                  namespace = namespace;
                  event = EventKind.released;
                  reason = text "idle";
                  at = now;
                  seq = 0;
                })),
          )
          else (b', watching id view.full_name)
    ]

-- `event.Lock == view.FullName && event.Event != EventHeld`.
abbrev pub is_awaited : Text → Event → Bool
is_awaited full_name event = event.lock == full_name && not (is_held_event event.event)

abbrev take_event : Bus → ℕ → Text → Option Channel → Option (Bus × WatchStep)
take_event b id full_name none = none
take_event b id full_name (some c) = elim c.items [
  | [] ↦ none
  | event ∷ rest ↦
      if is_awaited full_name event
      then some (unsubscribe b id, ended (ok event))
      else some
          (record b { subs = insert id (record c { items = rest }) b.subs }, watching id full_name)
]

-- `case event := <-channel`: `none` while the channel is empty.
unfoldable pub watch_receive : Bus → ℕ → Text → Option (Bus × WatchStep)
watch_receive b id full_name = take_event b id full_name (lookup id b.subs)

-- `case <-ctx.Done()`, where `e` is `ctx.Err()`.
unfoldable pub watch_cancelled : Bus → ℕ → Error → Bus × WatchStep
watch_cancelled b id e = (unsubscribe b id, ended (err (wait_error e)))
