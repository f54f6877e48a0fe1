-- ===== src/Lock/Checks/Watches.antt =====
-- A watch on a lock that is held, at a concrete input.
use lockd.Prelude.{[], ◌∷◌, text, text_eq, nat_eq, pos}
use lockd.Lock.Types.{Event, EventKind}
use lockd.Lock.Notify.{Bus, new_bus, broadcast}
use lockd.Lock.Registry.{Registry}
use lockd.Lock.Watch.{watch_begin}
use lockd.Lock.Checks.Samples.{seconds, held_lock}

abbrev registry : Registry
registry = record {
  locks = (text "default:build", 0) ∷ [];
  allowed = [];
  quota = pos 10;
  ns_counts = (text "default", pos 1) ∷ [];
  default_ttl = pos (seconds 30);
  heap = held_lock ∷ [];
}

abbrev release_event : Event
release_event = record {
  lock = text "default:build";
  namespace = text "default";
  event = EventKind.released;
  reason = text "release";
  at = seconds 111;
  seq = 2;
}

-- The bus after the watch has begun and the event was sent.
abbrev sent : Bus
sent =
    (broadcast (watch_begin registry new_bus (text "default") (text "build") (seconds 110)).0
      release_event).0
