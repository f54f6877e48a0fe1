-- ===== src/Api/Streams.antt =====
-- internal/api/router.go: the loop of `handleEvents`, with the events that are broadcast meanwhile.
-- A frame that was not written in full counts as not written.
pub mod Written
use lockd.Prelude.{
  ℕ, Bool, true, false, ◌||◌, not, Option, some, none, List, [], ◌∷◌, ◌++◌, Text, text_eq, is_empty,
  nat_eq, ◌==◌, if◌then◌else◌, lookup, insert,
}
use lockd.Lock.Types.{Event}
use lockd.Lock.Notify.{Bus, Channel, unsubscribe, broadcast}
use lockd.Api.Router.{stream_event, stream_heartbeat}

-- An event that somebody broadcasts, or a case of the `select`: an event is received, the timer
-- ticks (with the JSON of the time), the context is done. The flag says whether the write succeeds.
pub data StreamTurn : Type 0 where
  sends : Event → StreamTurn
  receives : Bool → StreamTurn
  beats : Text → Bool → StreamTurn
  leaves : StreamTurn

-- `out` is what was written, and `running` says whether the handler still runs.
pub record Stream : Type 0 where
  pub bus : Bus
  pub out : Text
  pub running : Bool

abbrev pub is_wanted : Text → Event → Bool
is_wanted namespace event = is_empty namespace || event.namespace == namespace

-- The deferred `cancel`.
abbrev pub end_stream : ℕ → Stream → Stream
end_stream id s = record s { bus = unsubscribe s.bus id; running = false }

abbrev pub write_frame : ℕ → Stream → Text → Bool → Stream
write_frame id s frame written =
    if written then record s { out = s.out ++ frame } else end_stream id s

module _ (to_json : Event → Text) (id : ℕ) (namespace : Text) where
  -- `case event := <-channel` does not run while the channel is empty.
  abbrev receive_event : Stream → Option Channel → Bool → Stream
  receive_event s none written = s
  receive_event s (some c) written = elim c.items [
    | [] ↦ s
    | event ∷ rest ↦
        let bus = record (s.bus) { subs = insert id (record c { items = rest }) s.bus.subs } in
        let s' = record s { bus = bus } in
        if is_wanted namespace event
        then write_frame id s' (stream_event to_json namespace event) written
        else s'
  ]

  abbrev pub select_turn : Stream → StreamTurn → Stream
  select_turn s (sends event) = s
  select_turn s (receives written) = receive_event s (lookup id s.bus.subs) written
  select_turn s (beats json written) = write_frame id s (stream_heartbeat json) written
  select_turn s leaves = end_stream id s

  unfoldable pub stream_turn : Stream → StreamTurn → Stream
  stream_turn s (sends event) = record s { bus = (broadcast s.bus event).0 }
  stream_turn s turn = if s.running then select_turn s turn else s

  unfoldable pub stream_run : Stream → List StreamTurn → Stream
  unfolding stream_turn
  stream_run s [] = s
  stream_run s (turn ∷ turns) = stream_run (stream_turn s turn) turns
