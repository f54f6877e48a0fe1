-- ===== src/Api/Streams/Written.antt =====
-- What the streams of internal/api/router.go write.
use lockd.Prelude.{
  ℕ, ◌≡◌, refl, sym, ◌∙◌, subst, Bool, true, false, some, none, List, [], ◌∷◌, ◌++◌, Text, text,
  text_eq, nat_eq, ◌==◌, if◌then◌else◌, ltb, length, lookup, insert, lookup-insert, lookup-delete,
  pos, arith, Bool-cases, inl, inr,
}
use mathlib.Core.List.{append_assoc, append-nil}
use lockd.Lock.Types.{Event}
use lockd.Lock.Notify.{Channel, subscribe, unsubscribe, broadcast, deliver, offer}
use lockd.Lock.Service.{Service}
use lockd.Api.Types.{Request}
use lockd.Api.Handlers.{streaming}
use lockd.Api.Router.{stream_event, stream_heartbeat, handle_events}
use lockd.Api.Streams.{
  StreamTurn, sends, receives, beats, leaves, Stream, is_wanted, end_stream, write_frame,
  select_turn, stream_turn, stream_run,
}

-- What a stream writes whose channel is a queue of its own, that drops what it has no room for, and
-- which ends with the first write that fails or when the client leaves.
unfoldable pub stream_text : (Event → Text) → Text → ℕ → List Event → List StreamTurn → Text
stream_text to_json ns room queue [] = []
stream_text to_json ns room queue (sends event ∷ turns) =
    stream_text to_json ns room (if ltb (length queue) room then queue ++ event ∷ [] else queue)
      turns
stream_text to_json ns room [] (receives written ∷ turns) = stream_text to_json ns room [] turns
stream_text to_json ns room (event ∷ queue) (receives written ∷ turns) =
    let rest = stream_text to_json ns room queue turns in
    if is_wanted ns event
    then if written then stream_event to_json ns event ++ rest else []
    else rest
stream_text to_json ns room queue (beats json written ∷ turns) =
    let rest = stream_text to_json ns room queue turns in
    if written then stream_heartbeat json ++ rest else []
stream_text to_json ns room queue (leaves ∷ turns) = []

abbrev holding : ℕ → List Event → Channel
holding room queue = record { capacity = room; items = queue }

lookup-deliver :
    (subs : List (ℕ × Channel)) (event : Event) (id room : ℕ) (queue : List Event)
    → lookup id subs ≡ some (holding room queue)
    → lookup id (deliver subs event).0
      ≡ some (holding room (if ltb (length queue) room then queue ++ event ∷ [] else queue))
unfolding deliver lookup offer
lookup-deliver [] event id room queue e = absurd (cc)
lookup-deliver ((j, d) ∷ subs) event id room queue e = elim (Bool-cases (j == id)) [
  | inl here ↦ ground arith
  | inr there ↦ rw there (lookup-deliver subs event id room queue (ground arith))
]

deliver-none :
    (subs : List (ℕ × Channel)) (event : Event) (id : ℕ)
    → lookup id subs ≡ none
    → lookup id (deliver subs event).0 ≡ none
unfolding deliver lookup
deliver-none [] event id e = refl
deliver-none ((j, d) ∷ subs) event id e = ground (arith, deliver-none subs event id)

module _ (to_json : Event → Text) (id : ℕ) (ns : Text) where
  -- The handler of a closed stream has returned.
  abbrev IsClosed : Stream → Type 0
  IsClosed s = (s.running ≡ false) × (lookup id s.bus.subs ≡ none)

  end_stream-IsClosed : (s : Stream) → IsClosed (end_stream id s)
  unfolding unsubscribe
  end_stream-IsClosed s = (refl, lookup-delete id id s.bus.subs ∙ ground arith)

  run-IsClosed :
      (turns : List StreamTurn) (s : Stream)
      → IsClosed s
      → ((stream_run to_json id ns s turns).out ≡ s.out)
        × IsClosed (stream_run to_json id ns s turns)
  unfolding stream_run broadcast
  run-IsClosed [] s h = (refl, h)
  run-IsClosed (sends event ∷ turns) s h =
      run-IsClosed turns (stream_turn to_json id ns s (sends event))
        (h.0, deliver-none s.bus.subs event id h.1)
  run-IsClosed (receives written ∷ turns) s h = simp h.0 (run-IsClosed turns s h)
  run-IsClosed (beats json written ∷ turns) s h = simp h.0 (run-IsClosed turns s h)
  run-IsClosed (leaves ∷ turns) s h = simp h.0 (run-IsClosed turns s h)

  -- What a run of a stream ends with.
  abbrev Ends : Stream → Text → List StreamTurn → Type 0
  Ends s out turns =
      let r = stream_run to_json id ns s turns in
      (r.out ≡ out) × (r.running ≡ false → lookup id r.bus.subs ≡ none)

  end_stream-Ends :
      (s : Stream) (turns : List StreamTurn) → Ends (end_stream id s) (s.out ++ []) turns
  end_stream-Ends s turns =
      let (o, closed) = run-IsClosed turns (end_stream id s) (end_stream-IsClosed s) in
      (o ∙ sym (append-nil s.out), λ _. closed.1)

  -- A frame is written, or the stream ends.
  write_frame-Ends :
      (s : Stream) (frame rest : Text) (written : Bool) (turns : List StreamTurn)
      → Ends (record s { out = s.out ++ frame }) ((s.out ++ frame) ++ rest) turns
      → Ends
          (write_frame id s frame written)
          (s.out ++ (if written then frame ++ rest else []))
          turns
  write_frame-Ends s frame rest true turns h = (h.0 ∙ append_assoc s.out frame rest, h.1)
  write_frame-Ends s frame rest false turns h = end_stream-Ends s turns

  select_lem :
      (s : Stream) (out : Text) (turn : StreamTurn) (turns : List StreamTurn)
      → stream_turn to_json id ns s turn ≡ select_turn to_json id ns s turn
      → Ends (select_turn to_json id ns s turn) out turns
      → Ends s out (turn ∷ turns)
  unfolding stream_run
  select_lem s out turn turns e h = subst (λ z. Ends z out turns) (sym e) h

  -- The stream after an event was received.
  abbrev taken : Stream → ℕ → List Event → Stream
  taken s room rest = record s {
    bus = record (s.bus) { subs = insert id (holding room rest) s.bus.subs };
  }

  lookup-taken :
      (s : Stream) (room : ℕ) (rest : List Event)
      → lookup id (taken s room rest).bus.subs ≡ some (holding room rest)
  lookup-taken s room rest = lookup-insert id id (holding room rest) s.bus.subs ∙ ground arith

  run-Ends :
      (turns : List StreamTurn) (s : Stream) (room : ℕ) (queue : List Event)
      → s.running ≡ true
      → lookup id s.bus.subs ≡ some (holding room queue)
      → Ends s (s.out ++ stream_text to_json ns room queue turns) turns
  unfolding stream_run stream_turn stream_text broadcast
  run-Ends [] s room queue on found = (sym (append-nil s.out), λ off. absurd (cc))
  run-Ends (sends event ∷ turns) s room queue on found =
      run-Ends turns (stream_turn to_json id ns s (sends event)) room _ on
        (lookup-deliver s.bus.subs event id room queue found)
  run-Ends (beats json written ∷ turns) s room queue on found =
      select_lem s _ (beats json written) turns (rw on refl) (
        write_frame-Ends s (stream_heartbeat json) (stream_text to_json ns room queue turns) written
          turns
          (run-Ends turns (record s { out = s.out ++ stream_heartbeat json }) room queue on found))
  run-Ends (leaves ∷ turns) s room queue on found =
      select_lem s _ leaves turns (rw on refl) (end_stream-Ends s turns)
  run-Ends (receives written ∷ turns) s room [] on found =
      select_lem s _ (receives written) turns (rw on refl)
        (rw found (run-Ends turns s room [] on found))
  run-Ends (receives written ∷ turns) s room (event ∷ rest) on found =
      let s' = taken s room rest in
      select_lem s _ (receives written) turns (rw on refl) (elim (Bool-cases (is_wanted ns event)) [
        | inl wanted ↦
            rw (found, wanted)
              (write_frame-Ends s' (stream_event to_json ns event)
                (stream_text to_json ns room rest turns) written turns
                (run-Ends turns (record s' { out = s.out ++ stream_event to_json ns event }) room
                  rest on (lookup-taken s room rest)))
        | inr other ↦ rw (found, other) (run-Ends turns s' room rest on (lookup-taken s room rest))
      ])

-- A GET of the events starts a stream that, through any sequence of broadcasts, receipts, ticks,
-- failed writes and an end of the context, writes what a stream with a queue of its own of 64
-- places writes: the frames of the events that found room and have the namespace asked for, in
-- order, with a heartbeat for each tick, up to the first write that fails or the end of the
-- context; other subscribers make no difference, and once the stream is over its subscription is
-- gone.
pub events_streamed :
    (to_json : Event → Text) (s : Service) (r : Request) (turns : List StreamTurn)
    → (r.method == text "GET") ≡ true
    → let (s', reply) = handle_events s r in
      let id = s'.shared.bus.next_id in
      let ns = r.query (text "namespace") in
      let run =
        stream_run to_json id ns (record { bus = s'.shared.bus; out = []; running = true }) turns in
      (reply ≡ streaming id ns)
      × (run.out ≡ stream_text to_json ns 64 [] turns)
      × (run.running ≡ false → lookup id run.bus.subs ≡ none)
unfolding handle_events subscribe
events_streamed to_json s r turns get =
    let b = (subscribe s.shared.bus (pos 64)).0 in
    let run =
      run-Ends to_json b.next_id (r.query (text "namespace")) turns
        (record { bus = b; out = []; running = true }) 64 [] refl
        (lookup-insert b.next_id b.next_id (holding 64 []) s.shared.bus.subs ∙ ground arith) in
    rw get (refl, run.0, run.1)
