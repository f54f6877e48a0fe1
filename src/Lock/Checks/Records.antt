-- ===== src/Lock/Checks/Records.antt =====
-- The theorems on one record at concrete inputs.
use lockd.Prelude.{
  ◌≡◌, refl, true, false, some, [], ◌∷◌, ◌++◌, ◌+◌, ◌⊎◌, inl, Text, text, text_beq, pos, arith,
  get_elem?, set, length, lookup, contains, All, nat_eq, All,
}
use lockd.Lock.Errors.{ErrorCode, ok, err, core, deadline_exceeded, err_token_invalid}
use lockd.Lock.Types.{Lock, Waiter, AcquireResult, EventKind, Event, grant, send}
use lockd.Lock.Lease.{new_token, normalize_ttl, hex_encode}
use lockd.Lock.Lease.Bounds.{InRange, normalize_ttl_exact}
use lockd.Lock.Queue.{push, pop, views, active_length}
use lockd.Lock.Queue.Order.{active, queue_fifo}
use lockd.Lock.Notify.{Bus, Channel, broadcast}
use lockd.Lock.Notify.Delivery.{Fits, pending, Offered, broadcast_delivers}
use lockd.Lock.Shared.{grant_loop, grant_next_locked, expire_locked}
use lockd.Lock.Shared.Rounds.{grant_loop_enough}
use lockd.Lock.Acquire.{acquire_locked, wait_done, wait_cancelled, count_acquire}
use lockd.Lock.Calls.{renew_locked, renew_failed, release_locked, steal_locked}
use lockd.Lock.Exclusion.{SameLease, GivesNothing, acquire_locked_excluded, foreign_token}
use lockd.Lock.Handover.{IsServed, release_locked_serves_oldest}
use lockd.Lock.Retry.{wait_race}
use lockd.Lock.Progress.Failure.{steal_locked_strands}
use lockd.Lock.Valid.{IsValid}
use lockd.Lock.Valid.Rounds.{drawn}
use lockd.Lock.Valid.Grants.{no_token}
use lockd.Lock.Checks.Samples.{
  seconds, counting, broken, waiting_bob, held_lock, shared, held_lock-IsValid, held_lock-Runs,
  request, differ,
}

-- Carol asks for the lock while alice holds it.
acquire_locked_excluded_example :
    let r = acquire_locked counting shared held_lock (request (text "carol")) (seconds 110) in
    SameLease held_lock r.1 × GivesNothing (request (text "carol")) held_lock r.1 r.2
unfolding text text_beq
acquire_locked_excluded_example =
    acquire_locked_excluded counting shared held_lock (request (text "carol")) (seconds 110)
      held_lock-Runs (inl (differ (text "alice") (text "carol") refl))

-- A token that is not alice's.
foreign_token_example :
    (renew_locked counting shared held_lock (text "tk_carol") (pos 0) (seconds 110)
      ≡ (renew_failed shared, held_lock, err err_token_invalid))
    × (release_locked counting shared held_lock (text "tk_carol") (seconds 110)
        ≡ (shared, held_lock, err err_token_invalid))
unfolding text text_beq contains
foreign_token_example =
    foreign_token counting shared held_lock (text "tk_carol") (pos 0) (seconds 110) held_lock-Runs
      (differ (text "tk_carol") (text "tk_alice") refl)

abbrev first_token : Text
first_token =
    text "tk_"
    ++ hex_encode
        (0 ∷ 0 ∷ 1 ∷ 2 ∷ 3 ∷ 4 ∷ 5 ∷ 6 ∷ 7 ∷ 8 ∷ 9 ∷ 10 ∷ 11 ∷ 12 ∷ 13 ∷ 14 ∷ 15 ∷ 16 ∷ [])

-- Alice releases, and bob waits.
release_locked_serves_oldest_example :
    let r = release_locked counting shared held_lock (text "tk_alice") (seconds 110) in
    IsServed r.1 0 waiting_bob first_token (seconds 110)
    × (r.1.queue ≡ [])
    × (r.2 ≡ ok (record { released = true; depth = 0; next_holder = text "bob" }))
unfolding get_elem? contains new_token
release_locked_serves_oldest_example =
    release_locked_serves_oldest counting shared held_lock (seconds 110) 0 [] waiting_bob
      held_lock-IsValid held_lock-Runs refl refl refl refl refl

-- Bob is served, and his context ends before he has received the lease.
abbrev bobs_lease : AcquireResult
bobs_lease = record {
  token = text "tk_bob";
  holder = text "bob";
  depth = 1;
  expires_at = seconds 130;
  reentered = false;
}

abbrev served_lock : Lock
served_lock = record held_lock {
  queue = [];
  holder = text "bob";
  token = text "tk_bob";
  waiters = grant waiting_bob bobs_lease ∷ [];
}

served_lock-IsValid : IsValid served_lock
unfolding get_elem? contains text grant send
served_lock-IsValid = record {
  terms = ground arith;
  depths = ground arith;
  lease = ground arith;
  queued = ground arith;
  sound = ground arith;
  gone = λ e. absurd (cc);
}

wait_race_example :
    (let r = wait_cancelled shared served_lock 0 deadline_exceeded in
      (r.0 ≡ count_acquire shared) × (r.1 ≡ served_lock) × (r.2 ≡ ok bobs_lease))
    × (wait_done shared served_lock 0
        ≡ some (
          count_acquire shared,
          record served_lock { waiters = record (grant waiting_bob bobs_lease) { done = [] } ∷ [] },
          ok bobs_lease,
        ))
unfolding get_elem? set grant send
wait_race_example =
    wait_race shared served_lock 0 (grant waiting_bob bobs_lease) bobs_lease deadline_exceeded
      served_lock-IsValid refl refl

grant_loop_enough_example :
    grant_loop counting 5 shared held_lock (seconds 110)
    ≡ grant_next_locked counting shared held_lock (seconds 110)
grant_loop_enough_example =
    grant_loop_enough counting 5 shared held_lock (seconds 110) (omega arith)

abbrev cancelled_bob : Waiter
cancelled_bob = record waiting_bob { cancelled = true }

-- The first waiter has given up.
queue_fifo_example :
    let ws = cancelled_bob ∷ waiting_bob ∷ waiting_bob ∷ [] in
    (((pop ws (0 ∷ 1 ∷ [])).0 ≡ some 1) × (active ws (pop ws (0 ∷ 1 ∷ [])).1 ≡ []))
    × (active ws (push (0 ∷ 1 ∷ []) 2) ≡ 1 ∷ 2 ∷ [])
    × (active_length ws (0 ∷ 1 ∷ []) ≡ 1)
    × (length (views ws (0 ∷ 1 ∷ [])) ≡ 1)
unfolding get_elem?
queue_fifo_example = queue_fifo (cancelled_bob ∷ waiting_bob ∷ waiting_bob ∷ []) (0 ∷ 1 ∷ []) 2 refl

-- A subscriber whose channel is full, and one with room.
abbrev event : Event
event = record {
  lock = text "default:build";
  namespace = text "default";
  event = EventKind.held;
  reason = text "acquire";
  at = seconds 100;
  seq = 3;
}

abbrev busy_bus : Bus
busy_bus = record {
  next_id = 2;
  subs =
      (1, record { capacity = 1; items = event ∷ [] })
      ∷ (2, record { capacity = 2; items = event ∷ [] })
      ∷ [];
}

broadcast_delivers_example :
    let r = broadcast busy_bus event in
    All Fits r.0.subs
    × (pending r.0.subs ≡ 2 + r.1)
    × ((c : Channel) × (lookup 2 r.0.subs ≡ some c)
        × Offered event (record { capacity = 2; items = event ∷ [] }) c)
unfolding lookup
broadcast_delivers_example =
    broadcast_delivers busy_bus event 2 (record { capacity = 2; items = event ∷ [] }) (ground arith)
      refl

-- A request for a term of 11 minutes.
normalize_ttl_exact_example :
    (InRange (pos (seconds 660))
      × (normalize_ttl (pos (seconds 660)) (pos 0) ≡ ok (pos (seconds 660))))
    ⊎ ((¬ InRange (pos (seconds 660)))
        × (normalize_ttl (pos (seconds 660)) (pos 0)
            ≡ err (core ErrorCode.invalid (text "ttl must be between 1s and 10m"))))
normalize_ttl_exact_example =
    normalize_ttl_exact (pos (seconds 660)) (pos 0) (pos (seconds 660)) refl

steal_locked_strands_example :
    let r = steal_locked broken shared held_lock (text "root") (pos 0) (seconds 110) in
    (r.2 ≡ err no_token)
    × (r.0 ≡ drawn shared)
    × (r.1.token ≡ [])
    × (r.1.queue ≡ 0 ∷ [])
    × (expire_locked broken shared r.1 (seconds 111) ≡ (shared, r.1, []))
unfolding normalize_ttl new_token
steal_locked_strands_example =
    steal_locked_strands broken shared held_lock (text "root") (pos 0) {ttl = pos (seconds 30)}
      (seconds 110) shared (seconds 111) refl refl refl
