-- ===== src/Lock/Checks/Turns.antt =====
-- The theorems on the turns of the locks at concrete runs.
use lockd.Prelude.{
  ℕ, List, ◌≤◌, ◌≡◌, ◌≢◌, ◌/◌, ◌%◌, refl, ap, sym, ◌∙◌, subst, false, none, [], ◌∷◌, ◌++◌, Text,
  text, pos, get_elem?, set, lookup, insert, contains, text_beq, arith, ◌+ℤ◌,
}
use mathlib.Core.Option.{some-injective}
use lockd.Lock.Errors.{err, err_not_found, canceled}
use lockd.Lock.Types.{Lock, Waiter, CreateOptions, full_name, lock_name, next64, new_waiter, cancel}
use lockd.Lock.Lease.{
  normalize_ttl, new_token, assign_lease, lease_expired, lease_expiry, clear_lease, hex_encode,
  remember,
}
use lockd.Lock.Lease.Tokens.{Bytes}
use lockd.Lock.Registry.{
  new_registry, create, enter, new_lock, namespace_allowed, valid_name, all_name_chars,
  is_name_char,
}
use lockd.Lock.Service.{Service, new_service, create_lock, locked}
use lockd.Lock.Acquire.{
  acquire_locked, acquire_live, acquire_idle, contend, join_queue, wait_cancelled, returned,
}
use lockd.Lock.Calls.{release_locked, renew_locked, release_live, hand_over, announce_release}
use lockd.Lock.Shared.{assign_locked, expire_locked, grant_next_locked, grant_loop, emit}
use lockd.Lock.Reentrant.{try_reenter, decrease_depth}
use lockd.Lock.Queue.{active_length, pop, push, remove}
use lockd.Lock.System.{creates, acquires, abandons, releases, Reach, here, next, Inv}
use lockd.Lock.System.Invariant.{reachable-Inv}
use lockd.Lock.Turns.Order.{is_before, no_overtaking}
use lockd.Lock.Turns.Fencing.{IsRandom}
use lockd.Lock.Turns.Stale.{Fails, OnlyExpires, ReleasesNothing, stale_token_refused}
use mathlib.Core.Quot
use lockd.Lock.Listing.{list, stats}
use lockd.Lock.Listing.Unordered.{Apart, swaps, unordered, list_any_order}
use lockd.Lock.Turns.Unique.{tokens_unique}
use lockd.Lock.Checks.Samples.{seconds, counting, creation, request, differ}
use lockd.Lock.Checks.Services.{
  acquired, released, first_token, held_item, freed_item, acquired_heap, released_heap,
}

-- bob, carol and dave ask for the lock that alice holds, and carol gives up.
abbrev ask : Service → Text → Service
ask s holder =
    (locked s 0 (λ sh item. acquire_locked counting sh item (request holder) (seconds 105))
      (returned (err err_not_found))).0

abbrev two_wait : Service
two_wait = ask (ask acquired (text "bob")) (text "carol")

abbrev three_wait : Service
three_wait = ask two_wait (text "dave")

abbrev carol_left : Service
carol_left = (locked three_wait 0 (λ sh item. wait_cancelled sh item 1 canceled) (err canceled)).0

abbrev waiter : ℕ → Text → Waiter
waiter seq holder = new_waiter seq (request holder) (seconds 105)

abbrev two_item : Lock
two_item = record held_item {
  queue = 0 ∷ 1 ∷ [];
  waiters = waiter 1 (text "bob") ∷ waiter 2 (text "carol") ∷ [];
  version = 3;
}

abbrev left_item : Lock
left_item = record held_item {
  queue = 0 ∷ 2 ∷ [];
  waiters = waiter 1 (text "bob") ∷ cancel (waiter 2 (text "carol")) ∷ waiter 3 (text "dave") ∷ [];
  version = 5;
}

two_heap : two_wait.registry.heap ≡ two_item ∷ []
unfolding new_service new_registry create_lock create enter normalize_ttl valid_name all_name_chars
    is_name_char namespace_allowed lookup text get_elem? set acquire_locked acquire_live
    acquire_idle expire_locked active_length assign_locked new_token hex_encode assign_lease next64
    contend try_reenter join_queue push lease_expired text_beq emit
two_heap = refl

left_heap : carol_left.registry.heap ≡ left_item ∷ []
unfolding new_service new_registry create_lock create enter normalize_ttl valid_name all_name_chars
    is_name_char namespace_allowed lookup text get_elem? set acquire_locked acquire_live
    acquire_idle expire_locked active_length assign_locked new_token hex_encode assign_lease next64
    contend try_reenter join_queue push lease_expired text_beq wait_cancelled remove new_waiter emit
left_heap = refl

later_calls : Reach counting two_wait carol_left
later_calls =
    next (next here (acquires 0 (request (text "dave")) (seconds 105))) (abandons 0 1 canceled)

two_wait-Inv : Inv two_wait
two_wait-Inv = reachable-Inv counting [] (pos 0) (pos 0) none none [] (
    next
      (next
        (next (next here (creates creation (seconds 90)))
          (acquires 0 (request (text "alice")) (seconds 100)))
        (acquires 0 (request (text "bob")) (seconds 105)))
      (acquires 0 (request (text "carol")) (seconds 105)))

no_overtaking_example : (false ≡ false) × (is_before 1 0 left_item.queue ≡ false)
unfolding get_elem? contains is_before new_waiter cancel
no_overtaking_example =
    no_overtaking counting 0 1 0 two_item left_item (cancel (waiter 2 (text "carol"))) two_wait-Inv
      later_calls (ap (λ h. get_elem? h 0) two_heap) (ap (λ h. get_elem? h 0) left_heap) refl refl
      (λ v e. ground arith) refl refl

-- alice gives the lock back, and bob takes it.
abbrev taken : Service
taken =
    (locked released 0
      (λ sh item. acquire_locked counting sh item (request (text "bob")) (seconds 115))
      (returned (err err_not_found))).0

abbrev second_token : Text
second_token =
    text "tk_"
    ++ hex_encode
        (1 ∷ 0 ∷ 1 ∷ 2 ∷ 3 ∷ 4 ∷ 5 ∷ 6 ∷ 7 ∷ 8 ∷ 9 ∷ 10 ∷ 11 ∷ 12 ∷ 13 ∷ 14 ∷ 15 ∷ 16 ∷ [])

abbrev taken_item : Lock
taken_item = record freed_item {
  holder = text "bob";
  token = second_token;
  depth = 1;
  expires_at = seconds 135;
  version = 3;
}

taken_heap : taken.registry.heap ≡ taken_item ∷ []
unfolding new_service new_registry create_lock create enter normalize_ttl valid_name all_name_chars
    is_name_char namespace_allowed lookup text get_elem? set acquire_locked acquire_live
    acquire_idle expire_locked active_length assign_locked new_token hex_encode assign_lease next64
    release_locked release_live hand_over lease_expired decrease_depth clear_lease grant_next_locked
    grant_loop pop contains text_beq remember lease_expiry announce_release emit
taken_heap = refl

draws_few : (expire_locked counting taken.shared taken_item (seconds 116)).0.draws ≤ 65536
unfolding new_service new_registry create_lock create enter normalize_ttl valid_name all_name_chars
    is_name_char namespace_allowed lookup text get_elem? set acquire_locked acquire_live
    acquire_idle expire_locked active_length assign_locked new_token hex_encode assign_lease next64
    release_locked release_live hand_over lease_expired decrease_depth clear_lease grant_next_locked
    grant_loop pop contains text_beq remember lease_expiry announce_release emit
draws_few = ground arith

counting-IsRandom : (limit : ℕ) → limit ≤ 65536 → IsRandom counting limit
counting-IsRandom limit le = record {
  bytes = λ n lt e. subst Bytes (some-injective _ _ e) (ground arith);
  differs = λ m n lm ln e f.
      let same : counting m ≡ counting n = e ∙ sym f in
      let low : m % 256 ≡ n % 256 = ground arith in
      let high : m / 256 % 256 ≡ n / 256 % 256 = ground arith in
      omega (arith, low, high, lm, ln, le);
}

stale_token_refused_example :
    let u = taken.shared in
    let renewed = renew_locked counting u taken_item first_token (pos 0) (seconds 116) in
    let given = release_locked counting u taken_item first_token (seconds 116) in
    (second_token ≢ first_token)
    × OnlyExpires counting u taken_item (seconds 116) renewed.1
    × Fails renewed.2
    × OnlyExpires counting u taken_item (seconds 116) given.1
    × ReleasesNothing given.2
unfolding get_elem? text hex_encode text_beq
stale_token_refused_example =
    stale_token_refused counting [] (pos 0) (pos 0) none none [] {t = released} {u = taken} 0
      held_item freed_item taken_item (pos 0) (seconds 116) (counting-IsRandom _ draws_few)
      (next (next here (creates creation (seconds 90)))
        (acquires 0 (request (text "alice")) (seconds 100)))
      (next here (releases 0 first_token (seconds 110)))
      (next here (acquires 0 (request (text "bob")) (seconds 115)))
      (ap (λ h. get_elem? h 0) acquired_heap) (ap (λ h. get_elem? h 0) released_heap)
      (ap (λ h. get_elem? h 0) taken_heap) (differ first_token [] refl) (λ e. absurd (cc))

-- A second lock, taken while alice holds the first.
abbrev second_creation : CreateOptions
second_creation = record creation { name = text "deploy" }

abbrev both : Service
both =
    (locked (create_lock acquired second_creation (seconds 101)).0 1
      (λ sh item. acquire_locked counting sh item (request (text "bob")) (seconds 102))
      (returned (err err_not_found))).0

abbrev second_item : Lock
second_item = record (new_lock second_creation (pos 64) (pos (seconds 30)) (seconds 101)) {
  holder = text "bob";
  token = second_token;
  depth = 1;
  expires_at = seconds 122;
  version = 1;
}

both_heap : (both.registry.heap ≡ held_item ∷ second_item ∷ []) × (both.shared.draws ≡ 2)
unfolding new_service new_registry create_lock create enter normalize_ttl valid_name all_name_chars
    is_name_char namespace_allowed lookup text get_elem? set acquire_locked acquire_live
    acquire_idle expire_locked active_length assign_locked new_token hex_encode assign_lease next64
    insert full_name text_beq contains emit ◌+ℤ◌
both_heap = (refl, refl)

tokens_unique_example : first_token ≢ second_token
unfolding get_elem? text hex_encode text_beq
tokens_unique_example =
    tokens_unique counting 2 (counting-IsRandom 2 (omega arith)) [] (pos 0) (pos 0) none none []
      {t = both}
      (next
        (next
          (next (next here (creates creation (seconds 90)))
            (acquires 0 (request (text "alice")) (seconds 100)))
          (creates second_creation (seconds 101)))
        (acquires 1 (request (text "bob")) (seconds 102)))
      (ground (arith, both_heap.1)) 0 1 held_item second_item (λ e. absurd (cc))
      (ap (λ h. get_elem? h 0) both_heap.0) (ap (λ h. get_elem? h 1) both_heap.0)
      (differ first_token [] refl)

-- The map of the two locks, visited the other way round.
abbrev other_way : List (Text × ℕ)
other_way =
    (full_name (text "default") (text "deploy"), 1)
    ∷ (full_name (text "default") (text "build"), 0)
    ∷ []

both_locks :
    both.registry.locks
    ≡ (full_name (text "default") (text "build"), 0)
      ∷ (full_name (text "default") (text "deploy"), 1)
      ∷ []
unfolding new_service new_registry create_lock create enter normalize_ttl valid_name all_name_chars
    is_name_char namespace_allowed lookup text get_elem? set acquire_locked acquire_live
    acquire_idle expire_locked active_length assign_locked new_token hex_encode assign_lease next64
    insert full_name text_beq contains emit ◌+ℤ◌
both_locks = refl

both-Apart : Apart both.registry.heap 0 1
unfolding get_elem? full_name text text_beq
both-Apart x y gx gy e =
    let hx : held_item ≡ x = some-injective _ _ (ap (λ h. get_elem? h 0) (sym both_heap.0) ∙ gx) in
    let hy : second_item ≡ y =
      some-injective _ _ (ap (λ h. get_elem? h 1) (sym both_heap.0) ∙ gy) in
    differ (lock_name held_item) (lock_name second_item) refl
      (ap (λ i. lock_name i) hx ∙ e ∙ ap (λ i. lock_name i) (sym hy))

other_way_same :
    unordered both.registry.heap both.registry.locks ≡ unordered both.registry.heap other_way
other_way_same =
    ap (unordered both.registry.heap) both_locks ∙ Quot.sound (swaps _ _ 0 1 [] both-Apart)

list_any_order_example :
    let r = record (both.registry) { locks = other_way } in
    (list r [] (text "held") (seconds 103) ≡ list both.registry [] (text "held") (seconds 103))
    × (stats r (seconds 103) ≡ stats both.registry (seconds 103))
list_any_order_example =
    list_any_order both.registry other_way [] (text "held") (seconds 103) other_way_same
