-- ===== src/Lock/Checks/Services.antt =====
-- The theorems on whole services at concrete inputs.
use lockd.Prelude.{
  ◌≡◌, refl, true, false, none, some, [], ◌∷◌, ◌++◌, Text, text, pos, inr, get_elem?, set, lookup,
  insert, contains, text_beq, ap, ◌↔◌,
}
use lockd.Lock.Errors.{ok, err, err_not_found}
use lockd.Lock.Types.{Lock, full_name, next64}
use lockd.Lock.Lease.{
  normalize_ttl, new_token, assign_lease, lease_expired, lease_expiry, clear_lease, hex_encode,
  remember,
}
use lockd.Lock.Registry.{
  snapshot, new_registry, create, enter, new_lock, get, namespace_allowed, all_records, valid_name,
  all_name_chars, is_name_char,
}
use lockd.Lock.Service.{Service, new_service, create_lock, locked}
use lockd.Lock.Acquire.{acquire_locked, acquire_live, acquire_idle, returned}
use lockd.Lock.Calls.{release_locked, release_live, hand_over}
use lockd.Lock.Shared.{assign_locked, expire_locked, grant_next_locked, grant_loop}
use lockd.Lock.Expirer.{expire_pass, expire_items, scan, scan_at, is_cleanup_due}
use lockd.Lock.Reentrant.{decrease_depth}
use lockd.Lock.Queue.{active_length, pop}
use lockd.Lock.System.{creates, acquires, releases, scans, Reach, here, next, Inv}
use lockd.Lock.System.Invariant.{reachable-Inv}
use lockd.Lock.System.Names.{get_exact}
use lockd.Lock.System.Expiry.{expire_pass_current}
use lockd.Lock.System.Serving.{reachable_serving}
use lockd.Lock.Listing.{list}
use lockd.Lock.Listing.Exact.{IsOrdered, IsMember, ShownAs, list_exact}
use lockd.Lock.System.Leases.{HasLeaseAt}
use lockd.Lock.System.Tenure.{lease_lasts}
use lockd.Lock.Checks.Samples.{seconds, counting, counting-Works, creation, request, differ}

abbrev pub empty_service : Service
empty_service = new_service (new_registry [] (pos 0) (pos 0)) none none []

abbrev pub created : Service
created = (create_lock empty_service creation (seconds 90)).0

abbrev pub acquired : Service
acquired =
    (locked created 0
      (λ sh item. acquire_locked counting sh item (request (text "alice")) (seconds 100))
      (returned (err err_not_found))).0

abbrev pub first_token : Text
first_token =
    text "tk_"
    ++ hex_encode
        (0 ∷ 0 ∷ 1 ∷ 2 ∷ 3 ∷ 4 ∷ 5 ∷ 6 ∷ 7 ∷ 8 ∷ 9 ∷ 10 ∷ 11 ∷ 12 ∷ 13 ∷ 14 ∷ 15 ∷ 16 ∷ [])

abbrev pub released : Service
released =
    (locked acquired 0 (λ sh item. release_locked counting sh item first_token (seconds 110))
      (err err_not_found)).0

released-Reach : Reach counting empty_service released
released-Reach =
    next
      (next (next here (creates creation (seconds 90)))
        (acquires 0 (request (text "alice")) (seconds 100)))
      (releases 0 first_token (seconds 110))

-- A lock is created, acquired and released.
reachable-Inv_example : Inv released
reachable-Inv_example = reachable-Inv counting [] (pos 0) (pos 0) none none [] released-Reach

abbrev pub new_item : Lock
new_item = new_lock creation (pos 64) (pos (seconds 30)) (seconds 90)

abbrev pub held_item : Lock
held_item = record new_item {
  holder = text "alice";
  token = first_token;
  depth = 1;
  expires_at = seconds 120;
  version = 1;
}

abbrev pub freed_item : Lock
freed_item = record new_item {
  released_token = first_token ∷ [];
  version = 2;
  last_idle_at = seconds 110;
}

pub acquired_heap : acquired.registry.heap ≡ held_item ∷ []
unfolding new_service new_registry create_lock create enter normalize_ttl valid_name all_name_chars
    is_name_char namespace_allowed lookup text get_elem? set acquire_locked acquire_live
    acquire_idle expire_locked active_length assign_locked new_token hex_encode assign_lease next64
acquired_heap = refl

pub released_heap : released.registry.heap ≡ freed_item ∷ []
unfolding new_service new_registry create_lock create enter normalize_ttl valid_name all_name_chars
    is_name_char namespace_allowed lookup text get_elem? set acquire_locked acquire_live
    acquire_idle expire_locked active_length assign_locked new_token hex_encode assign_lease next64
    release_locked release_live hand_over lease_expired decrease_depth clear_lease grant_next_locked
    grant_loop pop contains text_beq remember lease_expiry
released_heap = refl

-- After the release nobody holds the lock, and nobody waits for it.
reachable_serving_example : freed_item.queue ≡ []
unfolding get_elem?
reachable_serving_example =
    reachable_serving counting counting-Works [] (pos 0) (pos 0) none none [] 0 freed_item
      released-Reach (ap (λ h. get_elem? h 0) released_heap) refl

-- The lock is found under its name.
get_exact_example : (get released.registry (text "default") (text "build") ≡ ok 0) ↔ (
    (item : Lock) × (get_elem? released.registry.heap 0 ≡ some item)
    × (item.namespace ≡ text "default")
    × (item.name ≡ text "build")
    × (item.deleted ≡ false)
    × (namespace_allowed released.registry (text "default") ≡ true))
get_exact_example = get_exact released (text "default") (text "build") 0 reachable-Inv_example

-- A pass at second 121, when the lease of alice is over.
passed_heap :
    (expire_pass counting acquired (seconds 121)).registry.heap
    ≡ record new_item { version = 2; last_idle_at = seconds 121 } ∷ []
unfolding new_service new_registry create_lock create enter normalize_ttl valid_name all_name_chars
    is_name_char namespace_allowed lookup text get_elem? set acquire_locked acquire_live
    acquire_idle expire_locked active_length assign_locked new_token hex_encode assign_lease next64
    expire_pass expire_items scan all_records insert full_name lease_expired clear_lease
    grant_next_locked grant_loop pop is_cleanup_due
passed_heap = refl

expire_pass_current_example : lease_expired 0 (seconds 121) ≡ false
unfolding get_elem?
expire_pass_current_example =
    expire_pass_current counting acquired (seconds 121) 0
      (record new_item { version = 2; last_idle_at = seconds 121 })
      (reachable-Inv counting [] (pos 0) (pos 0) none none [] (
        next (next here (creates creation (seconds 90)))
          (acquires 0 (request (text "alice")) (seconds 100))))
      (ap (λ h. get_elem? h 0) passed_heap) refl

-- While alice holds the lock, bob asks for it, a release has another token, and a scan runs.
abbrev asked : Service
asked =
    (locked acquired 0
      (λ sh item. acquire_locked counting sh item (request (text "bob")) (seconds 105))
      (returned (err err_not_found))).0

abbrev tried : Service
tried =
    (locked asked 0 (λ sh item. release_locked counting sh item (text "x") (seconds 106))
      (err err_not_found)).0

abbrev scanned : Service
scanned = scan_at counting tried 0 (get_elem? tried.registry.heap 0) (seconds 107)

abbrev others : Reach counting acquired scanned
others =
    next
      (next (next here (acquires 0 (request (text "bob")) (seconds 105)))
        (releases 0 (text "x") (seconds 106)))
      (scans 0 (seconds 107))

pub acquired-Inv : Inv acquired
acquired-Inv = reachable-Inv counting [] (pos 0) (pos 0) none none [] (
    next (next here (creates creation (seconds 90)))
      (acquires 0 (request (text "alice")) (seconds 100)))

lease_lasts_example : HasLeaseAt held_item 0 scanned.registry.heap
unfolding get_elem? text hex_encode text_beq lease_expired
lease_lasts_example =
    lease_lasts counting held_item 0 others acquired-Inv (ap (λ h. get_elem? h 0) acquired_heap)
      (differ first_token [] refl) refl
      (
        (
          (tt, inr (refl, differ (text "alice") (text "bob") refl)),
          inr (refl, differ (text "x") first_token refl),
        ),
        inr refl,
      )

list_exact_example :
    IsOrdered (list acquired.registry [] (text "held") (seconds 101))
    × (IsMember
          (snapshot held_item (seconds 101))
          (list acquired.registry [] (text "held") (seconds 101))
        ↔ ShownAs
            (snapshot held_item (seconds 101))
            acquired.registry.heap
            []
            (text "held")
            (seconds 101))
list_exact_example =
    list_exact acquired [] (text "held") (seconds 101) (snapshot held_item (seconds 101))
      acquired-Inv
