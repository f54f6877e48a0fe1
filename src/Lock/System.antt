-- ===== src/Lock/System.antt =====
-- The service as a transition system. A call runs in two halves, the lookup in the registry and
-- the critical section under the record's mutex, and other calls may run in between. A step is one
-- critical section, at the address of any record that was ever created, deleted ones included.
pub mod Counts
pub mod Writes
pub mod Creates
pub mod Invariant
pub mod Calls
pub mod Names
pub mod Expiry
pub mod Serving
pub mod Leases
pub mod Tenure
use lockd.Prelude.{
  ℕ, ◌+◌, ◌≤◌, ◌≡◌, Bool, true, false, ◌&&◌, not, Option, some, none, List, [], ◌∷◌, Text, text_eq,
  ◌==◌, if◌then◌else◌, pos, pos_part, get_elem?, set, All, lookup,
}
use lockd.Lock.Errors.{Error, Result, err, err_not_found, canceled}
use lockd.Lock.Types.{Time, Duration, CreateOptions, AcquireOptions, AcquireResult, Lock, lock_name}
use lockd.Lock.Registry.{Registry, valid_name, count_at}
use lockd.Lock.Shared.{Shared}
use lockd.Lock.Acquire.{acquire_locked, wait_done, wait_cancelled, returned}
use lockd.Lock.Calls.{renew_locked, release_locked, steal_locked}
use lockd.Lock.Valid.{IsValid}
use lockd.Lock.Service.{Service, locked, create_lock, delete_at}
use lockd.Lock.Expirer.{scan_at}

module _ (rand : ℕ → Option (List ℕ)) where
  pub data Step (s : Service) : Service → Type 0 where
    creates : (options : CreateOptions) (now : Time) → Step s (create_lock s options now).0
    acquires :
        (a : ℕ) (options : AcquireOptions) (now : Time)
        → Step s
            (locked s a
              (λ sh item. acquire_locked rand sh item options now)
              (returned (err err_not_found))).0
    receives :
        (a w : ℕ) (item item' : Lock) (sh : Shared) (r : Result AcquireResult)
        → get_elem? s.registry.heap a ≡ some item
        → wait_done s.shared item w ≡ some (sh, item', r)
        → Step s (record s {
          shared = sh;
          registry = record (s.registry) { heap = set s.registry.heap a item' };
        })
    abandons :
        (a w : ℕ) (e : Error)
        → Step s (locked s a (λ sh item. wait_cancelled sh item w e) (err e)).0
    renews :
        (a : ℕ) (token : Text) (ttl : Duration) (now : Time)
        → Step s
            (locked s a (λ sh item. renew_locked rand sh item token ttl now) (err err_not_found)).0
    releases :
        (a : ℕ) (token : Text) (now : Time)
        → Step s
            (locked s a (λ sh item. release_locked rand sh item token now) (err err_not_found)).0
    steals :
        (a : ℕ) (holder : Text) (ttl : Duration) (now : Time)
        → Step s
            (locked s a (λ sh item. steal_locked rand sh item holder ttl now) (err err_not_found)).0
    deletes :
        (a : ℕ) (force_token : Text) (now : Time) → Step s (delete_at rand s a force_token now).0
    scans : (a : ℕ) (now : Time) → Step s (scan_at rand s a (get_elem? s.registry.heap a) now)

  pub data Reach (s : Service) : Service → Type 0 where
    here : Reach s s
    next : {t u : Service} → Reach s t → Step t u → Reach s u

abbrev pub IsNamed : Lock → Type 0
IsNamed item = (valid_name item.namespace ≡ true) × (valid_name item.name ≡ true)

-- The records of a namespace that are not deleted.
unfoldable pub live_count : Text → List Lock → ℕ
live_count ns [] = 0
live_count ns (item ∷ heap) =
    (if not item.deleted && item.namespace == ns then 1 else 0) + live_count ns heap

-- The invariant of the service. The map holds exactly the records that are not deleted, each under
-- its name, and the counters of the namespaces count them.
pub record Inv (s : Service) : Type 0 where
  pub valid : All IsValid s.registry.heap
  pub named : All IsNamed s.registry.heap
  pub registered :
      (a : ℕ) (item : Lock)
      → get_elem? s.registry.heap a ≡ some item
      → item.deleted ≡ false
      → lookup (lock_name item) s.registry.locks ≡ some a
  pub entries :
      (key : Text) (a : ℕ)
      → lookup key s.registry.locks ≡ some a
      → (item : Lock) × (get_elem? s.registry.heap a ≡ some item)
        × (lock_name item ≡ key)
        × (item.deleted ≡ false)
  pub counted : (ns : Text) → count_at ns s.registry.ns_counts ≡ pos (live_count ns s.registry.heap)
  pub bounded : (ns : Text) → live_count ns s.registry.heap ≤ pos_part s.registry.quota
