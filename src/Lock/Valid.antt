-- ===== src/Lock/Valid.antt =====
-- What holds of a record between two critical sections.
pub mod Queues
pub mod Grants
pub mod Rounds
pub mod Parts
pub mod Sections
pub mod Waits
use lockd.Prelude.{
  ℕ, ◌≤◌, ◌<◌, ◌≡◌, Bool, true, false, Option, some, none, List, [], ◌∷◌, Text, nat_eq, pos_part,
  ◌≤ℤ◌, pos, get_elem?, All, contains,
}
use lockd.Lock.Errors.{Result, ok, err}
use lockd.Lock.Types.{Time, Lock, Waiter, AcquireResult}
use lockd.Lock.Lease.Bounds.{InRange}

-- A pointer to a waiter that was neither served nor cancelled.
abbrev pub Waits : Option Waiter → Type 0
Waits none = ⊥
Waits (some w) = (w.cancelled ≡ false) × (w.granted ≡ false) × (w.done ≡ []) × InRange w.ttl

-- Every entry of the queue waits, and none stands in it twice.
abbrev pub Queued : List Waiter → List ℕ → Type 0
Queued ws [] = Unit {0}
Queued ws (a ∷ items) = Waits (get_elem? ws a) × (contains a items ≡ false) × Queued ws items

-- At most one outcome was sent and not received; a grant that was sent is the one recorded.
abbrev pub Agrees : List (Result AcquireResult) → Bool → AcquireResult → Type 0
Agrees [] granted r = Unit {0}
Agrees (ok x ∷ []) granted r = (granted ≡ true) × (x ≡ r)
Agrees (err e ∷ []) granted r = granted ≡ false
Agrees (_ ∷ _ ∷ _) granted r = ⊥

abbrev pub IsSound : Waiter → Type 0
IsSound w = Agrees w.done w.granted w.result

-- The fields of a lease, by its token: all cleared, or a live depth and a deadline.
abbrev pub Leased : Text → Text → ℕ → Time → ℕ → Type 0
Leased [] holder depth expires_at limit = (holder ≡ []) × (depth ≡ 0) × (expires_at ≡ 0)
Leased (c ∷ token) holder depth expires_at limit = (0 < depth) × (depth ≤ limit) × (0 < expires_at)

pub record IsValid (item : Lock) : Type 0 where
  pub terms : InRange item.default_ttl
  pub depths : (pos 1 ≤ℤ item.max_depth) × (item.max_depth ≤ℤ pos 1024)
  pub lease : Leased item.token item.holder item.depth item.expires_at (pos_part item.max_depth)
  pub queued : Queued item.waiters item.queue
  pub sound : All IsSound item.waiters
  pub gone : item.deleted ≡ true → (item.token ≡ []) × (item.queue ≡ [])
