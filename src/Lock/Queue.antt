-- ===== src/Lock/Queue.antt =====
-- internal/lock/queue.go: the queue of waiters. `items` are pointers into the store `ws`.
pub mod Order
use lockd.Prelude.{
  ℕ, ◌+◌, Bool, true, false, ◌||◌, not, Option, some, none, List, [], ◌∷◌, ◌++◌, nat_eq, ◌==◌,
  if◌then◌else◌, get_elem?, set,
}
use lockd.Lock.Errors.{Error, err}
use lockd.Lock.Types.{Waiter, WaiterView, waiter_view, cancel, send}

-- `item != nil && !item.cancelled`.
abbrev pub is_active : Option Waiter → Bool
is_active none = false
is_active (some w) = not w.cancelled

unfoldable pub push : List ℕ → ℕ → List ℕ
push items item = items ++ item ∷ []

-- The item that is popped, and the queue that is left.
unfoldable pub pop : List Waiter → List ℕ → Option ℕ × List ℕ
pop ws [] = (none, [])
pop ws (item ∷ items) =
    let rest = pop ws items in if is_active (get_elem? ws item) then (some item, items) else rest

-- Whether the target was found, and the queue that is left.
unfoldable pub remove : List ℕ → ℕ → Bool × List ℕ
remove [] target = (false, [])
remove (item ∷ items) target =
    let rest = remove items target in
    if item == target then (true, items) else (rest.0, item ∷ rest.1)

unfoldable pub active_length : List Waiter → List ℕ → ℕ
active_length ws [] = 0
active_length ws (item ∷ items) =
    (if is_active (get_elem? ws item) then 1 else 0) + active_length ws items

abbrev pub view_of : Option Waiter → List WaiterView → List WaiterView
view_of none rest = rest
view_of (some w) rest = if w.cancelled then rest else waiter_view w ∷ rest

unfoldable pub views : List Waiter → List ℕ → List WaiterView
views ws [] = []
views ws (item ∷ items) = view_of (get_elem? ws item) (views ws items)

abbrev pub cancel_item : Error → List Waiter → ℕ → Option Waiter → List Waiter
cancel_item e ws item none = ws
cancel_item e ws item (some w) =
    if w.cancelled || w.granted then ws else set ws item (send (cancel w) (err e))

-- The loop of `cancelAll`: the store after it. The queue becomes nil.
unfoldable pub cancel_all : Error → List Waiter → List ℕ → List Waiter
cancel_all e ws [] = ws
cancel_all e ws (item ∷ items) = cancel_all e (cancel_item e ws item (get_elem? ws item)) items
