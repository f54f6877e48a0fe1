-- ===== src/Lock/Queue/Order.antt =====
-- The queue of internal/lock/queue.go seen as the list of the waiters that still want the lock.
use lockd.Prelude.{
  ℕ, ◌<◌, ◌≡◌, refl, true, Option, some, none, List, [], ◌∷◌, ◌++◌, nat_eq, length, get_elem?,
  if◌then◌else◌, arith, Bool-cases, inl, inr, Option-cases,
}
use lockd.Lock.Types.{Waiter}
use lockd.Lock.Queue.{is_active, push, pop, active_length, views}

-- Those entries, in the order of their arrival.
abbrev pub active : List Waiter → List ℕ → List ℕ
active ws [] = []
active ws (a ∷ items) = if is_active (get_elem? ws a) then a ∷ active ws items else active ws items

-- What a first-in first-out queue with these contents gives.
abbrev pub Serves : List ℕ → Option ℕ → List ℕ → Type 0
Serves [] next rest = (next ≡ none) × (rest ≡ [])
Serves (a ∷ items) next rest = (next ≡ some a) × (rest ≡ items)

pop-Serves :
    (ws : List Waiter) (items : List ℕ)
    → Serves (active ws items) (pop ws items).0 (active ws (pop ws items).1)
unfolding pop
pop-Serves ws [] = (refl, refl)
pop-Serves ws (a ∷ items) = elim (Bool-cases (is_active (get_elem? ws a))) [
  | inl e ↦ rw e (refl, refl)
  | inr e ↦ rw e (pop-Serves ws items)
]

active-push :
    (ws : List Waiter) (items : List ℕ) (a : ℕ)
    → is_active (get_elem? ws a) ≡ true
    → active ws (push items a) ≡ active ws items ++ a ∷ []
unfolding push
active-push ws [] a h = rw h
active-push ws (b ∷ items) a h = ground (arith, active-push ws items a h)

active_length-active :
    (ws : List Waiter) (items : List ℕ)
    → (active_length ws items ≡ length (active ws items))
      × (length (views ws items) ≡ length (active ws items))
unfolding active_length views
active_length-active ws [] = (refl, refl)
active_length-active ws (a ∷ items) =
    let (p, q) = active_length-active ws items in
    elim (Option-cases (get_elem? ws a)) [
      | inl e ↦ ground (arith, p, q)
      | inr (w, e) ↦ ground (arith, p, q)
    ]

-- The queue behaves as a first-in first-out queue of the waiters that are not cancelled: pop gives
-- the oldest of them and leaves the others in order, or nothing if there is none; a waiter that is
-- pushed, not cancelled, comes last; activeLength and the length of views count them.
pub queue_fifo :
    (ws : List Waiter) (items : List ℕ) (a : ℕ)
    → is_active (get_elem? ws a) ≡ true
    → Serves (active ws items) (pop ws items).0 (active ws (pop ws items).1)
      × (active ws (push items a) ≡ active ws items ++ a ∷ [])
      × (active_length ws items ≡ length (active ws items))
      × (length (views ws items) ≡ length (active ws items))
queue_fifo ws items a h = (
  pop-Serves ws items,
  active-push ws items a h,
  (active_length-active ws items).0,
  (active_length-active ws items).1,
)

-- A waiter that is popped leaves a shorter queue.
pub pop_shorter :
    (ws : List Waiter) (items : List ℕ) (a : ℕ)
    → (pop ws items).0 ≡ some a
    → length (pop ws items).1 < length items
unfolding pop
pop_shorter ws [] a e = absurd (cc)
pop_shorter ws (b ∷ items) a e = elim (Bool-cases (is_active (get_elem? ws b))) [
  | inl h ↦ rw h (omega arith)
  | inr h ↦
      let rest : (pop ws items).0 ≡ some a = ground arith in
      rw h (omega (arith, pop_shorter ws items a rest))
]
