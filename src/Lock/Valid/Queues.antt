-- ===== src/Lock/Valid/Queues.antt =====
-- The queue of a valid record: what `pop` gives, and which writes to the store keep it.
use lockd.Prelude.{
  ap, get_elem?-set_self, ◌≢◌, Option, ℕ, ◌≡◌, refl, sym, true, false, some, none, List, [], ◌∷◌,
  ◌++◌, nat_eq, ◌==◌, get_elem?, get_elem?-set_ne, get_elem?-append_old, set, contains,
  contains-append, Option-cases, inl, inr, arith, length, get_elem?-lt, subst, ◌∙◌, Bool-cases,
  nat_beq_iff, All, All-set,
}
use lockd.Lock.Errors.{Error, err}
use lockd.Lock.Types.{Waiter, send, cancel}
use lockd.Lock.Queue.{pop, cancel_all, cancel_item, active_length, push, remove}
use lockd.Lock.Valid.{Waits, Queued, IsSound}

-- `pop` takes the head of a valid queue.
pub pop-Queued :
    (ws : List Waiter) (a : ℕ) (items : List ℕ)
    → Queued ws (a ∷ items)
    → pop ws (a ∷ items) ≡ (some a, items)
unfolding pop
pop-Queued ws a items h = elim (Option-cases (get_elem? ws a)) [
  | inl e ↦ absurd (subst Waits e h.0)
  | inr (w, e) ↦ ground arith
]

pub Queued-waiter :
    (ws : List Waiter) (a : ℕ) → Waits (get_elem? ws a) → (w : Waiter) × (get_elem? ws a ≡ some w)
Queued-waiter ws a h = elim (Option-cases (get_elem? ws a)) [
  | inl e ↦ absurd (subst Waits e h)
  | inr (w, e) ↦ (w, e)
]

-- A write to a waiter outside the queue does not touch it.
pub Queued-set :
    (ws : List Waiter) (a : ℕ) (w : Waiter) (items : List ℕ)
    → contains a items ≡ false
    → Queued ws items
    → Queued (set ws a w) items
unfolding contains
Queued-set ws a w [] h q = tt
Queued-set ws a w (b ∷ items) h q = (
  subst Waits (sym (get_elem?-set_ne ws a b w (ground arith))) q.0,
  q.1,
  Queued-set ws a w items (ground arith) q.2,
)

pub Queued-append :
    (ws : List Waiter) (w : Waiter) (items : List ℕ) → Queued ws items → Queued (ws ++ w ∷ []) items
Queued-append ws w [] q = tt
Queued-append ws w (b ∷ items) q =
    let (x, e) = Queued-waiter ws b q.0 in
    (
      subst Waits (e ∙ sym (get_elem?-append_old ws (w ∷ []) b e)) q.0,
      q.1,
      Queued-append ws w items q.2,
    )

-- No entry of a valid queue lies beyond the store.
pub Queued-fresh :
    (ws : List Waiter) (items : List ℕ) → Queued ws items → contains (length ws) items ≡ false
unfolding contains
Queued-fresh ws [] q = refl
Queued-fresh ws (b ∷ items) q =
    let (x, e) = Queued-waiter ws b q.0 in
    ground (arith, get_elem?-lt ws b e, Queued-fresh ws items q.2)

-- Every entry of a valid queue counts as active.
pub active_length-Queued :
    (ws : List Waiter) (items : List ℕ) → Queued ws items → active_length ws items ≡ length items
unfolding active_length
active_length-Queued ws [] q = refl
active_length-Queued ws (a ∷ items) q =
    let (w, e) = Queued-waiter ws a q.0 in ground (arith, active_length-Queued ws items q.2)

pub Queued-push :
    (ws : List Waiter) (items : List ℕ) (a : ℕ)
    → Queued ws items
    → contains a items ≡ false
    → Waits (get_elem? ws a)
    → Queued ws (push items a)
unfolding push contains
Queued-push ws [] a q n h = (h, refl, tt)
Queued-push ws (b ∷ items) a q n h = (
  q.0,
  ground (arith, contains-append b items (a ∷ [])),
  Queued-push ws items a q.2 (ground arith) h,
)

contains-remove-false :
    (items : List ℕ) (a b : ℕ) → contains b items ≡ false → contains b (remove items a).1 ≡ false
unfolding contains remove
contains-remove-false [] a b h = refl
contains-remove-false (x ∷ items) a b h = ground (arith, contains-remove-false items a b)

-- After `remove` the target is gone, and the rest of the queue still waits.
pub remove-Queued :
    (ws : List Waiter) (items : List ℕ) (a : ℕ)
    → Queued ws items
    → Queued ws (remove items a).1 × (contains a (remove items a).1 ≡ false)
unfolding contains remove
remove-Queued ws [] a q = (tt, refl)
remove-Queued ws (b ∷ items) a q = elim (Bool-cases (b == a)) [
  | inl e ↦ rw e (q.2, ground arith)
  | inr e ↦
      let (q', n) = remove-Queued ws items a q.2 in
      rw e ((q.0, contains-remove-false items a b q.1, q'), ground arith)
]

-- A member of a valid queue waits.
pub Queued-contains :
    (ws : List Waiter) (items : List ℕ) (a : ℕ)
    → Queued ws items
    → contains a items ≡ true
    → Waits (get_elem? ws a)
unfolding contains
Queued-contains ws [] a q h = absurd (cc)
Queued-contains ws (b ∷ items) a q h = elim (Bool-cases (b == a)) [
  | inl e ↦ subst (λ i. Waits (get_elem? ws i)) ((nat_beq_iff b a).0 e) q.0
  | inr e ↦ Queued-contains ws items a q.2 (ground arith)
]

cancelled_waiter-IsSound :
    (e : Error) (w : Waiter) → Waits (some w) → IsSound (send (cancel w) (err e))
unfolding send cancel
cancelled_waiter-IsSound e w h = ground arith

-- `cancelAll` on a valid queue leaves every waiter with at most one outcome.
pub cancel_all-IsSound :
    (e : Error) (ws : List Waiter) (items : List ℕ)
    → Queued ws items
    → All IsSound ws
    → All IsSound (cancel_all e ws items)
unfolding cancel_all
cancel_all-IsSound e ws [] q s = s
cancel_all-IsSound e ws (a ∷ items) q s =
    let (w, g) = Queued-waiter ws a q.0 in
    let h : Waits (some w) = subst Waits g q.0 in
    let ws' = set ws a (send (cancel w) (err e)) in
    let step : cancel_item e ws a (get_elem? ws a) ≡ ws' = ground arith in
    subst (λ x. All IsSound (cancel_all e x items)) (sym step)
      (cancel_all-IsSound e ws' items (Queued-set ws a (send (cancel w) (err e)) items q.1 q.2)
        (All-set IsSound ws a (send (cancel w) (err e)) s (cancelled_waiter-IsSound e w h)))

cancel_item_other :
    (e : Error) (ws : List Waiter) (b : ℕ) (o : Option Waiter) (a : ℕ)
    → b ≢ a
    → get_elem? (cancel_item e ws b o) a ≡ get_elem? ws a
cancel_item_other e ws b none a n = refl
cancel_item_other e ws b (some w) a n =
    ground (arith, get_elem?-set_ne ws b a (send (cancel w) (err e)) n)

-- `cancelAll` leaves the waiters outside the queue alone.
cancel_all_other :
    (e : Error) (ws : List Waiter) (items : List ℕ) (a : ℕ)
    → contains a items ≡ false
    → get_elem? (cancel_all e ws items) a ≡ get_elem? ws a
unfolding cancel_all contains
cancel_all_other e ws [] a n = refl
cancel_all_other e ws (b ∷ items) a n =
    cancel_all_other e (cancel_item e ws b (get_elem? ws b)) items a (ground arith)
    ∙ cancel_item_other e ws b (get_elem? ws b) a (ground arith)

-- `cancelAll` on a valid queue sends the error to each of its waiters, once.
pub cancel_all_member :
    (e : Error) (ws : List Waiter) (items : List ℕ) (a : ℕ)
    → Queued ws items
    → contains a items ≡ true
    → (w : Waiter) × (get_elem? ws a ≡ some w)
      × (get_elem? (cancel_all e ws items) a
          ≡ some (record w { cancelled = true; done = err e ∷ [] }))
unfolding cancel_all contains
cancel_all_member e ws [] a q m = absurd (cc)
cancel_all_member e ws (b ∷ items) a q m =
    let (w, g) = Queued-waiter ws b q.0 in
    let h : Waits (some w) = subst Waits g q.0 in
    let ws' = set ws b (send (cancel w) (err e)) in
    let step : cancel_item e ws b (get_elem? ws b) ≡ ws' = ground arith in
    elim (Bool-cases (b == a)) [
      | inl same ↦
          let here : b ≡ a = (nat_beq_iff b a).0 same in
          (
            w,
            subst (λ i. get_elem? ws i ≡ some w) here g,
            subst
                (λ i.
                  get_elem? (cancel_all e (cancel_item e ws b (get_elem? ws b)) items) i
                  ≡ some (record w { cancelled = true; done = err e ∷ [] }))
                here
                (cancel_all_other e (cancel_item e ws b (get_elem? ws b)) items b q.1
                  ∙ ap (λ x. get_elem? x b) step
                  ∙ get_elem?-set_self ws b (send (cancel w) (err e)) g
                  ∙ unfold send cancel in ground arith),
          )
      | inr other ↦
          let (w', g', sent) =
            cancel_all_member e ws' items a
              (Queued-set ws b (send (cancel w) (err e)) items q.1 q.2) (ground arith) in
          (
            w',
            sym (get_elem?-set_ne ws b a (send (cancel w) (err e)) (ground arith)) ∙ g',
            ap (λ x. get_elem? (cancel_all e x items) a) step ∙ sent,
          )
    ]
