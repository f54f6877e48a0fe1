-- ===== src/Lock/Turns/Order.antt =====
-- The order in which waiters are served, over any run.
use lockd.Prelude.{
  ℕ, ◌<◌, ◌≡◌, ◌≢◌, sym, ◌∙◌, ap, subst, Bool, true, false, ◌||◌, Option, some, List, [], ◌∷◌, ◌++◌,
  nat_eq, ◌==◌, if◌then◌else◌, get_elem?, get_elem?-lt, get_elem?-set_ne, get_elem?-append_cases,
  length, length-append, length-set, contains, contains-append, All-get_elem?, arith, inl, inr,
  Option-cases, Bool-cases,
}
use mathlib.Core.Option.{some-injective}
use lockd.Lock.Types.{Lock, Waiter}
use lockd.Lock.Queue.{remove}
use lockd.Lock.Valid.{IsValid}
use lockd.Lock.Valid.Queues.{Queued-contains, Queued-waiter}
use lockd.Lock.Service.{Service}
use lockd.Lock.System.{Inv, Reach}
use lockd.Lock.Turns.{
  Turn, turn_of, Move, Moves, stays, after, wastes, frees, takes, serves, seizes, joins, leaves,
  closes, Cause,
}
use lockd.Lock.Turns.Flags.{length-granted_flags, granted_flags-some, granted_flags-none}
use lockd.Lock.Turns.Steps.{reach_refines}

-- Whether `y` stands in the line before any `x`.
unfoldable pub is_before : ℕ → ℕ → List ℕ → Bool
is_before y x [] = false
is_before y x (a ∷ line) =
    let rest = is_before y x line in if a == x then false else (a == y || rest)

-- `y` was not served, and is not before `x`, as long as `x` waits.
pub record Ahead (x y : ℕ) (t : Turn) : Type 0 where
  pub known : x < length t.served
  pub first :
      contains x t.line ≡ true → (is_before y x t.line ≡ false) × (get_elem? t.served y ≢ some true)

is_before-remove :
    (x y a : ℕ) (line : List ℕ)
    → contains a (remove line a).1 ≡ false
    → contains x (remove line a).1 ≡ true
    → (contains x line ≡ true)
      × (is_before y x line ≡ false → is_before y x (remove line a).1 ≡ false)
unfolding is_before remove contains
is_before-remove x y a [] n h = (h, λ e. e)
is_before-remove x y a (b ∷ line) n h = elim (Bool-cases (b == a)) [
  | inl e ↦ ground (arith)
  | inr e ↦ ground (arith, is_before-remove x y a line)
]

is_before-append :
    (x y a : ℕ) (line : List ℕ)
    → contains x line ≡ true
    → is_before y x (line ++ a ∷ []) ≡ is_before y x line
unfolding is_before contains
is_before-append x y a [] h = absurd (cc)
is_before-append x y a (b ∷ line) h = ground (arith, is_before-append x y a line)

module _ (rand : ℕ → Option (List ℕ)) (x y : ℕ) where
  Move-Ahead : {May : Cause → Type 0} {t u : Turn} → Move rand May t u → Ahead x y t → Ahead x y u
  Move-Ahead wastes h = record { known = h.known; first = h.first }
  Move-Ahead (frees c m) h = record { known = h.known; first = h.first }
  Move-Ahead (takes token idle alone e) h = record { known = h.known; first = h.first }
  Move-Ahead {May} {t} (serves token a rest idle e n d) h =
      let passed : contains x rest ≡ true → a ≢ x = λ m. unfold contains in ground (arith, n) in
      record {
        known = ground (arith, length-set t.served a true, h.known);
        first = λ m.
            let (before, waits) = h.first (rw e (unfold contains in ground (arith, m))) in
            let other : (is_before y x rest ≡ false) × (a ≢ y) =
              unfold is_before in ground (arith, passed m, e, before) in
            (other.0, λ s. waits (sym (get_elem?-set_ne t.served a y true other.1) ∙ s));
      }
  Move-Ahead (seizes token m e) h = record { known = h.known; first = h.first }
  Move-Ahead {May} {t} joins h = record {
    known = ground (arith, length-append t.served (false ∷ []), h.known);
    first = λ m.
        let k = h.known in
        let newer : contains x (length t.served ∷ []) ≡ false =
          unfold contains in ground (arith, k) in
        let old : contains x t.line ≡ true =
          ground (arith, contains-append x t.line (length t.served ∷ []), newer) in
        let (before, waits) = h.first old in
        (
          is_before-append x y (length t.served) t.line old ∙ before,
          λ s. elim (get_elem?-append_cases t.served false y s) [
            | inl (e, e') ↦ absurd (cc)
            | inr g ↦ waits g
          ],
        );
  }
  Move-Ahead {May} {t} (leaves a n) h = record {
    known = h.known;
    first = λ m.
        let (old, keeps) = is_before-remove x y a t.line n m in
        let (before, waits) = h.first old in (keeps before, waits);
  }
  Move-Ahead (closes m) h = record {
    known = h.known;
    first = λ m. absurd (unfold contains in ground arith);
  }

  Moves-Ahead : {May : Cause → Type 0} {t u : Turn} → Moves rand May t u → Ahead x y t → Ahead x y u
  Moves-Ahead stays h = h
  Moves-Ahead (after m last) h = Move-Ahead last (Moves-Ahead m h)

  -- A waiter of a valid record, with one behind it that was not served.
  turn_of-Ahead :
      (s : Service) (item : Lock)
      → IsValid item
      → contains x item.queue ≡ true
      → is_before y x item.queue ≡ false
      → ((v : Waiter) → get_elem? item.waiters y ≡ some v → v.granted ≡ false)
      → Ahead x y (turn_of s.shared item)
  turn_of-Ahead s item v member before waits =
      let (w, e) =
        Queued-waiter item.waiters x (Queued-contains item.waiters item.queue x v.queued member) in
      record {
        known = ground (arith, get_elem?-lt item.waiters x e, length-granted_flags item.waiters);
        first = λ _. (
          before,
          λ g. elim (Option-cases (get_elem? item.waiters y)) [
            | inl e ↦ absurd (ground (arith, granted_flags-none item.waiters y e))
            | inr (u, e) ↦ absurd (ground (arith, granted_flags-some item.waiters y e, waits u e))
          ],
        );
      }

  -- From a service that satisfies the invariant, in which one waiter stands in the queue of a
  -- record and another, that was not granted the lock, does not stand before it or has not come
  -- yet, and by any interleaving of steps: as long as the first still waits, the other is not
  -- granted the lock and does not stand before it.
  pub no_overtaking :
      {s t : Service} (a : ℕ) (item item' : Lock) (w : Waiter)
      → Inv s
      → Reach rand s t
      → get_elem? s.registry.heap a ≡ some item
      → get_elem? t.registry.heap a ≡ some item'
      → contains x item.queue ≡ true
      → is_before y x item.queue ≡ false
      → ((v : Waiter) → get_elem? item.waiters y ≡ some v → v.granted ≡ false)
      → contains x item'.queue ≡ true
      → get_elem? item'.waiters y ≡ some w
      → (w.granted ≡ false) × (is_before y x item'.queue ≡ false)
  no_overtaking {s} {t} a item item' w v r g g' member before waits still gw =
      let (z, e, m) = reach_refines rand a item v r g in
      let h : Ahead x y (turn_of t.shared item') =
        subst (λ i. Ahead x y (turn_of t.shared i)) (some-injective _ _ (sym e ∙ g'))
          (Moves-Ahead m (
            turn_of-Ahead s item (All-get_elem? IsValid s.registry.heap a v.valid g) member before
              waits)) in
      let (behind, unserved) = h.first still in
      elim (Bool-cases w.granted) [
        | inl served ↦ absurd (unserved (granted_flags-some item'.waiters y gw ∙ ap some served))
        | inr waiting ↦ (waiting, behind)
      ]
