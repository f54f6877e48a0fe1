-- ===== src/Lock/Valid/Waits.antt =====
-- Both ends of the wait of `Acquire` keep a record valid.
use lockd.Prelude.{
  ℕ, ◌≡◌, ◌≢◌, refl, subst, false, Bool-cases, some, List, [], ◌∷◌, text_eq, nat_eq, get_elem?, set,
  All-set, All-get_elem?, contains, arith, Option-cases, List-cases, inl, inr,
}
use lockd.Lock.Errors.{Error, Result}
use lockd.Lock.Types.{AcquireResult, Lock, Waiter, cancel, next64}
use lockd.Lock.Queue.{remove}
use lockd.Lock.Shared.{Shared}
use lockd.Lock.Acquire.{wait_done, wait_cancelled}
use lockd.Lock.Valid.{IsValid, IsSound, Waits}
use lockd.Lock.Valid.Queues.{Queued-set, remove-Queued, Queued-contains}
use lockd.Lock.Valid.Grants.{Keeps, Keeps-refl, store_write-IsValid}

-- A waiter with an outcome to receive is in no queue.
sent_not_queued :
    (item : Lock) (a : ℕ) (w : Waiter)
    → IsValid item
    → get_elem? item.waiters a ≡ some w
    → w.done ≢ []
    → contains a item.queue ≡ false
sent_not_queued item a w v g sent = elim (Bool-cases (contains a item.queue)) [
  | inl member ↦
      let h = subst Waits g (Queued-contains item.waiters item.queue a v.queued member) in
      absurd (sent h.2)
  | inr absent ↦ absent
]

received-Keeps :
    (item : Lock) (a : ℕ) (w : Waiter) (outcome : Result AcquireResult)
    (rest : List (Result AcquireResult))
    → IsValid item
    → get_elem? item.waiters a ≡ some w
    → w.done ≡ outcome ∷ rest
    → Keeps item (record item { waiters = set item.waiters a (record w { done = rest }) })
received-Keeps item a w outcome rest v g e = record {
  valid =
      store_write-IsValid item a (record w { done = rest }) v
        (sent_not_queued item a w v g (λ z. absurd (cc)))
        (ground (arith, All-get_elem? IsSound item.waiters a v.sound g));
  same_namespace = refl;
  same_name = refl;
  same_deleted = refl;
}

-- The record after a wait that was given up.
abandoned-Keeps :
    (item : Lock) (a : ℕ) (w : Waiter) (version : ℕ)
    → IsValid item
    → get_elem? item.waiters a ≡ some w
    → Keeps item (record item {
      waiters = set item.waiters a (cancel w);
      queue = (remove item.queue a).1;
      version = version;
    })
unfolding cancel
abandoned-Keeps item a w version v g =
    let (q, n) = remove-Queued item.waiters item.queue a v.queued in
    record {
      valid = record {
        terms = v.terms;
        depths = v.depths;
        lease = v.lease;
        queued = Queued-set item.waiters a (cancel w) (remove item.queue a).1 n q;
        sound =
            All-set IsSound item.waiters a (cancel w) v.sound
              (All-get_elem? IsSound item.waiters a v.sound g);
        gone = λ d. ((v.gone d).0, unfold remove in rw (v.gone d).1);
      };
      same_namespace = refl;
      same_name = refl;
      same_deleted = refl;
    }

pub wait_done-Keeps :
    (s : Shared) (item : Lock) (a : ℕ) {s' : Shared} {item' : Lock} {r : Result AcquireResult}
    → IsValid item
    → wait_done s item a ≡ some (s', item', r)
    → Keeps item item'
unfolding wait_done
wait_done-Keeps s item a v e = elim (Option-cases (get_elem? item.waiters a)) [
  | inl g ↦ absurd (ground arith)
  | inr (w, g) ↦ elim (List-cases w.done) [
    | inl z ↦ absurd (ground arith)
    | inr (outcome, rest, z) ↦ ground (arith, received-Keeps item a w outcome rest v g z)
  ]
]

pub wait_cancelled-Keeps :
    (s : Shared) (item : Lock) (a : ℕ) (e : Error)
    → IsValid item
    → Keeps item (wait_cancelled s item a e).1
unfolding wait_cancelled
wait_cancelled-Keeps s item a e v = elim (Option-cases (get_elem? item.waiters a)) [
  | inl g ↦ simp g (Keeps-refl v)
  | inr (w, g) ↦
      simp g (ground (arith, Keeps-refl v, abandoned-Keeps item a w (next64 item.version) v g))
]
