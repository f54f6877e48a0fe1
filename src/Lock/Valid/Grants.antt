-- ===== src/Lock/Valid/Grants.antt =====
-- Clearing a lease, writing one and handing a free lock to the queue keep a record valid.
use lockd.Prelude.{
  ℕ, ◌<◌, ◌≡◌, ◌≢◌, refl, ◌∙◌, subst, Bool, false, Option, some, none, List, [], ◌∷◌, Text, text,
  nat_eq, get_elem?, set, All-set, contains, arith,
}
use lockd.Lock.Errors.{ErrorCode, Error, err, core}
use lockd.Lock.Types.{Time, Duration, Lock, Waiter, grant, send}
use lockd.Lock.Lease.{assign_lease, clear_lease}
use lockd.Lock.Lease.Bounds.{InRange, lease_expiry-lt}
use lockd.Lock.Valid.{IsValid, IsSound, Queued, Waits}
use lockd.Lock.Valid.Queues.{Queued-set}

-- A section leaves a valid record that still stands under its name, deleted or not as before.
pub record Keeps (item item' : Lock) : Type 0 where
  pub valid : IsValid item'
  pub same_namespace : item'.namespace ≡ item.namespace
  pub same_name : item'.name ≡ item.name
  pub same_deleted : item'.deleted ≡ item.deleted

pub Keeps-trans : {a b c : Lock} → Keeps a b → Keeps b c → Keeps a c
Keeps-trans h k = record {
  valid = k.valid;
  same_namespace = k.same_namespace ∙ h.same_namespace;
  same_name = k.same_name ∙ h.same_name;
  same_deleted = k.same_deleted ∙ h.same_deleted;
}

pub Keeps-refl : {item : Lock} → IsValid item → Keeps item item
Keeps-refl v = record { valid = v; same_namespace = refl; same_name = refl; same_deleted = refl }

pub clear_lease-Keeps :
    (item : Lock) (now : Time) (b : Bool) → IsValid item → Keeps item (clear_lease item now b)
unfolding clear_lease
clear_lease-Keeps item now b v = record {
  valid = record {
    terms = v.terms;
    depths = v.depths;
    lease = (refl, refl, refl);
    queued = v.queued;
    sound = v.sound;
    gone = λ d. (refl, (v.gone d).1);
  };
  same_namespace = refl;
  same_name = refl;
  same_deleted = refl;
}

pub assign_lease-Keeps :
    (item : Lock) (holder token : Text) (ttl : Duration) (now : Time) {rest : Text}
    → IsValid item
    → item.deleted ≡ false
    → InRange ttl
    → token ≡ 116 ∷ rest
    → Keeps item (assign_lease item holder token ttl now).0
unfolding assign_lease
assign_lease-Keeps item holder token ttl now v live range e = record {
  valid = record {
    terms = v.terms;
    depths = v.depths;
    lease = ground (arith, lease_expiry-lt now ttl);
    queued = v.queued;
    sound = v.sound;
    gone = λ d. absurd (cc);
  };
  same_namespace = refl;
  same_name = refl;
  same_deleted = refl;
}

-- The queue and the sound waiters of a record, apart from its lease.
pub store_write-IsValid :
    (item : Lock) (a : ℕ) (w : Waiter)
    → IsValid item
    → contains a item.queue ≡ false
    → IsSound w
    → IsValid (record item { waiters = set item.waiters a w })
store_write-IsValid item a w v n h = record {
  terms = v.terms;
  depths = v.depths;
  lease = v.lease;
  queued = Queued-set item.waiters a w item.queue n v.queued;
  sound = All-set IsSound item.waiters a w v.sound h;
  gone = v.gone;
}

abbrev pub no_token : Error
no_token = core ErrorCode.internal (text "could not create lease token")

-- The record after a grant to the waiter `w` at `a`.
abbrev pub granted_lock : Lock → ℕ → Waiter → Text → Time → Lock
granted_lock item a w token now = record ((assign_lease item w.holder token w.ttl now).0) {
  waiters = set item.waiters a (grant w (assign_lease item w.holder token w.ttl now).1);
}

-- What a hand-over to the queue at `now` leaves: the holder that was served has a lease that ends
-- later, or nobody waits.
abbrev pub Handed : Time → Option Text → Lock → Type 0
Handed now none r = (r.token ≡ []) × (r.queue ≡ [])
Handed now (some holder) r = (r.holder ≡ holder) × (r.token ≢ []) × (now < r.expires_at)

-- What a round needs to know of the head of the queue.
dequeue-IsValid :
    (item : Lock) (a : ℕ) (rest : List ℕ)
    → IsValid item
    → item.deleted ≡ false
    → Queued item.waiters (a ∷ rest)
    → IsValid (record item { queue = rest })
dequeue-IsValid item a rest v live q = record {
  terms = v.terms;
  depths = v.depths;
  lease = v.lease;
  queued = q.2;
  sound = v.sound;
  gone = λ d. absurd (cc);
}

-- The record that a failed round goes on with.
pub next_round-Keeps :
    (item : Lock) (a : ℕ) (rest : List ℕ) (w : Waiter)
    → IsValid item
    → item.deleted ≡ false
    → Queued item.waiters (a ∷ rest)
    → get_elem? item.waiters a ≡ some w
    → Keeps item
        (record item { queue = rest; waiters = set item.waiters a (send w (err no_token)) })
unfolding send
next_round-Keeps item a rest w v live q g =
    let h : Waits (some w) = subst Waits g q.0 in
    record {
      valid =
          store_write-IsValid (record item { queue = rest }) a (send w (err no_token))
            (dequeue-IsValid item a rest v live q) q.1 (ground arith);
      same_namespace = refl;
      same_name = refl;
      same_deleted = refl;
    }

pub granted_lock-Keeps :
    (item : Lock) (a : ℕ) (rest : List ℕ) (w : Waiter) (now : Time) (token : Text) (tail : Text)
    → IsValid item
    → item.deleted ≡ false
    → Queued item.waiters (a ∷ rest)
    → get_elem? item.waiters a ≡ some w
    → token ≡ 116 ∷ tail
    → Keeps item (granted_lock (record item { queue = rest }) a w token now)
unfolding grant send assign_lease
granted_lock-Keeps item a rest w now token tail v live q g t =
    let h : Waits (some w) = subst Waits g q.0 in
    let result = (assign_lease (record item { queue = rest }) w.holder token w.ttl now).1 in
    let stored =
      store_write-IsValid (record item { queue = rest }) a (grant w result)
        (dequeue-IsValid item a rest v live q) q.1 (ground arith) in
    let k =
      assign_lease-Keeps
        (record item { queue = rest; waiters = set item.waiters a (grant w result) }) w.holder token
        w.ttl now stored live h.3 t in
    record { valid = k.valid; same_namespace = refl; same_name = refl; same_deleted = refl }
