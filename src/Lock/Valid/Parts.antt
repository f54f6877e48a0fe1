-- ===== src/Lock/Valid/Parts.antt =====
-- The parts of the critical sections keep a record valid.
use lockd.Prelude.{
  ◌≡◌, ◌≢◌, refl, sym, ◌∙◌, subst, false, Bool-cases, [], ◌∷◌, ◌++◌, text_eq, Text, nat_eq,
  get_elem?-append_new, All-append, length, arith, inl, inr, is_empty, text_beq_iff,
}
use lockd.Lock.Errors.{Result-cases}
use lockd.Lock.Types.{Time, Duration, AcquireOptions, Lock, new_waiter, next64}
use lockd.Lock.Lease.{normalize_ttl}
use lockd.Lock.Lease.Bounds.{InRange, lease_expiry-lt, normalize_ttl-InRange}
use lockd.Lock.Reentrant.{try_reenter, decrease_depth}
use lockd.Lock.Shared.{Shared}
use lockd.Lock.Acquire.{contend, join_queue}
use lockd.Lock.Calls.{renew_live}
use lockd.Lock.Valid.{IsValid, IsSound, Waits}
use lockd.Lock.Valid.Queues.{Queued-append, Queued-fresh, Queued-push}
use lockd.Lock.Valid.Grants.{Keeps, Keeps-trans, Keeps-refl}

try_reenter-Keeps :
    (item : Lock) (holder : Text) (ttl : Duration) (now : Time)
    → IsValid item
    → InRange ttl
    → Keeps item (try_reenter item holder ttl now).0
unfolding try_reenter
try_reenter-Keeps item holder ttl now v range = ground (arith, lease_expiry-lt now ttl)

pub decrease_depth-Keeps :
    (item : Lock) (now : Time)
    → IsValid item
    → item.token ≢ []
    → Keeps item (decrease_depth item now).0
unfolding decrease_depth
decrease_depth-Keeps item now v held = ground (arith, lease_expiry-lt now item.default_ttl)

join_queue-Keeps :
    (s : Shared) (item : Lock) (options : AcquireOptions) (now : Time)
    → IsValid item
    → item.deleted ≡ false
    → InRange options.ttl
    → Keeps item (join_queue s item options now).1
unfolding join_queue new_waiter
join_queue-Keeps s item options now v live range =
    let w = new_waiter (next64 s.seq) options now in
    record {
      valid = record {
        terms = v.terms;
        depths = v.depths;
        lease = v.lease;
        queued =
            Queued-push (item.waiters ++ w ∷ []) item.queue (length item.waiters)
              (Queued-append item.waiters w item.queue v.queued)
              (Queued-fresh item.waiters item.queue v.queued)
              (subst Waits (sym (get_elem?-append_new item.waiters w)) (refl, refl, refl, range));
        sound = All-append IsSound item.waiters (w ∷ []) v.sound (tt, tt);
        gone = λ d. absurd (cc);
      };
      same_namespace = refl;
      same_name = refl;
      same_deleted = refl;
    }

pub contend-Keeps :
    (s : Shared) (item : Lock) (options : AcquireOptions) (now : Time)
    → IsValid item
    → item.deleted ≡ false
    → InRange options.ttl
    → Keeps item (contend s item options now).1
unfolding contend
contend-Keeps s item options now v live range =
    let k = try_reenter-Keeps item options.holder options.ttl now v range in
    ground (
      arith,
      k,
      join_queue-Keeps s (try_reenter item options.holder options.ttl now).0 options now k.valid
          (k.same_deleted ∙ live) range,
      Keeps-trans k,
    )

pub renew_live-Keeps :
    (s : Shared) (item : Lock) (token : Text) (ttl : Duration) (now : Time)
    → IsValid item
    → Keeps item (renew_live s item token ttl now).1
unfolding renew_live
renew_live-Keeps s item token ttl now v = elim (Result-cases (normalize_ttl ttl item.default_ttl)) [
  | inl (e, refused) ↦ simp refused (ground (arith, Keeps-refl v))
  | inr (t, taken) ↦ simp taken (
      ground (
        arith,
        lease_expiry-lt now t,
        normalize_ttl-InRange ttl item.default_ttl taken,
        text_beq_iff token item.token,
      ))
]

-- A lease that is there to expire is one of a record that is not deleted.
pub live_of_lease :
    (item : Lock) → IsValid item → is_empty item.token ≡ false → item.deleted ≡ false
live_of_lease item v held = elim (Bool-cases item.deleted) [
  | inl gone ↦ ground (arith, v.gone gone)
  | inr live ↦ live
]
