-- ===== src/Lock/Given.antt =====
-- What a lease that `Acquire` of internal/lock/service.go gives at once says of the record.
use lockd.Prelude.{
  ℕ, ◌≡◌, refl, ◌∙◌, ap, ◌&&◌, Option, some, List, Text, is_empty, nat_eq, ◌==◌, text_eq,
  text_beq_iff, get_elem?, get_elem?-set_self, set, arith, Bool-cases, Option-cases, inl, inr,
}
use lockd.Lock.Errors.{Error, ok, err, err_not_found, Result-cases}
use lockd.Lock.Types.{Time, Duration, AcquireOptions, AcquireResult, Lock}
use lockd.Lock.Lease.{assign_lease, new_token, normalize_ttl}
use lockd.Lock.Queue.{active_length}
use lockd.Lock.Reentrant.{try_reenter}
use lockd.Lock.Registry.{get, namespace_allowed}
use lockd.Lock.Shared.{Shared, expire_locked}
use lockd.Lock.Acquire.{
  AcquireStep, returned, waiting, acquire_locked, acquire_live, acquire_idle, contend, join_queue,
}
use lockd.Lock.Valid.Rounds.{assign_locked-none, assign_locked-some}
use lockd.Lock.Service.{Service, locked, acquire, acquire_refused}

-- The record has the lease of the answer, for the holder.
abbrev pub Given : Text → Lock → AcquireStep → Type 0
Given holder item (returned (ok a)) =
    (item.token ≡ a.token)
    × (item.holder ≡ holder)
    × (a.holder ≡ holder)
    × (item.depth ≡ a.depth)
    × (item.expires_at ≡ a.expires_at)
Given holder item (returned (err e)) = Unit {0}
Given holder item (waiting w) = Unit {0}

-- The same of the record that the service has under a name.
abbrev pub GivenAt : Text → Text → Text → Service × AcquireStep → Type 0
GivenAt holder ns name (s, returned (ok r)) =
    (a : ℕ) × (item : Lock) × (get s.registry ns name ≡ ok a)
    × (get_elem? s.registry.heap a ≡ some item)
    × Given holder item (returned (ok r))
GivenAt holder ns name (s, returned (err e)) = Unit {0}
GivenAt holder ns name (s, waiting w) = Unit {0}

step-GivenAt :
    (holder ns name : Text) (s : Service) (a : ℕ) (item : Lock) (step : AcquireStep)
    → get s.registry ns name ≡ ok a
    → get_elem? s.registry.heap a ≡ some item
    → Given holder item step
    → GivenAt holder ns name (s, step)
step-GivenAt holder ns name s a item (returned (ok r)) found g h = (a, item, found, g, h)
step-GivenAt holder ns name s a item (returned (err e)) found g h = tt
step-GivenAt holder ns name s a item (waiting w) found g h = tt

try_reenter-Given :
    (item : Lock) (holder : Text) (ttl : Duration) (now : Time) {r : AcquireResult}
    → (try_reenter item holder ttl now).1 ≡ some (ok r)
    → Given holder (try_reenter item holder ttl now).0 (returned (ok r))
unfolding try_reenter
try_reenter-Given item holder ttl now e = ground (arith, text_beq_iff item.holder holder)

contend-Given :
    (s : Shared) (item : Lock) (options : AcquireOptions) (now : Time)
    → Given options.holder (contend s item options now).1 (contend s item options now).2
unfolding contend join_queue
contend-Given s item options now =
    elim (Option-cases (try_reenter item options.holder options.ttl now).1) [
      | inr (r, handled) ↦ elim (Result-cases r) [
        | inl (e, refused) ↦ rw (handled ∙ ap some refused, contend) tt
        | inr (result, entered) ↦
            rw (handled ∙ ap some entered, contend)
              (try_reenter-Given item options.holder options.ttl now (handled ∙ ap some entered))
      ]
      | inl other ↦ elim (Bool-cases options.wait) [
        | inl waits ↦ rw (other, waits, contend) tt
        | inr at_once ↦ rw (other, at_once, contend) tt
      ]
    ]

module _ (rand : ℕ → Option (List ℕ)) where
  acquire_idle-Given :
      (s : Shared) (item : Lock) (options : AcquireOptions) (now : Time)
      → let r = acquire_idle rand s item options now in Given options.holder r.1 r.2
  unfolding acquire_idle
  acquire_idle-Given s item options now = elim (Option-cases (new_token (rand s.draws))) [
    | inl e ↦
        let failed = assign_locked-none rand s item options.holder options.ttl now e in
        rw (failed, acquire_idle) tt
    | inr (token, e) ↦
        let drawn = assign_locked-some rand s item options.holder options.ttl now e in
        rw (drawn, acquire_idle) (rw drawn (unfold assign_lease in (refl, refl, refl, refl, refl)))
  ]

  acquire_live-Given :
      (s : Shared) (item : Lock) (options : AcquireOptions) (now : Time)
      → let r = acquire_live rand s item options now in Given options.holder r.1 r.2
  unfolding acquire_live
  acquire_live-Given s item options now =
      elim (Bool-cases (is_empty item.token && (active_length item.waiters item.queue == 0))) [
        | inl free ↦ simp free (acquire_idle-Given s item options now)
        | inr busy ↦ simp busy (contend-Given s item options now)
      ]

  acquire_locked-Given :
      (s : Shared) (item : Lock) (options : AcquireOptions) (now : Time)
      → let r = acquire_locked rand s item options now in Given options.holder r.1 r.2
  unfolding acquire_locked
  acquire_locked-Given s item options now = elim (Bool-cases item.deleted) [
    | inl gone ↦ simp gone tt
    | inr live ↦ elim (Result-cases (normalize_ttl options.ttl item.default_ttl)) [
      | inl (e, refused) ↦ simp (live, refused) tt
      | inr (ttl, taken) ↦
          let r = expire_locked rand s item now in
          simp (live, taken) (acquire_live-Given r.0 r.1 (record options { ttl = ttl }) now)
    ]
  ]

  locked-GivenAt :
      (s : Service) (a : ℕ) (ns name : Text) (options : AcquireOptions) (now : Time)
      → get s.registry ns name ≡ ok a
      → GivenAt options.holder ns name (
          locked s a
            (λ sh item. acquire_locked rand sh item options now)
            (returned (err err_not_found)))
  unfolding get namespace_allowed
  locked-GivenAt s a ns name options now found = elim (Option-cases (get_elem? s.registry.heap a)) [
    | inl missing ↦ rw missing tt
    | inr (item, g) ↦
        let r = acquire_locked rand s.shared item options now in
        rw g (
          step-GivenAt options.holder ns name
            (record s {
              shared = r.0;
              registry = record (s.registry) { heap = set s.registry.heap a r.1 };
            })
            a r.1 r.2 found (get_elem?-set_self s.registry.heap a r.1 g)
            (acquire_locked-Given s.shared item options now))
  ]

  -- After an `Acquire` that gave a lease, the record under the name has it.
  pub acquire-GivenAt :
      (s : Service) (done : Option Error) (ns name : Text) (options : AcquireOptions) (now : Time)
      → GivenAt options.holder ns name (acquire rand s done ns name options now)
  unfolding acquire
  acquire-GivenAt s done ns name options now = elim (Option-cases (acquire_refused done options)) [
    | inr (f, refused) ↦ rw (refused, acquire) tt
    | inl go ↦ elim (Result-cases (get s.registry ns name)) [
      | inl (f, absent) ↦ rw (go, absent, acquire) tt
      | inr (a, found) ↦ rw (go, found, acquire) (locked-GivenAt s a ns name options now found)
    ]
  ]
