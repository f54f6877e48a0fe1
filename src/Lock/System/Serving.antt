-- ===== src/Lock/System/Serving.antt =====
-- Queues and free locks, in the services that can be reached.
use lockd.Prelude.{
  ℕ, ◌≡◌, refl, true, Option, some, List, [], Text, ℤ, get_elem?, All, All-set, All-get_elem?,
  All-append, arith, inl, inr, Bool-cases, Option-cases, ◌∷◌,
}
use lockd.Metrics.{Metrics}
use lockd.Lock.Errors.{Result, ok, err, Result-cases}
use lockd.Lock.Types.{Time, Duration, CreateOptions, Lock}
use lockd.Lock.Notify.{Bus}
use lockd.Lock.Lease.{normalize_ttl}
use lockd.Lock.Registry.{Registry, new_registry, create, new_lock, effective_depth, enter, remove}
use lockd.Lock.Shared.{Shared, expire_locked}
use lockd.Lock.Acquire.{acquire_locked, wait_cancelled}
use lockd.Lock.Calls.{delete_locked, renew_locked, release_locked, steal_locked}
use lockd.Lock.Valid.{IsValid}
use lockd.Lock.Service.{Service, new_service, locked, create_lock, delete_at, finish_delete}
use lockd.Lock.Expirer.{scan, clean_up, is_cleanup_due}
use lockd.Lock.Progress.{
  IsServing, Works, expire_locked-IsServing, acquire_locked-IsServing, renew_locked-IsServing,
  release_locked-IsServing, steal_locked-IsServing, delete_locked-IsServing, wait_done-IsServing,
  wait_cancelled-IsServing,
}
use lockd.Lock.System.{
  Inv, Step, Reach, creates, acquires, receives, abandons, renews, releases, steals, deletes, scans,
  here, next,
}
use lockd.Lock.System.Invariant.{Reach-Inv, new_service-Inv}

abbrev pub AllServing : Service → Type 0
AllServing s = All IsServing s.registry.heap

locked-AllServing {ℓ} :
    {A : Type ℓ} (s : Service) (a : ℕ) (body : Shared → Lock → Shared × Lock × A) (x : A)
    → All IsValid s.registry.heap
    → AllServing s
    → ((item : Lock) → IsValid item → IsServing item → IsServing (body s.shared item).1)
    → AllServing (locked s a body x).0
locked-AllServing s a body x v h keep = elim (Option-cases (get_elem? s.registry.heap a)) [
  | inl e ↦ rw e h
  | inr (item, e) ↦ rw e (
      All-set IsServing s.registry.heap a (body s.shared item).1 h (
        keep item (All-get_elem? IsValid s.registry.heap a v e)
          (All-get_elem? IsServing s.registry.heap a h e)))
]

-- Removal from the map leaves the records alone.
pub remove_heap : (r : Registry) (a : ℕ) (item : Lock) → (remove r a item).0.heap ≡ r.heap
unfolding remove
remove_heap r a item = ground arith

pub finish_delete_heap :
    (a : ℕ) (now : Time) (r : Service × Result (Unit {0}))
    → (finish_delete a now r).0.registry.heap ≡ r.0.registry.heap
finish_delete_heap a now (s, err e) = refl
finish_delete_heap a now (s, ok _) = elim (Option-cases (get_elem? s.registry.heap a)) [
  | inl e ↦ rw e
  | inr (item, e) ↦ rw e (ground (arith, remove_heap s.registry a item))
]

enter-AllServing :
    (r : Registry) (item : Lock) (now : Time)
    → item.queue ≡ []
    → All IsServing r.heap
    → All IsServing (enter r item now).0.heap
unfolding enter
enter-AllServing r item now e h =
    ground (arith, All-append IsServing r.heap (item ∷ []) h ((λ z. e), tt))

create-AllServing :
    (r : Registry) (options : CreateOptions) (now : Time)
    → All IsServing r.heap
    → All IsServing (create r options now).0.heap
unfolding create
create-AllServing r options now h =
    elim (Result-cases (normalize_ttl options.default_ttl r.default_ttl)) [
      | inl (e, refused) ↦ simp refused (ground (arith, h))
      | inr (ttl, taken) ↦
          let item = new_lock options (effective_depth options.max_depth) ttl now in
          simp taken (ground (arith, h, enter-AllServing r item now refl h))
    ]

module _ (rand : ℕ → Option (List ℕ)) (works : Works rand) where
  scan-AllServing :
      (s : Service) (a : ℕ) (item : Lock) (now : Time)
      → AllServing s
      → IsValid item
      → IsServing item
      → AllServing (scan rand s a item now)
  unfolding scan clean_up
  scan-AllServing s a item now h v i =
      let r = expire_locked rand s.shared item now in
      let served = expire_locked-IsServing rand works s.shared item now v i in
      elim (Bool-cases (is_cleanup_due r.1 now)) [
        | inr stays ↦ simp stays (All-set IsServing s.registry.heap a r.1 h served)
        | inl due ↦ simp due (
            rw remove_heap
              (All-set IsServing s.registry.heap a (record (r.1) { deleted = true }) h served))
      ]

  Step-AllServing : {s t : Service} → Step rand s t → Inv s → AllServing s → AllServing t
  unfolding create_lock delete_at
  Step-AllServing {s} (creates options now) v h = create-AllServing s.registry options now h
  Step-AllServing {s} (acquires a options now) v h =
      locked-AllServing s a (λ sh item. acquire_locked rand sh item options now) _ v.valid h
        (λ item i j. acquire_locked-IsServing rand works s.shared item options now i j)
  Step-AllServing {s} (receives a w item item' sh r e d) v h =
      All-set IsServing s.registry.heap a item' h
        (wait_done-IsServing s.shared item w (All-get_elem? IsServing s.registry.heap a h e) d)
  Step-AllServing {s} (abandons a w e) v h =
      locked-AllServing s a (λ sh item. wait_cancelled sh item w e) _ v.valid h
        (λ item i j. wait_cancelled-IsServing s.shared item w e j)
  Step-AllServing {s} (renews a token ttl now) v h =
      locked-AllServing s a (λ sh item. renew_locked rand sh item token ttl now) _ v.valid h
        (λ item i j. renew_locked-IsServing rand works s.shared item token ttl now i j)
  Step-AllServing {s} (releases a token now) v h =
      locked-AllServing s a (λ sh item. release_locked rand sh item token now) _ v.valid h
        (λ item i j. release_locked-IsServing rand works s.shared item token now i j)
  Step-AllServing {s} (steals a holder ttl now) v h =
      locked-AllServing s a (λ sh item. steal_locked rand sh item holder ttl now) _ v.valid h
        (λ item i j. steal_locked-IsServing rand works s.shared item holder ttl now j)
  Step-AllServing {s} (deletes a force_token now) v h = rw finish_delete_heap (
      locked-AllServing s a (λ sh item. delete_locked rand s.force sh item force_token now) _
        v.valid h
        (λ item i j. delete_locked-IsServing rand works s.force s.shared item force_token now i j))
  Step-AllServing {s} (scans a now) v h = elim (Option-cases (get_elem? s.registry.heap a)) [
    | inl e ↦ rw e h
    | inr (item, e) ↦ rw e (
        ground (
          arith,
          h,
          scan-AllServing s a item now h (All-get_elem? IsValid s.registry.heap a v.valid e)
              (All-get_elem? IsServing s.registry.heap a h e),
        ))
  ]

  Reach-AllServing : {s t : Service} → Inv s → AllServing s → Reach rand s t → AllServing t
  Reach-AllServing v h here = h
  Reach-AllServing v h (next r st) =
      Step-AllServing st (Reach-Inv rand v r) (Reach-AllServing v h r)

  -- As long as rand.Read works, in every service that can be reached from a new one, by any
  -- interleaving of critical sections and scans, no record without a lease has anybody in its
  -- queue.
  pub reachable_serving :
      (namespaces : List Text) (quota : ℤ) (ttl : Duration) (bus : Option Bus)
      (metrics : Option Metrics) (force : Text) {t : Service} (a : ℕ) (item : Lock)
      → Reach rand (new_service (new_registry namespaces quota ttl) bus metrics force) t
      → get_elem? t.registry.heap a ≡ some item
      → item.token ≡ []
      → item.queue ≡ []
  unfolding new_service new_registry
  reachable_serving namespaces quota ttl bus metrics force {t} a item r e idle =
      All-get_elem? IsServing t.registry.heap a
        (Reach-AllServing (new_service-Inv namespaces quota ttl bus metrics force) tt r) e idle
