-- ===== src/Lock/System/Invariant.antt =====
-- The invariant of the service, at every step and in the services that can be reached.
use lockd.Prelude.{
  ℕ, ◌≡◌, refl, sym, ◌∙◌, true, false, Option, some, List, Text, text, text_eq, nat_eq,
  All-get_elem?, ℤ, get_elem?, lookup, arith, inl, inr, Bool-cases, Option-cases,
  get_elem?-set_self,
}
use lockd.Metrics.{Metrics}
use lockd.Lock.Notify.{Bus}
use lockd.Lock.Types.{Time, Duration, Lock, EventKind}
use lockd.Lock.Registry.{new_registry}
use lockd.Lock.Shared.{Shared, emit, expire_locked}
use lockd.Lock.Acquire.{acquire_locked, wait_cancelled}
use lockd.Lock.Calls.{delete_locked, renew_locked, release_locked, steal_locked}
use lockd.Lock.Valid.{IsValid}
use lockd.Lock.Valid.Queues.{active_length-Queued}
use lockd.Lock.Valid.Grants.{Keeps}
use lockd.Lock.Valid.Sections.{
  acquire_locked-Keeps, renew_locked-Keeps, release_locked-Keeps, steal_locked-Keeps,
  delete_locked_cases, expire_locked-Keeps,
}
use lockd.Lock.Valid.Waits.{wait_done-Keeps, wait_cancelled-Keeps}
use lockd.Lock.Service.{Service, new_service, locked, delete_at, unregister}
use lockd.Lock.Expirer.{scan, clean_up, is_cleanup_due}
use lockd.Lock.System.{
  Inv, live_count, Step, Reach, creates, acquires, receives, abandons, renews, releases, steals,
  deletes, scans, here, next,
}
use lockd.Lock.System.Creates.{create_lock-Inv}
use lockd.Lock.System.Writes.{store, store-Inv, retire-Inv, remove_gone}

-- The shared part of the service plays no role in the invariant.
pub share-Inv : {s : Service} (sh : Shared) → Inv s → Inv (record s { shared = sh })
share-Inv sh v = record {
  valid = v.valid;
  named = v.named;
  registered = v.registered;
  entries = v.entries;
  counted = v.counted;
  bounded = v.bounded;
}

-- A critical section that keeps records valid keeps the invariant.
locked-Inv {ℓ} :
    {A : Type ℓ} (s : Service) (a : ℕ) (body : Shared → Lock → Shared × Lock × A) (x : A)
    → Inv s
    → ((item : Lock) → IsValid item → Keeps item (body s.shared item).1)
    → Inv (locked s a body x).0
locked-Inv s a body x v keep = elim (Option-cases (get_elem? s.registry.heap a)) [
  | inl e ↦ rw e v
  | inr (item, e) ↦ rw e (
      store-Inv s (body s.shared item).0 a item (body s.shared item).1 v e
        (keep item (All-get_elem? IsValid s.registry.heap a v.valid e)))
]

-- A record that is due for cleanup has no lease and no waiter.
cleaned-IsValid :
    (item : Lock) (now : Time)
    → IsValid item
    → is_cleanup_due item now ≡ true
    → IsValid (record item { deleted = true })
unfolding is_cleanup_due
cleaned-IsValid item now v due = record {
  terms = v.terms;
  depths = v.depths;
  lease = v.lease;
  queued = v.queued;
  sound = v.sound;
  gone = λ d. ground (arith, active_length-Queued item.waiters item.queue v.queued);
}

module _ (rand : ℕ → Option (List ℕ)) where
  scan-Inv :
      (s : Service) (a : ℕ) (item : Lock) (now : Time)
      → Inv s
      → get_elem? s.registry.heap a ≡ some item
      → item.deleted ≡ false
      → Inv (scan rand s a item now)
  unfolding scan clean_up
  scan-Inv s a item now v e live =
      let valid = All-get_elem? IsValid s.registry.heap a v.valid e in
      let k = expire_locked-Keeps rand s.shared item now valid in
      let sh = (expire_locked rand s.shared item now).0 in
      let item1 = (expire_locked rand s.shared item now).1 in
      elim (Bool-cases (is_cleanup_due item1 now)) [
        | inr stays ↦ simp stays (store-Inv s sh a item item1 v e k)
        | inl due ↦
            simp due
              (retire-Inv s
                (emit sh (record item1 { deleted = true }) EventKind.purged (text "auto_cleanup")
                  now)
                a item (record item1 { deleted = true }) v e (cleaned-IsValid item1 now k.valid due)
                k.same_namespace k.same_name live refl).1
      ]

  -- After the critical section of `Delete` has marked the record.
  unregister-Inv :
      (s : Service) (sh : Shared) (a : ℕ) (item item' : Lock) (now : Time)
      → Inv s
      → get_elem? s.registry.heap a ≡ some item
      → IsValid item'
      → item'.namespace ≡ item.namespace
      → item'.name ≡ item.name
      → item'.deleted ≡ true
      → Inv (unregister (store s sh a item') a (some item') now).0
  unregister-Inv s sh a item item' now v e valid n m gone = elim (Bool-cases item.deleted) [
    | inr live ↦
        let (removed, v') = retire-Inv s sh a item item' v e valid n m live gone in
        rw (removed, unregister) (share-Inv (emit sh item' EventKind.purged (text "purge") now) v')
    | inl before ↦
        let k : Keeps item item' = record {
          valid = valid;
          same_namespace = n;
          same_name = m;
          same_deleted = gone ∙ sym before;
        } in
        let v' = store-Inv s sh a item item' v e k in
        let absent =
          remove_gone (store s sh a item') a item' v' (get_elem?-set_self s.registry.heap a item' e)
            gone in
        ground (arith, absent, v')
  ]

  delete_found-Inv :
      (s : Service) (a : ℕ) (item : Lock) (force_token : Text) (now : Time)
      → Inv s
      → get_elem? s.registry.heap a ≡ some item
      → Inv (delete_at rand s a force_token now).0
  unfolding delete_at
  delete_found-Inv s a item force_token now v e =
      let r = delete_locked rand s.force s.shared item force_token now in
      elim (delete_locked_cases rand s.force s.shared item force_token now
        (All-get_elem? IsValid s.registry.heap a v.valid e)) [
          | inl (failure, refused, k) ↦ rw e (rw refused (store-Inv s r.0 a item r.1 v e k))
          | inr (done, valid, n, m, gone) ↦ rw e (
              rw (done, get_elem?-set_self s.registry.heap a r.1 e)
                (unregister-Inv s r.0 a item r.1 now v e valid n m gone))
        ]

  delete_at-Inv :
      (s : Service) (a : ℕ) (force_token : Text) (now : Time)
      → Inv s
      → Inv (delete_at rand s a force_token now).0
  unfolding delete_at
  delete_at-Inv s a force_token now v = elim (Option-cases (get_elem? s.registry.heap a)) [
    | inl e ↦ rw e v
    | inr (item, e) ↦ delete_found-Inv s a item force_token now v e
  ]

  pub Step-Inv : {s t : Service} → Step rand s t → Inv s → Inv t
  Step-Inv {s} (creates options now) v = create_lock-Inv s options now v
  Step-Inv {s} (acquires a options now) v =
      locked-Inv s a (λ sh item. acquire_locked rand sh item options now) _ v
        (λ item i. acquire_locked-Keeps rand s.shared item options now i)
  Step-Inv {s} (receives a w item item' sh r e d) v =
      store-Inv s sh a item item' v e
        (wait_done-Keeps s.shared item w (All-get_elem? IsValid s.registry.heap a v.valid e) d)
  Step-Inv {s} (abandons a w e) v =
      locked-Inv s a (λ sh item. wait_cancelled sh item w e) _ v
        (λ item i. wait_cancelled-Keeps s.shared item w e i)
  Step-Inv {s} (renews a token ttl now) v =
      locked-Inv s a (λ sh item. renew_locked rand sh item token ttl now) _ v
        (λ item i. renew_locked-Keeps rand s.shared item token ttl now i)
  Step-Inv {s} (releases a token now) v =
      locked-Inv s a (λ sh item. release_locked rand sh item token now) _ v
        (λ item i. release_locked-Keeps rand s.shared item token now i)
  Step-Inv {s} (steals a holder ttl now) v =
      locked-Inv s a (λ sh item. steal_locked rand sh item holder ttl now) _ v
        (λ item i. steal_locked-Keeps rand s.shared item holder ttl now i)
  Step-Inv {s} (deletes a force_token now) v = delete_at-Inv s a force_token now v
  Step-Inv {s} (scans a now) v = elim (Option-cases (get_elem? s.registry.heap a)) [
    | inl e ↦ rw e v
    | inr (item, e) ↦ elim (Bool-cases item.deleted) [
      | inl gone ↦ rw e (simp gone v)
      | inr live ↦ rw e (simp live (scan-Inv s a item now v e live))
    ]
  ]

  pub Reach-Inv : {s t : Service} → Inv s → Reach rand s t → Inv t
  Reach-Inv v here = v
  Reach-Inv v (next r st) = Step-Inv st (Reach-Inv v r)

-- A new service, from any configuration.
pub new_service-Inv :
    (namespaces : List Text) (quota : ℤ) (ttl : Duration) (bus : Option Bus)
    (metrics : Option Metrics) (force : Text)
    → Inv (new_service (new_registry namespaces quota ttl) bus metrics force)
unfolding new_service new_registry lookup get_elem? live_count
new_service-Inv namespaces quota ttl bus metrics force = record {
  valid = tt;
  named = tt;
  registered = λ a item e live. absurd (cc);
  entries = λ key a e. absurd (cc);
  counted = λ ns. refl;
  bounded = λ ns. omega arith;
}

-- In every service that can be reached from a new one of any configuration, by any interleaving of
-- critical sections and scans, each record is valid (its lease is cleared or has a depth within
-- the limit, its queue holds waiting waiters, each once, and no outcome was sent twice), the map
-- holds exactly the records that are not deleted, under their names, and the counter of each
-- namespace counts them and stays within the quota.
pub reachable-Inv :
    (rand : ℕ → Option (List ℕ)) (namespaces : List Text) (quota : ℤ) (ttl : Duration)
    (bus : Option Bus) (metrics : Option Metrics) (force : Text) {t : Service}
    → Reach rand (new_service (new_registry namespaces quota ttl) bus metrics force) t
    → Inv t
reachable-Inv rand namespaces quota ttl bus metrics force r =
    Reach-Inv rand (new_service-Inv namespaces quota ttl bus metrics force) r
