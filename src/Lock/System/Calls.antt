-- ===== src/Lock/System/Calls.antt =====
-- The whole calls of internal/lock/service.go and the invariant of the service.
use lockd.Prelude.{ℕ, inl, inr, Option, Option-cases, List, Text, text_eq}
use lockd.Lock.Errors.{Error, Result-cases}
use lockd.Lock.Types.{Time, Duration, AcquireOptions}
use lockd.Lock.Registry.{get}
use lockd.Lock.Service.{
  Service, acquire, acquire_refused, renew, release, steal, steal_refused, delete_lock,
}
use lockd.Lock.System.{Inv, acquires, renews, releases, steals, deletes}
use lockd.Lock.System.Invariant.{Step-Inv, share-Inv}

-- The calls of the service, each a lookup and a critical section.
module _ (rand : ℕ → Option (List ℕ)) (s : Service) (v : Inv s) where
  pub acquire-Inv :
      (ctx_err : Option Error) (ns name : Text) (options : AcquireOptions) (now : Time)
      → Inv (acquire rand s ctx_err ns name options now).0
  unfolding acquire
  acquire-Inv ctx_err ns name options now = elim (Option-cases (acquire_refused ctx_err options)) [
    | inr (e, refused) ↦ rw (refused, acquire) v
    | inl go ↦ elim (Result-cases (get s.registry ns name)) [
      | inl (e, absent) ↦ rw (go, absent, acquire) v
      | inr (a, found) ↦ rw (go, found, acquire) (Step-Inv rand (acquires a options now) v)
    ]
  ]

  pub renew-Inv :
      (ns name token : Text) (ttl : Duration) (now : Time)
      → Inv (renew rand s ns name token ttl now).0
  unfolding renew
  renew-Inv ns name token ttl now = elim (Result-cases (get s.registry ns name)) [
    | inl (e, absent) ↦ rw (absent, renew) (share-Inv _ v)
    | inr (a, found) ↦ rw (found, renew) (Step-Inv rand (renews a token ttl now) v)
  ]

  pub release-Inv : (ns name token : Text) (now : Time) → Inv (release rand s ns name token now).0
  unfolding release
  release-Inv ns name token now = elim (Result-cases (get s.registry ns name)) [
    | inl (e, absent) ↦ rw (absent, release) v
    | inr (a, found) ↦ rw (found, release) (Step-Inv rand (releases a token now) v)
  ]

  pub steal-Inv :
      (ns name force_token holder : Text) (ttl : Duration) (now : Time)
      → Inv (steal rand s ns name force_token holder ttl now).0
  unfolding steal
  steal-Inv ns name force_token holder ttl now =
      elim (Option-cases (steal_refused s.force force_token holder)) [
        | inr (e, refused) ↦ rw (refused, steal) v
        | inl go ↦ elim (Result-cases (get s.registry ns name)) [
          | inl (e, absent) ↦ rw (go, absent, steal) v
          | inr (a, found) ↦ rw (go, found, steal) (Step-Inv rand (steals a holder ttl now) v)
        ]
      ]

  pub delete_lock-Inv :
      (ns name force_token : Text) (now : Time) → Inv (delete_lock rand s ns name force_token now).0
  unfolding delete_lock
  delete_lock-Inv ns name force_token now = elim (Result-cases (get s.registry ns name)) [
    | inl (e, absent) ↦ rw (absent, delete_lock) v
    | inr (a, found) ↦ rw (found, delete_lock) (Step-Inv rand (deletes a force_token now) v)
  ]
