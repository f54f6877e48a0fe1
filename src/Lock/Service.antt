-- ===== src/Lock/Service.antt =====
-- internal/lock/service.go: whole calls. A call looks the record up in the registry, locks it and
-- runs its critical section; `now` is the clock read between the two.
--
-- A critical section is given the address of the record, so that the two halves of a call can be
-- separated by other calls: see Lock/System.antt.
use lockd.Prelude.{
  ℕ, ◌||◌, not, Option, some, none, List, Text, text, text_eq, is_empty, ltb, ◌==◌, if◌then◌else◌,
  length, get_elem?, set,
}
use lockd.Metrics.{Metrics}
use lockd.Lock.Errors.{
  ErrorCode, Error, Result, ok, err, core, err_not_found, err_invalid, err_force_unauthorized,
}
use lockd.Lock.Types.{
  Time, Duration, EventKind, CreateOptions, AcquireOptions, AcquireResult, ReleaseResult, Lock,
}
use lockd.Lock.Notify.{Bus, new_bus}
use lockd.Lock.Registry.{Registry, View, create, get, remove}
use lockd.Lock.Shared.{Shared, emit}
use lockd.Lock.Acquire.{AcquireStep, returned, acquire_locked}
use lockd.Lock.Calls.{renew_failed, renew_locked, release_locked, steal_locked, delete_locked}

pub record Service : Type 0 where
  pub registry : Registry
  pub shared : Shared
  pub force : Text

-- `NewService`; a nil bus or metric set is replaced by a new one.
unfoldable pub new_service : Registry → Option Bus → Option Metrics → Text → Service
new_service registry bus metrics force = record {
  registry = registry;
  shared = record {
    bus = elim bus [ none ↦ new_bus | some b ↦ b ];
    metrics = elim metrics [ none ↦ zero_metrics | some m ↦ m ];
    seq = 0;
    event_seq = 0;
    draws = 0;
  };
  force = force;
}
  where
    zero_metrics : Metrics
    zero_metrics = record {
      acquire = 0;
      acquire_locked = 0;
      renew = 0;
      renew_fail = 0;
      expiry = 0;
      steal = 0;
      notify = 0;
    }

-- A critical section under `item.mu`, for the record at an address.
abbrev pub locked_at {ℓ} :
    {A : Type ℓ} → Service → ℕ → (Shared → Lock → Shared × Lock × A) → A → Option Lock → Service × A
locked_at s a body nil_pointer none = (s, nil_pointer)
locked_at s a body nil_pointer (some item) =
    let (shared, item', x) = body s.shared item in
    (
      record s {
        shared = shared;
        registry = record (s.registry) { heap = set s.registry.heap a item' };
      },
      x,
    )

abbrev pub locked {ℓ} :
    {A : Type ℓ} → Service → ℕ → (Shared → Lock → Shared × Lock × A) → A → Service × A
locked s a body nil_pointer = locked_at s a body nil_pointer (get_elem? s.registry.heap a)

-- `Create`.
unfoldable pub create_lock : Service → CreateOptions → Time → Service × Result View
create_lock s options now =
    let (registry, view) = create s.registry options now in (record s { registry = registry }, view)

-- The checks of `Acquire` that stand before the lookup; `done` is `ctx.Err()`.
unfoldable pub acquire_refused : Option Error → AcquireOptions → Option Error
acquire_refused done options =
    if is_empty options.holder || ltb 64 (length options.holder)
    then some (core ErrorCode.invalid (text "holder length must be 1 to 64"))
    else if ltb 64 (length options.request_id)
    then some (core ErrorCode.invalid (text "request_id is too long"))
    else done

-- The checks of `Steal` that stand before the lookup.
unfoldable pub steal_refused : Text → Text → Text → Option Error
steal_refused force force_token holder =
    if is_empty force || not (force_token == force)
    then some err_force_unauthorized
    else if is_empty holder || ltb 64 (length holder)
    then some err_invalid
    else none

-- The removal from the registry at the end of `Delete`, for the record as it is now.
abbrev pub unregister : Service → ℕ → Option Lock → Time → Service × Result (Unit {0})
unregister s a none now = (s, err err_not_found)
unregister s a (some item) now =
    let (registry, removed) = remove s.registry a item in
    if removed
    then (
      record s {
        registry = registry;
        shared = emit s.shared item EventKind.purged (text "purge") now;
      },
      ok tt,
    )
    else (record s { registry = registry }, err err_not_found)

abbrev pub finish_delete : ℕ → Time → Service × Result (Unit {0}) → Service × Result (Unit {0})
finish_delete a now (s, err e) = (s, err e)
finish_delete a now (s, ok _) = unregister s a (get_elem? s.registry.heap a) now

module _ (rand : ℕ → Option (List ℕ)) where
  unfoldable pub acquire :
      Service → Option Error → Text → Text → AcquireOptions → Time → Service × AcquireStep
  unfolding acquire_refused
  acquire s done namespace name options now = elim (acquire_refused done options) [
    | some e ↦ (s, returned (err e))
    | none ↦ elim (get s.registry namespace name) [
      | err e ↦ (s, returned (err e))
      | ok a ↦
          locked s a (λ sh item. acquire_locked rand sh item options now)
            (returned (err err_not_found))
    ]
  ]

  unfoldable pub renew : Service → Text → Text → Text → Duration → Time → Service × Result Time
  renew s namespace name token ttl now = elim (get s.registry namespace name) [
    | err e ↦ (record s { shared = renew_failed s.shared }, err e)
    | ok a ↦ locked s a (λ sh item. renew_locked rand sh item token ttl now) (err err_not_found)
  ]

  unfoldable pub release : Service → Text → Text → Text → Time → Service × Result ReleaseResult
  release s namespace name token now = elim (get s.registry namespace name) [
    | err e ↦ (s, err e)
    | ok a ↦ locked s a (λ sh item. release_locked rand sh item token now) (err err_not_found)
  ]

  unfoldable pub steal :
      Service → Text → Text → Text → Text → Duration → Time → Service × Result AcquireResult
  unfolding steal_refused
  steal s namespace name force_token holder ttl now =
      elim (steal_refused s.force force_token holder) [
        | some e ↦ (s, err e)
        | none ↦ elim (get s.registry namespace name) [
          | err e ↦ (s, err e)
          | ok a ↦
              locked s a (λ sh item. steal_locked rand sh item holder ttl now) (err err_not_found)
        ]
      ]

  -- The critical section of `Delete`, with the removal and the event.
  unfoldable pub delete_at : Service → ℕ → Text → Time → Service × Result (Unit {0})
  delete_at s a force_token now = finish_delete a now (
      locked s a (λ sh item. delete_locked rand s.force sh item force_token now)
        (err err_not_found))

  unfoldable pub delete_lock : Service → Text → Text → Text → Time → Service × Result (Unit {0})
  unfolding delete_at
  delete_lock s namespace name force_token now = elim (get s.registry namespace name) [
    | err e ↦ (s, err e)
    | ok a ↦ delete_at s a force_token now
  ]
