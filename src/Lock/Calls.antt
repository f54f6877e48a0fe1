-- ===== src/Lock/Calls.antt =====
-- internal/lock/service.go: the critical sections of `Renew`, `Release`, `Steal` and `Delete`
-- under the record's mutex.
use lockd.Prelude.{
  contains, ℕ, Bool, true, false, ◌&&◌, ◌||◌, not, Option, some, none, List, [], Text, text,
  text_eq, is_empty, ◌==◌, if◌then◌else◌,
}
use lockd.Metrics.{inc_renew, inc_renew_fail, inc_steal}
use lockd.Lock.Errors.{
  Result, ok, err, err_not_found, err_not_held, err_token_invalid, err_locked,
  err_force_unauthorized,
}
use lockd.Lock.Types.{Time, Duration, EventKind, AcquireResult, ReleaseResult, Lock, next64}
use lockd.Lock.Lease.{normalize_ttl, lease_expiry, clear_lease}
use lockd.Lock.Queue.{cancel_all}
use lockd.Lock.Reentrant.{decrease_depth}
use lockd.Lock.Shared.{Shared, emit, assign_locked, grant_next_locked, expire_locked}

abbrev pub renew_failed : Shared → Shared
renew_failed s = record s { metrics = inc_renew_fail s.metrics }

abbrev pub holder_of : Option Text → Text
holder_of none = []
holder_of (some h) = h

-- `token == "" || token != item.token`.
abbrev pub is_other : Text → Lock → Bool
is_other token item = is_empty token || not (token == item.token)

-- Lines 148 to 160 of `Renew`, after the expiry check.
unfoldable pub renew_live : Shared → Lock → Text → Duration → Time → Shared × Lock × Result Time
unfolding lease_expiry
renew_live s item token requested now =
    if is_other token item
    then (renew_failed s, item, err err_token_invalid)
    else elim (normalize_ttl requested item.default_ttl) [
      | err e ↦ (renew_failed s, item, err e)
      | ok ttl ↦ (
        record s { metrics = inc_renew s.metrics },
        record item { expires_at = lease_expiry now ttl; version = next64 item.version },
        ok (lease_expiry now ttl),
      )
    ]

-- The events of a full release.
unfoldable pub announce_release : Shared → Lock → Option Text → Time → Shared
announce_release s item next now =
    let s' = emit s item EventKind.released (text "release") now in
    elim next [ none ↦ s' | some _ ↦ emit s' item EventKind.held (text "queue") now ]

module _ (rand : ℕ → Option (List ℕ)) where
  -- `Renew`. `||` does not run the expiry check on a lock with no token.
  unfoldable pub renew_locked : Shared → Lock → Text → Duration → Time → Shared × Lock × Result Time
  unfolding renew_live
  renew_locked s item token requested now =
      if item.deleted
      then (renew_failed s, item, err err_not_found)
      else if is_empty item.token
      then (renew_failed s, item, err err_not_held)
      else let (s', item', expired) = expire_locked rand s item now in
        if not (is_empty expired)
        then (renew_failed s', item', err err_not_held)
        else renew_live s' item' token requested now

  -- Lines 200 to 208 of `Release`: the last level is given back.
  unfoldable pub hand_over :
      Shared → Lock → ReleaseResult → Time → Shared × Lock × Result ReleaseResult
  hand_over s item result now =
      let (s', item', next) = grant_next_locked rand s (clear_lease item now true) now in
      (
        announce_release s' item' next now,
        item',
        ok (record result { next_holder = holder_of next }),
      )

  -- Lines 187 to 208 of `Release`, after the expiry check.
  unfoldable pub release_live : Shared → Lock → Text → Time → Shared × Lock × Result ReleaseResult
  unfolding decrease_depth
  release_live s item token now =
      if is_empty item.token
      then (s, item, err err_not_held)
      else if is_other token item
      then (s, item, err err_token_invalid)
      else let (item', result) = decrease_depth item now in
        if not result.released then (s, item', ok result) else hand_over s item' result now

  unfoldable pub release_locked : Shared → Lock → Text → Time → Shared × Lock × Result ReleaseResult
  unfolding release_live
  release_locked s item token now =
      if item.deleted
      then (s, item, err err_not_found)
      else if contains token item.released_token
      then (s, item, ok (record { released = false; depth = 0; next_holder = [] }))
      else let (s', item', expired) = expire_locked rand s item now in
        if not (is_empty expired)
        then (s', item', err (if token == expired then err_not_held else err_token_invalid))
        else release_live s' item' token now

  unfoldable pub steal_locked :
      Shared → Lock → Text → Duration → Time → Shared × Lock × Result AcquireResult
  steal_locked s item holder requested now =
      if item.deleted
      then (s, item, err err_not_found)
      else elim (normalize_ttl requested item.default_ttl) [
        | err e ↦ (s, item, err e)
        | ok ttl ↦
            let (s', item', outcome) =
              assign_locked rand s (clear_lease item now false) holder ttl now in
            elim outcome [
              | err e ↦ (s', item', err e)
              | ok result ↦ (
                emit (record s' { metrics = inc_steal s'.metrics }) item' EventKind.stolen
                    (text "steal") now,
                item',
                ok result,
              )
            ]
      ]

  -- `Delete` up to the removal from the registry, for the service's force token.
  unfoldable pub delete_locked :
      Text → Shared → Lock → Text → Time → Shared × Lock × Result (Unit {0})
  delete_locked service_force s item force_token now =
      let force = not (is_empty service_force) && (force_token == service_force) in
      if not (is_empty force_token) && not force
      then (s, item, err err_force_unauthorized)
      else let (s', item', _) = expire_locked rand s item now in
        if not (is_empty item'.token) && not force then (s', item', err err_locked) else (
          s',
          clear_lease
              (record item' {
                deleted = true;
                waiters = cancel_all err_not_found item'.waiters item'.queue;
                queue = [];
              })
              now false,
          ok tt,
        )
