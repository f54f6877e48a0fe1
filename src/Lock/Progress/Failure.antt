-- ===== src/Lock/Progress/Failure.antt =====
-- What a failure of `rand.Read` does to `Steal` of internal/lock/service.go.
use lockd.Prelude.{ℕ, ◌≡◌, refl, false, Option, none, List, [], Text}
use lockd.Lock.Errors.{ok, err}
use lockd.Lock.Types.{Time, Duration, Lock}
use lockd.Lock.Lease.{clear_lease, new_token, normalize_ttl}
use lockd.Lock.Shared.{Shared, expire_locked}
use lockd.Lock.Calls.{steal_locked}
use lockd.Lock.Valid.Rounds.{assign_locked-none, drawn}
use lockd.Lock.Valid.Grants.{no_token}

module _ (rand : ℕ → Option (List ℕ)) where
  steal_locked_broken :
      (s : Shared) (item : Lock) (holder : Text) (requested : Duration) {ttl : Duration}
      (now : Time)
      → item.deleted ≡ false
      → normalize_ttl requested item.default_ttl ≡ ok ttl
      → new_token (rand s.draws) ≡ none
      → steal_locked rand s item holder requested now
        ≡ (drawn s, clear_lease item now false, err no_token)
  unfolding steal_locked
  steal_locked_broken s item holder requested {ttl} now live taken broken =
      let failed = assign_locked-none rand s (clear_lease item now false) holder ttl now broken in
      simp (live, taken, failed)

  -- If rand.Read fails in a Steal that passed its checks, the call answers with an internal error
  -- and announces nothing, yet the lease is gone, the queue is as it was, and a later expiry check
  -- does nothing.
  pub steal_locked_strands :
      (s : Shared) (item : Lock) (holder : Text) (requested : Duration) {ttl : Duration}
      (now : Time) (t : Shared) (later : Time)
      → item.deleted ≡ false
      → normalize_ttl requested item.default_ttl ≡ ok ttl
      → new_token (rand s.draws) ≡ none
      → let r = steal_locked rand s item holder requested now in
        (r.2 ≡ err no_token)
        × (r.0 ≡ drawn s)
        × (r.1.token ≡ [])
        × (r.1.queue ≡ item.queue)
        × (expire_locked rand t r.1 later ≡ (t, r.1, []))
  unfolding expire_locked clear_lease
  steal_locked_strands s item holder requested now t later live taken broken =
      rw (steal_locked_broken s item holder requested now live taken broken)
        (refl, refl, refl, refl, refl)
