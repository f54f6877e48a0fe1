-- ===== src/Lock/Turns/Stale.antt =====
-- What a caller can do whose token was replaced. These are the sections of `Renew` and `Release` of
-- internal/lock/service.go for a token that the record does not have.
use lockd.Prelude.{
  ℕ, ◌≡◌, ◌≢◌, ◌⊎◌, refl, sym, ◌∙◌, subst, true, false, not, Option, some, List, [], Text, text_eq,
  text_beq_iff, is_empty, contains, get_elem?, All-get_elem?, arith, inl, inr, Bool-cases, ℤ,
}
use mathlib.Core.Option.{some-injective}
use lockd.Metrics.{Metrics}
use lockd.Lock.Errors.{Result, err, ok, err_token_invalid, Result-cases}
use lockd.Lock.Types.{Time, Duration, Lock, ReleaseResult}
use lockd.Lock.Notify.{Bus}
use lockd.Lock.Registry.{new_registry}
use lockd.Lock.Shared.{Shared, expire_locked}
use lockd.Lock.Calls.{
  renew_locked, renew_live, renew_failed, release_locked, release_live, is_other,
}
use lockd.Lock.Valid.{IsValid}
use lockd.Lock.Service.{Service, new_service}
use lockd.Lock.System.{Reach}
use lockd.Lock.System.Invariant.{Reach-Inv, new_service-Inv}
use lockd.Lock.Turns.Grants.{expire_locked-Follows}
use lockd.Lock.Turns.Steps.{Moves-draws, reach_refines}
use lockd.Lock.Turns.Fencing.{IsRandom, Issued, later_Issued, reachable-AllIssued, replaced}

-- An answer that says that nothing was given back.
abbrev pub ReleasesNothing : Result ReleaseResult → Type 0
ReleasesNothing (ok r) = r.released ≡ false
ReleasesNothing (err e) = Unit {0}

abbrev pub Fails {ℓ} : {A : Type ℓ} → Result A → Type 0
Fails (ok x) = ⊥
Fails (err e) = Unit {0}

is_other_lem : (token : Text) (item : Lock) → item.token ≢ token → is_other token item ≡ true
is_other_lem token item other = ground (arith, text_beq_iff token item.token)

renew_live_other :
    (s : Shared) (item : Lock) (token : Text) (ttl : Duration) (now : Time)
    → item.token ≢ token
    → renew_live s item token ttl now ≡ (renew_failed s, item, err err_token_invalid)
unfolding renew_live
renew_live_other s item token ttl now other = simp (is_other_lem token item other) refl

module _ (rand : ℕ → Option (List ℕ)) where
  release_live_other :
      (s : Shared) (item : Lock) (token : Text) (now : Time)
      → item.token ≢ token
      → let r = release_live rand s item token now in (r.1 ≡ item) × Fails r.2
  unfolding release_live
  release_live_other s item token now other = elim (Bool-cases (is_empty item.token)) [
    | inl idle ↦ simp idle (refl, tt)
    | inr held ↦ simp (held, is_other_lem token item other) (refl, tt)
  ]

  -- The record is as it was, or as the expiry check leaves it.
  abbrev pub OnlyExpires : Shared → Lock → Time → Lock → Type 0
  OnlyExpires s item now item' = (item' ≡ item) ⊎ (item' ≡ (expire_locked rand s item now).1)

  renew_locked_other :
      (s : Shared) (item : Lock) (token : Text) (ttl : Duration) (now : Time)
      → (expire_locked rand s item now).1.token ≢ token
      → let r = renew_locked rand s item token ttl now in OnlyExpires s item now r.1 × Fails r.2
  unfolding renew_locked
  renew_locked_other s item token ttl now other =
      let r = expire_locked rand s item now in
      elim (Bool-cases item.deleted) [
        | inl gone ↦ simp gone (inl refl, tt)
        | inr live ↦ elim (Bool-cases (is_empty item.token)) [
          | inl idle ↦ simp (live, idle) (inl refl, tt)
          | inr held ↦ elim (Bool-cases (not (is_empty r.2))) [
            | inl over ↦ simp (live, held, over) (inr refl, tt)
            | inr kept ↦
                simp (live, held, kept, renew_live_other r.0 r.1 token ttl now other) (inr refl, tt)
          ]
        ]
      ]

  release_locked_other :
      (s : Shared) (item : Lock) (token : Text) (now : Time)
      → (expire_locked rand s item now).1.token ≢ token
      → let r = release_locked rand s item token now in
        OnlyExpires s item now r.1 × ReleasesNothing r.2
  unfolding release_locked
  release_locked_other s item token now other =
      let r = expire_locked rand s item now in
      let (same, fails) = release_live_other r.0 r.1 token now other in
      elim (Bool-cases item.deleted) [
        | inl gone ↦ simp gone (inl refl, tt)
        | inr live ↦ elim (Bool-cases (contains token item.released_token)) [
          | inl again ↦ simp (live, again) (inl refl, refl)
          | inr first ↦ elim (Bool-cases (not (is_empty r.2))) [
            | inl over ↦ simp (live, first, over) (inr refl, tt)
            | inr kept ↦
                simp (live, first, kept)
                  (
                    inr same,
                    elim (Result-cases (release_live rand r.0 r.1 token now).2) [
                      | inl (e, failed) ↦ simp failed tt
                      | inr (x, done) ↦ absurd (subst Fails done fails)
                    ],
                  )
          ]
        ]
      ]

  -- In a run from a new service whose draws are bytes and all differ, a token that a lock had and
  -- then has no longer never comes back to it: from then on Renew with that token fails, Release
  -- with it gives nothing back, and both leave the record as it was or as the expiry check leaves
  -- it.
  pub stale_token_refused :
      (namespaces : List Text) (quota : ℤ) (default : Duration) (bus : Option Bus)
      (metrics : Option Metrics) (force : Text) {s t u : Service} (a : ℕ) (x y z : Lock)
      (ttl : Duration) (now : Time)
      → IsRandom rand (expire_locked rand u.shared z now).0.draws
      → Reach rand (new_service (new_registry namespaces quota default) bus metrics force) s
      → Reach rand s t
      → Reach rand t u
      → get_elem? s.registry.heap a ≡ some x
      → get_elem? t.registry.heap a ≡ some y
      → get_elem? u.registry.heap a ≡ some z
      → x.token ≢ []
      → y.token ≢ x.token
      → let renewed = renew_locked rand u.shared z x.token ttl now in
        let released = release_locked rand u.shared z x.token now in
        (z.token ≢ x.token)
        × OnlyExpires u.shared z now renewed.1
        × Fails renewed.2
        × OnlyExpires u.shared z now released.1
        × ReleasesNothing released.2
  stale_token_refused ns quota default bus metrics force {s} {t} {u} a x y z ttl now random r p q gx
        gy gz some_token gone =
      let vs = Reach-Inv rand (new_service-Inv ns quota default bus metrics force) r in
      let vt = Reach-Inv rand vs p in
      let vu = Reach-Inv rand vt q in
      let (y', gy', m) = reach_refines rand a x vs p gx in
      let (z', gz', n) = reach_refines rand a y vt q gy in
      let drawn : Issued rand x.token s.shared.draws =
        elim (reachable-AllIssued rand ns quota default bus metrics force r a x gx) [
          | inl e ↦ absurd (some_token e)
          | inr d ↦ d
        ] in
      let drawn' = later_Issued rand (Moves-draws rand _ m) drawn in
      let limit = (expire_locked rand u.shared z now).0.draws in
      let expiry =
        expire_locked-Follows rand (λ c. Unit {0}) u.shared z now
          (All-get_elem? IsValid u.registry.heap a vu.valid gz) (λ o. tt) in
      let last = Moves-draws rand _ expiry in
      let other : z.token ≢ x.token =
        subst (λ i. i.token ≢ x.token) (some-injective _ _ (sym gz' ∙ gz))
          (replaced rand limit random n last some_token drawn' gone) in
      let other' =
        replaced rand limit random expiry (omega arith) some_token
          (later_Issued rand (Moves-draws rand _ n) drawn') other in
      let (kept, fails) = renew_locked_other u.shared z x.token ttl now other' in
      let (kept', nothing) = release_locked_other u.shared z x.token now other' in
      (other, kept, fails, kept', nothing)
