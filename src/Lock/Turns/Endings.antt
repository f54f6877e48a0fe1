-- ===== src/Lock/Turns/Endings.antt =====
-- The sections that take a lock by force or end a wait, as moves: `Steal` and `Delete` of
-- internal/lock/service.go, both branches of the wait of `Acquire`, and the scan of expirer.go.
use lockd.Prelude.{
  ℕ, ◌≡◌, refl, false, ◌&&◌, not, Option, some, List, Text, text_eq, is_empty, nat_eq, ◌==◌,
  get_elem?, arith, Option-cases, Bool-cases, List-cases, inl, inr,
}
use lockd.Lock.Errors.{Error, Result, err_not_found, Result-cases}
use lockd.Lock.Types.{Time, Duration, AcquireResult, Lock, cancel}
use lockd.Lock.Lease.{assign_lease, clear_lease, new_token, normalize_ttl}
use lockd.Lock.Shared.{Shared, emit, expire_locked}
use lockd.Lock.Acquire.{wait_done, wait_cancelled}
use lockd.Lock.Calls.{steal_locked, delete_locked}
use lockd.Lock.Valid.{IsValid}
use lockd.Lock.Valid.Queues.{remove-Queued}
use lockd.Lock.Valid.Rounds.{assign_locked-none, assign_locked-some}
use lockd.Lock.Turns.{
  Cause, expiry, theft, deletion, stays, after, wastes, frees, seizes, leaves, closes,
}
use lockd.Lock.Turns.Flags.{granted_flags-set_same, cancel_all-flags}
use lockd.Lock.Turns.Grants.{Follows, IsOver, Moves-to, expire_locked-Follows}

module _ (rand : ℕ → Option (List ℕ)) (May : Cause → Type 0) where
  pub steal_locked-Follows :
      (s : Shared) (item : Lock) (holder : Text) (ttl : Duration) (now : Time)
      → May theft
      → let r = steal_locked rand s item holder ttl now in Follows rand May s item r.0 r.1
  unfolding steal_locked
  steal_locked-Follows s item holder ttl now may = elim (Bool-cases item.deleted) [
    | inl gone ↦ simp gone stays
    | inr live ↦ elim (Result-cases (normalize_ttl ttl item.default_ttl)) [
      | inl (e, refused) ↦ simp (live, refused) stays
      | inr (t, taken) ↦
          let cleared = clear_lease item now false in
          elim (Option-cases (new_token (rand s.draws))) [
            | inl e ↦
                let failed = assign_locked-none rand s cleared holder t now e in
                simp (live, taken, failed)
                  (unfold clear_lease in after (after stays (frees theft may)) wastes)
            | inr (token, e) ↦
                let drawn_lease = assign_locked-some rand s cleared holder t now e in
                simp (live, taken, drawn_lease)
                  (unfold emit assign_lease clear_lease in after stays (seizes token may e))
          ]
    ]
  ]

  pub delete_locked-Follows :
      (force : Text) (s : Shared) (item : Lock) (force_token : Text) (now : Time)
      → IsValid item
      → (IsOver item now → May expiry)
      → May deletion
      → let r = delete_locked rand force s item force_token now in Follows rand May s item r.0 r.1
  unfolding delete_locked clear_lease
  delete_locked-Follows force s item force_token now v over may =
      let r = expire_locked rand s item now in
      let ended = expire_locked-Follows rand May s item now v over in
      let forced = not (is_empty force) && (force_token == force) in
      elim (Bool-cases (not (is_empty force_token) && not forced)) [
        | inl refused ↦ simp refused stays
        | inr allowed ↦ elim (Bool-cases (not (is_empty r.1.token) && not forced)) [
          | inl held ↦ simp (allowed, held) ended
          | inr free ↦
              simp (allowed, free)
                (Moves-to rand May (after ended (closes may))
                  (ground (arith, cancel_all-flags err_not_found r.1.waiters r.1.queue)))
        ]
      ]

  pub wait_done-Follows :
      (s : Shared) (item : Lock) (a : ℕ) {s' : Shared} {item' : Lock} {r : Result AcquireResult}
      → wait_done s item a ≡ some (s', item', r)
      → Follows rand May s item s' item'
  unfolding wait_done
  wait_done-Follows s item a {s'} {item'} e = elim (Option-cases (get_elem? item.waiters a)) [
    | inl g ↦ absurd (ground arith)
    | inr (w, g) ↦ elim (List-cases w.done) [
      | inl z ↦ absurd (ground arith)
      | inr (outcome, rest, z) ↦
          let same = granted_flags-set_same item.waiters a w (record w { done = rest }) g refl in
          Moves-to rand May stays (ground (arith, same))
    ]
  ]

  pub wait_cancelled-Follows :
      (s : Shared) (item : Lock) (a : ℕ) (e : Error)
      → IsValid item
      → let r = wait_cancelled s item a e in Follows rand May s item r.0 r.1
  unfolding wait_cancelled
  wait_cancelled-Follows s item a e v = elim (Option-cases (get_elem? item.waiters a)) [
    | inl g ↦ simp g stays
    | inr (w, g) ↦ elim (Bool-cases w.granted) [
      | inl granted ↦ simp (g, granted) stays
      | inr waits ↦
          let same = granted_flags-set_same item.waiters a w (cancel w) g (unfold cancel in refl) in
          simp (g, waits)
            (Moves-to rand May
              (after stays (leaves a (remove-Queued item.waiters item.queue a v.queued).1))
              (ground (arith, same)))
    ]
  ]
