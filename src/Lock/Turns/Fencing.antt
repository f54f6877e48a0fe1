-- ===== src/Lock/Turns/Fencing.antt =====
-- Tokens over any run: where they come from, and what one that was replaced can still do.
use lockd.Prelude.{
  ℕ, ◌<◌, ◌≤◌, ◌≡◌, ◌≢◌, ◌⊎◌, refl, sym, ◌∙◌, ap, subst, Option, some, List, [], Text, text_eq,
  get_elem?, get_elem?-set_cases, get_elem?-append_cases, arith, inl, inr, ℤ,
}
use lockd.Metrics.{Metrics}
use lockd.Lock.Types.{Duration, Lock}
use lockd.Lock.Lease.{new_token}
use lockd.Lock.Lease.Tokens.{Bytes, new_token-injective}
use lockd.Lock.Notify.{Bus}
use lockd.Lock.Registry.{new_registry}
use lockd.Lock.Shared.{Shared}
use lockd.Lock.Service.{Service, new_service}
use lockd.Lock.System.{Inv, Reach, here, next}
use lockd.Lock.System.Invariant.{Reach-Inv, new_service-Inv}
use lockd.Lock.Turns.{
  Turn, Move, Moves, stays, after, wastes, frees, takes, serves, seizes, joins, leaves, closes,
  Cause,
}
use lockd.Lock.Turns.Changes.{Change, kept, grown, moved, Step-Changes}
use lockd.Lock.Turns.Steps.{Move-draws, Moves-draws}

-- What the tokens rest on: the first draws, as many as a run makes, fill the buffer with bytes if
-- they do not fail, and never with the same ones.
pub record IsRandom (rand : ℕ → Option (List ℕ)) (limit : ℕ) : Type 0 where
  pub bytes : (n : ℕ) {buffer : List ℕ} → n < limit → rand n ≡ some buffer → Bytes buffer
  pub differs :
      (m n : ℕ) {buffer : List ℕ}
      → m < limit
      → n < limit
      → rand m ≡ some buffer
      → rand n ≡ some buffer
      → m ≡ n

module _ (rand : ℕ → Option (List ℕ)) where
  -- A token of one of the draws so far.
  abbrev pub Issued : Text → ℕ → Type 0
  Issued token n = (m : ℕ) × (m < n) × (new_token (rand m) ≡ some token)

  -- A token of one of the draws between.
  abbrev pub DrawnIn : Text → ℕ → ℕ → Type 0
  DrawnIn token low high = (m : ℕ) × (low ≤ m) × (m < high) × (new_token (rand m) ≡ some token)

  -- Whence the token of a lock is after moves.
  abbrev pub Origin : Turn → Turn → Type 0
  Origin t u = (u.token ≡ []) ⊎ ((u.token ≡ t.token) ⊎ DrawnIn u.token t.draws u.draws)

  Move-Origin : {May : Cause → Type 0} {t u : Turn} → Move rand May t u → Origin t u
  Move-Origin wastes = inr (inl refl)
  Move-Origin (frees c m) = inl refl
  Move-Origin {May} {t} (takes token idle alone e) =
      inr (inr (t.draws, omega arith, omega arith, e))
  Move-Origin {May} {t} (serves token a rest idle e n d) =
      inr (inr (t.draws, omega arith, omega arith, d))
  Move-Origin {May} {t} (seizes token m e) = inr (inr (t.draws, omega arith, omega arith, e))
  Move-Origin joins = inr (inl refl)
  Move-Origin (leaves a n) = inr (inl refl)
  Move-Origin (closes m) = inl refl

  pub Moves-Origin : {May : Cause → Type 0} {t u : Turn} → Moves rand May t u → Origin t u
  Moves-Origin stays = inr (inl refl)
  Moves-Origin (after m last) = elim (Move-Origin last) [
    | inl e ↦ inl e
    | inr (inr (k, low, high, e)) ↦ inr (inr (k, omega (arith, low, Moves-draws rand _ m), high, e))
    | inr (inl e) ↦ elim (Moves-Origin m) [
      | inl e' ↦ inl (e ∙ e')
      | inr (inl e') ↦ inr (inl (e ∙ e'))
      | inr (inr (k, low, high, d)) ↦
          inr (inr (k, low, omega (arith, high, Move-draws rand _ last), d ∙ ap some (sym e)))
    ]
  ]

  -- No token, or one that was drawn.
  abbrev pub IsIssued : ℕ → Text → Type 0
  IsIssued n token = (token ≡ []) ⊎ Issued token n

  pub later_Issued : {m n : ℕ} {token : Text} → m ≤ n → Issued token m → Issued token n
  later_Issued le (k, lt, e) = (k, omega (arith, lt, le), e)

  later-IsIssued : {m n : ℕ} {token : Text} → m ≤ n → IsIssued m token → IsIssued n token
  later-IsIssued le (inl e) = inl e
  later-IsIssued le (inr d) = inr (later_Issued le d)

  Moves-IsIssued :
      {May : Cause → Type 0} {t u : Turn}
      → Moves rand May t u
      → IsIssued t.draws t.token
      → IsIssued u.draws u.token
  Moves-IsIssued {May} {t} {u} m h = elim (Moves-Origin m) [
    | inl e ↦ inl e
    | inr (inl e) ↦ later-IsIssued (Moves-draws rand _ m) (subst (IsIssued t.draws) (sym e) h)
    | inr (inr (k, low, high, e)) ↦ inr (k, high, e)
  ]

  abbrev pub AllIssued : ℕ → List Lock → Type 0
  AllIssued n heap = (a : ℕ) (item : Lock) → get_elem? heap a ≡ some item → IsIssued n item.token

  pub Change-draws :
      {May : ℕ → Cause → Type 0} {s s' : Shared} {heap heap' : List Lock}
      → Change rand May s heap s' heap'
      → s.draws ≤ s'.draws
  Change-draws (kept d) = omega (arith, d)
  Change-draws (grown x n d) = omega (arith, d)
  Change-draws (moved b x y f m) = Moves-draws rand _ m

  Change-AllIssued :
      {May : ℕ → Cause → Type 0} {s s' : Shared} {heap heap' : List Lock}
      → Change rand May s heap s' heap'
      → AllIssued s.draws heap
      → AllIssued s'.draws heap'
  Change-AllIssued (kept d) h a item g = later-IsIssued (omega (arith, d)) (h a item g)
  Change-AllIssued {May} {s} {s'} {heap} (grown x n d) h a item g =
      elim (get_elem?-append_cases heap x a g) [
        | inl (e, e') ↦ inl (ap (λ i. i.token) (sym e') ∙ n)
        | inr g' ↦ later-IsIssued (omega (arith, d)) (h a item g')
      ]
  Change-AllIssued {May} {s} {s'} {heap} (moved b x y f m) h a item g =
      elim (get_elem?-set_cases heap b a y f g) [
        | inl (e, e') ↦ subst (λ i. IsIssued s'.draws i.token) e' (Moves-IsIssued m (h b x f))
        | inr (n, g') ↦ later-IsIssued (Moves-draws rand _ m) (h a item g')
      ]

  Reach-AllIssued :
      {s t : Service}
      → Inv s
      → AllIssued s.shared.draws s.registry.heap
      → Reach rand s t
      → AllIssued t.shared.draws t.registry.heap
  Reach-AllIssued v h here = h
  Reach-AllIssued v h (next r last) =
      Change-AllIssued (Step-Changes rand last (Reach-Inv rand v r)) (Reach-AllIssued v h r)

  pub reachable-AllIssued :
      (namespaces : List Text) (quota : ℤ) (ttl : Duration) (bus : Option Bus)
      (metrics : Option Metrics) (force : Text) {t : Service}
      → Reach rand (new_service (new_registry namespaces quota ttl) bus metrics force) t
      → AllIssued t.shared.draws t.registry.heap
  unfolding new_service new_registry get_elem?
  reachable-AllIssued namespaces quota ttl bus metrics force r =
      Reach-AllIssued (new_service-Inv namespaces quota ttl bus metrics force)
        (λ a item e. absurd (cc)) r

  module _ (limit : ℕ) (random : IsRandom rand limit) where
    -- A token belongs to one draw.
    pub one_draw :
        (m n : ℕ) {token : Text}
        → m < limit
        → n < limit
        → new_token (rand m) ≡ some token
        → new_token (rand n) ≡ some token
        → m ≡ n
    one_draw m n lm ln e f =
        let (b, p, q) =
          new_token-injective (rand m) (rand n) (λ b. random.bytes m lm) (λ b. random.bytes n ln) e
            f in
        random.differs m n lm ln p q

    -- A token that was drawn and is not there does not come back.
    pub replaced :
        {May : Cause → Type 0} {t u : Turn} {token : Text}
        → Moves rand May t u
        → u.draws ≤ limit
        → token ≢ []
        → Issued token t.draws
        → t.token ≢ token
        → u.token ≢ token
    replaced {May} {t} {u} m most some_token (k, lt, e) gone back = elim (Moves-Origin m) [
      | inl e' ↦ some_token (sym back ∙ e')
      | inr (inl e') ↦ gone (sym e' ∙ back)
      | inr (inr (j, low, high, d)) ↦
          let lk : k < limit = omega (arith, lt, low, high, most) in
          let lj : j < limit = omega (arith, high, most) in
          let same : k ≡ j = one_draw k j lk lj e (d ∙ ap some back) in
          absurd (omega (arith, same, lt, low))
    ]
