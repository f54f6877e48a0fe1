-- ===== src/Lock/Turns/Unique.antt =====
-- The tokens of two locks, over any run.
use lockd.Prelude.{
  ℕ, ◌≤◌, ◌≡◌, ◌≢◌, sym, ◌∙◌, ap, Option, some, List, [], Text, ℤ, get_elem?, get_elem?-set_cases,
  get_elem?-append_cases, arith, inl, inr,
}
use lockd.Metrics.{Metrics}
use lockd.Lock.Types.{Lock, Duration}
use lockd.Lock.Notify.{Bus}
use lockd.Lock.Registry.{new_registry}
use lockd.Lock.Shared.{Shared}
use lockd.Lock.Service.{Service, new_service}
use lockd.Lock.System.{Reach, here, next}
use lockd.Lock.System.Invariant.{Reach-Inv, new_service-Inv}
use lockd.Lock.Turns.{Turn, Moves, Cause}
use lockd.Lock.Turns.Changes.{Change, kept, grown, moved, Step-Changes}
use lockd.Lock.Turns.Fencing.{
  Change-draws, IsRandom, AllIssued, IsIssued, Moves-Origin, one_draw, reachable-AllIssued,
}

-- Two records have no token in common.
abbrev pub AllDiffer : List Lock → Type 0
AllDiffer heap =
    (a b : ℕ) (x y : Lock)
    → a ≢ b
    → get_elem? heap a ≡ some x
    → get_elem? heap b ≡ some y
    → x.token ≢ []
    → x.token ≢ y.token

module _ (rand : ℕ → Option (List ℕ)) (limit : ℕ) (random : IsRandom rand limit) where
  -- The token that a record has after moves is not the one of another record.
  Moves-differ :
      {May : Cause → Type 0} {t u : Turn} {token : Text}
      → Moves rand May t u
      → u.draws ≤ limit
      → IsIssued rand t.draws token
      → (t.token ≢ [] → t.token ≢ token)
      → u.token ≢ []
      → u.token ≢ token
  Moves-differ m most issued other some_token same = elim (Moves-Origin rand m) [
    | inl e ↦ some_token e
    | inr (inl e) ↦ other (λ z. some_token (e ∙ z)) (sym e ∙ same)
    | inr (inr (k, low, high, d)) ↦ elim issued [
      | inl e ↦ some_token (same ∙ e)
      | inr (j, lt, f) ↦
          let one : k ≡ j =
            one_draw rand limit random k j (omega (arith, high, most))
              (omega (arith, lt, low, high, most)) d (f ∙ ap some (sym same)) in
          absurd (omega (arith, one, low, lt))
    ]
  ]

  Change-AllDiffer :
      {May : ℕ → Cause → Type 0} {s s' : Shared} {heap heap' : List Lock}
      → Change rand May s heap s' heap'
      → s'.draws ≤ limit
      → AllIssued rand s.draws heap
      → AllDiffer heap
      → AllDiffer heap'
  Change-AllDiffer (kept d) most issued h a b x y ne g g' some_token same =
      h a b x y ne g g' some_token same
  Change-AllDiffer {May} {s} {s'} {heap} (grown z n d) most issued h a b x y ne g g' some_token
        same =
      elim (get_elem?-append_cases heap z a g) [
        | inl (e, e') ↦ absurd (some_token (ap (λ i. i.token) (sym e') ∙ n))
        | inr old ↦ elim (get_elem?-append_cases heap z b g') [
          | inl (e, e') ↦ some_token (same ∙ ap (λ i. i.token) (sym e') ∙ n)
          | inr old' ↦ h a b x y ne old old' some_token same
        ]
      ]
  Change-AllDiffer {May} {s} {s'} {heap} (moved c z z' f m) most issued h a b x y ne g g' some_token
        same =
      elim (get_elem?-set_cases heap c a z' f g) [
        | inl (e, e') ↦ elim (get_elem?-set_cases heap c b z' f g') [
          | inl (i, i') ↦ ne (sym e ∙ i)
          | inr (i, old) ↦
              Moves-differ m most (issued b y old) (h c b z y i f old)
                (λ t. some_token (ap (λ w. w.token) (sym e') ∙ t)) (ap (λ w. w.token) e' ∙ same)
        ]
        | inr (e, old) ↦ elim (get_elem?-set_cases heap c b z' f g') [
          | inl (i, i') ↦
              Moves-differ m most (issued a x old) (h c a z x e f old)
                (λ t. some_token (same ∙ ap (λ w. w.token) (sym i') ∙ t))
                (ap (λ w. w.token) i' ∙ sym same)
          | inr (i, old') ↦ h a b x y ne old old' some_token same
        ]
      ]

  -- In every service that can be reached from a new one by any interleaving of steps, with draws
  -- that are bytes and all differ, no two records have a token in common.
  pub tokens_unique :
      (namespaces : List Text) (quota : ℤ) (ttl : Duration) (bus : Option Bus)
      (metrics : Option Metrics) (force : Text) {t : Service}
      → Reach rand (new_service (new_registry namespaces quota ttl) bus metrics force) t
      → t.shared.draws ≤ limit
      → AllDiffer t.registry.heap
  unfolding new_service new_registry get_elem?
  tokens_unique namespaces quota ttl bus metrics force here most = λ a b x y ne g. absurd (cc)
  tokens_unique namespaces quota ttl bus metrics force (next r last) most =
      let v = Reach-Inv rand (new_service-Inv namespaces quota ttl bus metrics force) r in
      let c = Step-Changes rand last v in
      let fewer = Change-draws rand c in
      Change-AllDiffer c most (reachable-AllIssued rand namespaces quota ttl bus metrics force r)
        (tokens_unique namespaces quota ttl bus metrics force r (omega (arith, fewer, most)))
