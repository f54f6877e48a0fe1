-- ===== src/Lock/System/Leases.antt =====
-- What a write to the heap, a new record or a scan does to the lease of a record.
use lockd.Prelude.{
  ℕ, ◌≡◌, ◌≢◌, ◌⊎◌, refl, sym, ◌∙◌, ap, subst, true, false, not, Option, some, List, [], ◌∷◌, ◌++◌,
  ◌||◌, pos, leb_ℤ, ltb_ℤ, lookup, text_eq, get_elem?, get_elem?-set_self, get_elem?-set_ne, set,
  All-get_elem?, arith, inl, inr, Bool-cases, Option-cases,
}
use native.Mathlib.Decide.{ℕ_discrete}
use mathlib.Core.Option.{some-injective}
use lockd.Lock.Errors.{Error, Result, Result-cases}
use lockd.Lock.Types.{Time, Lock, lock_name, AcquireResult, CreateOptions}
use lockd.Lock.Lease.{lease_expired, normalize_ttl}
use lockd.Lock.Registry.{
  Registry, create, enter, new_lock, effective_depth, valid_name, namespace_allowed, count_at,
}
use lockd.Lock.Shared.{Shared, expire_locked}
use lockd.Lock.Acquire.{wait_done, wait_cancelled}
use lockd.Lock.Valid.{IsValid}
use lockd.Lock.Exclusion.{SameLease, Runs, expire_locked_running}
use lockd.Lock.Service.{Service, locked}
use lockd.Lock.Expirer.{is_cleanup_due}
use lockd.Lock.System.{Inv}

-- The record has the lease of `item`, and is not deleted.
abbrev pub HasLease : Lock → Lock → Type 0
HasLease item x = SameLease item x × (x.deleted ≡ false)

-- The record at the address has it.
abbrev pub HasLeaseAt : Lock → ℕ → List Lock → Type 0
HasLeaseAt item a heap = (x : Lock) × (get_elem? heap a ≡ some x) × HasLease item x

-- A time at which the lease of `item` is not over.
abbrev pub InTime : Lock → Time → Type 0
InTime item now = lease_expired item.expires_at now ≡ false

pub wait_done-SameLease :
    (s : Shared) (item : Lock) (w : ℕ) {s' : Shared} {item' : Lock} {r : Result AcquireResult}
    → wait_done s item w ≡ some (s', item', r)
    → SameLease item item'
unfolding wait_done
wait_done-SameLease s item w e = ground arith

pub wait_cancelled-SameLease :
    (s : Shared) (item : Lock) (w : ℕ) (e : Error) → SameLease item (wait_cancelled s item w e).1
unfolding wait_cancelled
wait_cancelled-SameLease s item w e = ground arith

pub SameLease-trans : {x y z : Lock} → SameLease x y → SameLease y z → SameLease x z
SameLease-trans h k = record {
  same_token = k.same_token ∙ h.same_token;
  same_holder = k.same_holder ∙ h.same_holder;
  same_depth = k.same_depth ∙ h.same_depth;
  same_expiry = k.same_expiry ∙ h.same_expiry;
}

pub Runs-SameLease :
    {item x : Lock} (now : Time) → item.token ≢ [] → InTime item now → HasLease item x → Runs x now
Runs-SameLease now held t (h, live) = record {
  held = λ e. held (sym h.same_token ∙ e);
  unexpired = ap (λ e. lease_expired e now) h.same_expiry ∙ t;
  live = live;
}

module _ (item : Lock) (a : ℕ) where
  -- A write at `b` that keeps the lease if `b` is the address.
  pub set-HasLeaseAt :
      (heap : List Lock) (b : ℕ) (x y : Lock)
      → get_elem? heap b ≡ some x
      → HasLeaseAt item a heap
      → (b ≢ a) ⊎ (HasLease item x → HasLease item y)
      → HasLeaseAt item a (set heap b y)
  set-HasLeaseAt heap b x y e (z, g, h) keep = elim (ℕ_discrete b a) [
    | no n ↦ (z, get_elem?-set_ne heap b a y n ∙ g, h)
    | yes p ↦ elim keep [
      | inl n ↦ absurd (n p)
      | inr k ↦ (
        y,
        ap (get_elem? (set heap b y)) (sym p) ∙ get_elem?-set_self heap b y e,
        k (subst (HasLease item) (some-injective _ _ (sym g ∙ ap (get_elem? heap) (sym p) ∙ e)) h),
      )
    ]
  ]

  pub locked-HasLeaseAt {ℓ} :
      {A : Type ℓ} (s : Service) (b : ℕ) (body : Shared → Lock → Shared × Lock × A) (r : A)
      → Inv s
      → HasLeaseAt item a s.registry.heap
      → (b ≢ a) ⊎ ((x : Lock) → IsValid x → HasLease item x → HasLease item (body s.shared x).1)
      → HasLeaseAt item a (locked s b body r).0.registry.heap
  locked-HasLeaseAt s b body r v h keep = elim (Option-cases (get_elem? s.registry.heap b)) [
    | inl e ↦ rw e h
    | inr (x, e) ↦ rw e (
        set-HasLeaseAt s.registry.heap b x (body s.shared x).1 e h (elim keep [
          | inl n ↦ inl n
          | inr k ↦ inr (λ l. k x (All-get_elem? IsValid s.registry.heap b v.valid e) l)
        ]))
  ]

-- `Create` adds a record at the end, or none.
enter_heap :
    (r : Registry) (x : Lock) (now : Time)
    → ((enter r x now).0.heap ≡ r.heap) ⊎ ((enter r x now).0.heap ≡ r.heap ++ x ∷ [])
unfolding enter
enter_heap r x now = elim (Option-cases (lookup (lock_name x) r.locks)) [
  | inr (b, e) ↦ rw e (inl refl)
  | inl e ↦ elim (Bool-cases (leb_ℤ r.quota (count_at x.namespace r.ns_counts))) [
    | inl full ↦ rw e (simp full (inl refl))
    | inr room ↦ rw e (simp room (inr refl))
  ]
]

pub create_heap :
    (r : Registry) (options : CreateOptions) (now : Time)
    → ((create r options now).0.heap ≡ r.heap)
      ⊎ ((x : Lock) × ((create r options now).0.heap ≡ r.heap ++ x ∷ []) × (x.token ≡ []))
unfolding create
create_heap r options now =
    elim (Bool-cases (not (valid_name options.namespace) || not (valid_name options.name))) [
      | inl refused ↦ simp refused (inl refl)
      | inr names ↦ elim (Bool-cases (not (namespace_allowed r options.namespace))) [
        | inl denied ↦ simp (names, denied) (inl refl)
        | inr allowed ↦ elim (Result-cases (normalize_ttl options.default_ttl r.default_ttl)) [
          | inl (e, range) ↦ simp (names, allowed, range) (inl refl)
          | inr (ttl, range) ↦
              let depth = effective_depth options.max_depth in
              elim (Bool-cases (ltb_ℤ depth (pos 1) || ltb_ℤ (pos 1024) depth)) [
                | inl deep ↦ simp (names, allowed, range, deep) (inl refl)
                | inr fits ↦
                    let x = new_lock options depth ttl now in
                    simp (names, allowed, range, fits)
                      (elim (enter_heap r x now) [ inl e ↦ inl e | inr e ↦ inr (x, e, refl) ])
              ]
        ]
      ]
    ]

-- A record whose lease runs is not cleaned up.
pub not_due :
    (rand : ℕ → Option (List ℕ)) (item : Lock) (s : Shared) (x : Lock) (now : Time)
    → item.token ≢ []
    → InTime item now
    → HasLease item x
    → is_cleanup_due (expire_locked rand s x now).1 now ≢ true
unfolding is_cleanup_due
not_due rand item s x now held t l due =
    let run = Runs-SameLease now held t l in
    absurd (ground (arith, due, run.held, expire_locked_running rand s x now run))
