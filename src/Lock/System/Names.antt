-- ===== src/Lock/System/Names.antt =====
-- What the lookup of internal/lock/registry.go finds. A caller's names are not checked by `get`, so
-- that no caller reaches a record of another namespace rests on the colon in the map's keys.
use lockd.Prelude.{
  ℕ, ◌≡◌, refl, sym, ◌∙◌, ap, true, false, some, [], ◌∷◌, ◌++◌, Text, text, text_eq, nat_eq,
  get_elem?, All-get_elem?, lookup, arith, contains, contains-append, ◌↔◌,
}
use mathlib.Core.Path.{ap₂}
use lockd.Lock.Errors.{ok}
use lockd.Lock.Types.{Lock, full_name}
use lockd.Lock.Registry.{get, valid_name, all_name_chars, namespace_allowed}
use lockd.Lock.Service.{Service}
use lockd.Lock.System.{Inv, IsNamed}

no_colon_chars : (t : Text) → all_name_chars t ≡ true → contains 58 t ≡ false
unfolding all_name_chars contains
no_colon_chars [] h = refl
no_colon_chars (c ∷ t) h = ground (arith, no_colon_chars t)

-- A colon is no character of a name.
no_colon : (s : Text) → valid_name s ≡ true → contains 58 s ≡ false
unfolding valid_name
no_colon s v = no_colon_chars s (ground arith)

-- A text that is two names around a colon is that in one way only.
split_once :
    (a b c d : Text)
    → contains 58 c ≡ false
    → contains 58 d ≡ false
    → a ++ 58 ∷ b ≡ c ++ 58 ∷ d
    → (a ≡ c) × (b ≡ d)
unfolding contains
split_once [] b [] d hc hd e = (refl, ground arith)
split_once [] b (x ∷ c) d hc hd e = absurd (ground arith)
split_once (x ∷ a) b [] d hc hd e =
    let inside : a ++ 58 ∷ b ≡ d = ground arith in
    absurd (ground (arith, contains-append 58 a (58 ∷ b), ap (contains 58) inside))
split_once (x ∷ a) b (y ∷ c) d hc hd e =
    let (p, q) = split_once a b c d (ground arith) hd (ground arith) in (ground arith, q)

full_name_split :
    (ns name ns' name' : Text)
    → valid_name ns' ≡ true
    → valid_name name' ≡ true
    → full_name ns' name' ≡ full_name ns name
    → (ns ≡ ns') × (name ≡ name')
unfolding full_name text
full_name_split ns name ns' name' v v' e =
    split_once ns name ns' name' (no_colon ns' v) (no_colon name' v') (sym e)

-- In a service that satisfies the invariant, get finds a record exactly if it has the very
-- namespace and name that were asked for, is not deleted, and its namespace is allowed.
pub get_exact :
    (s : Service) (namespace name : Text) (a : ℕ)
    → Inv s
    → (get s.registry namespace name ≡ ok a) ↔ (
        (item : Lock) × (get_elem? s.registry.heap a ≡ some item)
        × (item.namespace ≡ namespace)
        × (item.name ≡ name)
        × (item.deleted ≡ false)
        × (namespace_allowed s.registry namespace ≡ true))
unfolding get
get_exact s namespace name a v = (
  λ e.
      let (item, g, n, d) = v.entries (full_name namespace name) a (ground arith) in
      let named = All-get_elem? IsNamed s.registry.heap a v.named g in
      let (p, q) = full_name_split namespace name item.namespace item.name named.0 named.1 n in
      (item, g, sym p, sym q, d, ground arith),
  λ h.
      let found : lookup (full_name namespace name) s.registry.locks ≡ some a =
        ap (λ t. lookup t s.registry.locks) (sym (ap₂ full_name h.2 h.3))
        ∙ v.registered a h.0 h.1 h.4 in
      ground arith,
)
