-- ===== src/Lock/Registry.antt =====
-- internal/lock/registry.go, and `record.snapshot` of types.go. A `*record` is an index into
-- `heap`, the records that `create` has allocated; an index with no entry stands for nil.
use lockd.Prelude.{
  contains, ℕ, Bool, true, false, ◌&&◌, ◌||◌, not, Option, some, none, List, [], ◌∷◌, ◌++◌, map,
  Text, text, text_eq, nat_eq, leb, ◌==◌, if◌then◌else◌, ℤ, pos, ◌+ℤ◌, ◌-ℤ◌, ltb_ℤ, leb_ℤ, length,
  get_elem?, lookup, insert, delete,
}
use lockd.Lock.Errors.{
  ErrorCode, Result, ok, err, core, err_not_found, err_already_exists, err_namespace_denied,
  err_quota_exceeded,
}
use lockd.Lock.Types.{
  Time, Duration, Lock, CreateOptions, WaiterView, full_name, lock_name, is_held, token_hint,
}
use lockd.Lock.Lease.{default_ttl, normalize_ttl}
use lockd.Lock.Queue.{views}

-- `default_ttl` is the duration that `String` prints.
pub record View : Type 0 where
  pub full_name : Text
  pub namespace : Text
  pub name : Text
  pub created_at : Time
  pub reentrant : Bool
  pub max_depth : ℤ
  pub default_ttl : Duration
  pub state : Text
  pub holder : Text
  pub depth : ℕ
  pub token_hint : Text
  pub expires_at : Option Time
  pub queue_length : ℕ
  pub queue : List WaiterView
  pub version : ℕ
  pub last_idle_at : Time

unfoldable pub snapshot : Lock → Time → View
snapshot r now = record {
  full_name = lock_name r;
  namespace = r.namespace;
  name = r.name;
  created_at = r.created_at;
  reentrant = r.reentrant;
  max_depth = r.max_depth;
  default_ttl = r.default_ttl;
  state = if is_held r now then text "held" else text "idle";
  holder = r.holder;
  depth = r.depth;
  token_hint = token_hint r.token;
  expires_at = if is_held r now then some r.expires_at else none;
  queue_length = length (views r.waiters r.queue);
  queue = views r.waiters r.queue;
  version = r.version;
  last_idle_at = r.last_idle_at;
}

pub record Registry : Type 0 where
  pub locks : List (Text × ℕ)
  pub allowed : List Text
  pub quota : ℤ
  pub ns_counts : List (Text × ℤ)
  pub default_ttl : Duration
  pub heap : List Lock

-- The characters of `[a-zA-Z0-9_.-]`.
unfoldable pub is_name_char : ℕ → Bool
is_name_char c =
    (leb b'a' c && leb c b'z')
    || (leb b'A' c && leb c b'Z')
    || (leb b'0' c && leb c b'9')
    || c == b'_'
    || c == b'.'
    || c == b'-'

unfoldable pub all_name_chars : Text → Bool
unfolding is_name_char
all_name_chars [] = true
all_name_chars (c ∷ s) = is_name_char c && all_name_chars s

-- `validName.MatchString`.
unfoldable pub valid_name : Text → Bool
valid_name s = all_name_chars s && leb 1 (length s) && leb (length s) 64

-- The set of the allowed namespaces is the list without its repetitions.
unfoldable pub to_set : List Text → List Text
to_set [] = []
to_set (x ∷ xs) = let rest = to_set xs in if contains x rest then rest else x ∷ rest

unfoldable pub new_registry : List Text → ℤ → Duration → Registry
unfolding to_set
new_registry namespaces quota ttl = record {
  locks = [];
  allowed = to_set namespaces;
  quota = if leb_ℤ quota (pos 0) then pos 100_000 else quota;
  ns_counts = [];
  default_ttl = if leb_ℤ ttl (pos 0) then default_ttl else ttl;
  heap = [];
}

unfoldable pub namespace_allowed : Registry → Text → Bool
namespace_allowed r namespace = length r.allowed == 0 || contains namespace r.allowed

-- `m[k]` of a map into the integers.
abbrev pub count_at : Text → List (Text × ℤ) → ℤ
count_at k m = elim (lookup k m) [ none ↦ pos 0 | some n ↦ n ]

abbrev pub new_lock : CreateOptions → ℤ → Duration → Time → Lock
new_lock options max_depth ttl now = record {
  namespace = options.namespace;
  name = options.name;
  created_at = now;
  reentrant = options.reentrant;
  max_depth = max_depth;
  default_ttl = ttl;
  auto_cleanup = options.auto_cleanup;
  holder = [];
  token = [];
  depth = 0;
  expires_at = 0;
  version = 0;
  last_idle_at = now;
  deleted = false;
  queue = [];
  released_token = [];
  waiters = [];
}

-- Lines 81 to 89 of `Create`, for what the map has at the key.
abbrev pub enter_at : Registry → Lock → Time → Option ℕ → Registry × Result View
enter_at r item now (some a) = (r, err err_already_exists)
enter_at r item now none =
    if leb_ℤ r.quota (count_at item.namespace r.ns_counts) then (r, err err_quota_exceeded) else (
      record r {
        heap = r.heap ++ item ∷ [];
        locks = insert (lock_name item) (length r.heap) r.locks;
        ns_counts =
            insert item.namespace (count_at item.namespace r.ns_counts +ℤ pos 1) r.ns_counts;
      },
      ok (snapshot item now),
    )

-- The part of `Create` under `r.mu`.
unfoldable pub enter : Registry → Lock → Time → Registry × Result View
unfolding snapshot
enter r item now = enter_at r item now (lookup (lock_name item) r.locks)

abbrev pub effective_depth : ℤ → ℤ
effective_depth (pos n) = if n == 0 then pos 64 else pos n
effective_depth n = n

unfoldable pub create : Registry → CreateOptions → Time → Registry × Result View
create r options now =
    if not (valid_name options.namespace) || not (valid_name options.name)
    then (
      r,
      err (core ErrorCode.invalid (text "namespace and name must match ^[a-zA-Z0-9_.-]{1,64}$")),
    )
    else if not (namespace_allowed r options.namespace)
    then (r, err err_namespace_denied)
    else elim (normalize_ttl options.default_ttl r.default_ttl) [
      | err e ↦ (r, err e)
      | ok ttl ↦
          let depth = effective_depth options.max_depth in
          if ltb_ℤ depth (pos 1) || ltb_ℤ (pos 1024) depth
          then (r, err (core ErrorCode.invalid (text "max_depth must be between 1 and 1024")))
          else enter r (new_lock options depth ttl now) now
    ]

-- `get`: the address of the record.
unfoldable pub get : Registry → Text → Text → Result ℕ
get r namespace name =
    if not (namespace_allowed r namespace)
    then err err_namespace_denied
    else elim (lookup (full_name namespace name) r.locks) [
      | none ↦ err err_not_found
      | some a ↦ ok a
    ]

-- The part of `Get` under `item.mu`.
abbrev pub view_locked : Option Lock → Time → Result View
view_locked none now = err err_not_found
view_locked (some item) now = if item.deleted then err err_not_found else ok (snapshot item now)

-- `Get`.
unfoldable pub get_view : Registry → Text → Text → Time → Result View
get_view r namespace name now = elim (get r namespace name) [
  | err e ↦ err e
  | ok a ↦ view_locked (get_elem? r.heap a) now
]

-- `r.locks[key] == item` for the record at `a`.
abbrev pub same_address : Option ℕ → ℕ → Bool
same_address none a = false
same_address (some b) a = b == a

-- `remove`, for the record `item` at `a`.
unfoldable pub remove : Registry → ℕ → Lock → Registry × Bool
remove r a item =
    let key = lock_name item in
    if same_address (lookup key r.locks) a
    then (
      record r {
        locks = delete key r.locks;
        ns_counts =
            insert item.namespace (count_at item.namespace r.ns_counts -ℤ pos 1) r.ns_counts;
      },
      true,
    )
    else (r, false)

-- `allRecords`.
unfoldable pub all_records : Registry → List ℕ
all_records r = map (λ e. e.1) r.locks
