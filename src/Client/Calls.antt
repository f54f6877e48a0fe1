-- ===== src/Client/Calls.antt =====
-- internal/client/client.go and watch.go: the calls of the client.
pub mod Leases
use lockd.Prelude.{
  ℕ, ◌+◌, ◌*◌, Bool, true, false, ◌||◌, Option, some, none, List, [], ◌∷◌, ◌++◌, Text, text,
  text_eq, is_empty, ◌==◌, if◌then◌else◌, ℤ, pos, negsuc, ltb_ℤ, leb_ℤ, length, get_elem?, set,
  insert, delete,
}
use lockd.Lock.Types.{Time, Duration, Event, EventKind}
use lockd.Strings.{trim_slashes, query_escape}
use lockd.Client.Types.{
  Failure, other, Field, string, flag, Lease, ClientOptions, LeaseReply, ReleaseReply, Decoder, Net,
  Client, second, lock_path, lock_key, effective_ttl,
}
use lockd.Client.Requests.{is_zero, do_request}

-- `New`.
unfoldable pub new_client : Text → Client
unfolding trim_slashes
new_client base_url = record {
  base_url = trim_slashes base_url;
  retries = pos 3;
  leases = [];
  heap = [];
  sent = 0;
}

abbrev pub no_target : Decoder (Unit {0})
no_target s target = (target, true)

abbrev pub zero_lease : LeaseReply
zero_lease = record { token = []; holder = []; depth = pos 0; expires_at = 0 }

abbrev zero_event : Event
zero_event = record {
  lock = [];
  namespace = [];
  event = EventKind.released;
  reason = [];
  at = 0;
  seq = 0;
}

-- The optional fields of a request for a lease.
abbrev pub duration_field : Net → Text → Duration → List (Text × Field)
duration_field net name d =
    if ltb_ℤ (pos 0) d then (name, string (net.show_duration d)) ∷ [] else []

unfoldable pub acquire_body : Net → Text → ClientOptions → List (Text × Field)
acquire_body net holder options =
    (text "holder", string holder)
    ∷ (text "request_id", string options.request_id)
    ∷ (text "wait", flag options.wait)
    ∷ (duration_field net (text "ttl") options.ttl
        ++ duration_field net (text "wait_timeout") options.wait_timeout)

-- A new `&Lease{...}`.
unfoldable pub allocate : Client → Lease → Client × ℕ
allocate c lease = (record c { heap = c.heap ++ lease ∷ [] }, length c.heap)

-- What a call gives: the client, the target and the error.
abbrev pub Outcome : Type 0 → Type 0
Outcome A = Client × A × Option Failure

abbrev pub nil_lease : Failure
nil_lease = other (text "lockd: nil lease")

module _ (net : Net) where
  unfoldable pub create : Client → Text → Text → Bool → Duration → Client × Option Failure
  create c namespace name reentrant ttl =
      let body =
        (text "namespace", string namespace)
        ∷ (text "name", string name)
        ∷ (text "reentrant", flag reentrant)
        ∷ (text "ttl", string (net.show_duration ttl))
        ∷ [] in
      let r = do_request net no_target c (text "POST") (text "/api/v1/locks") (some body) [] tt in
      (r.0, r.2)

  unfoldable pub list : Client → Text → Outcome net.Listed
  list c namespace =
      let path =
        if is_empty namespace
        then text "/api/v1/locks"
        else text "/api/v1/locks" ++ (text "?namespace=" ++ query_escape namespace) in
      do_request net net.decode_list c (text "GET") path none [] net.nothing_listed

  -- What `Acquire` does with the response.
  abbrev keep_lease : Text → Text → Text → ClientOptions → Outcome LeaseReply → Outcome (Option ℕ)
  keep_lease namespace name holder options (c, r, some e) = (c, none, some e)
  keep_lease namespace name holder options (c, r, none) =
      let ttl = effective_ttl options.ttl (net.until c.sent r.expires_at) in
      let (c', a) = allocate c (record {
        namespace = namespace;
        name = name;
        holder = holder;
        token = r.token;
        depth = r.depth;
        expires_at = r.expires_at;
        ttl = ttl;
      }) in
      (record c' { leases = insert (lock_key namespace name) a c'.leases }, some a, none)

  unfoldable pub acquire : Client → Text → Text → Text → ClientOptions → Outcome (Option ℕ)
  unfolding acquire_body allocate
  acquire c namespace name holder options = keep_lease namespace name holder options (
      do_request net net.decode_lease c (text "POST") (lock_path namespace name ++ text "/acquire")
        (some (acquire_body net holder options)) [] zero_lease)

  unfoldable pub try_acquire : Client → Text → Text → Text → ClientOptions → Outcome (Option ℕ)
  try_acquire c namespace name holder options =
      acquire c namespace name holder (record options { wait = false })

  abbrev keep_expiry : ℕ → Lease → Outcome Time → Client × Option Failure
  keep_expiry a lease (c, t, some e) = (c, some e)
  keep_expiry a lease (c, t, none) =
      (record c { heap = set c.heap a (record lease { expires_at = t }) }, none)

  abbrev renew_lease : Client → ℕ → Option Lease → Client × Option Failure
  renew_lease c a none = (c, some nil_lease)
  renew_lease c a (some lease) =
      let body =
        (text "token", string lease.token)
        ∷ (text "ttl", string (net.show_duration lease.ttl))
        ∷ [] in
      keep_expiry a lease (
        do_request net net.decode_expiry c (text "POST")
          (lock_path lease.namespace lease.name ++ text "/renew") (some body) [] 0)

  -- `Renew` of the lease at an address.
  unfoldable pub renew : Client → ℕ → Client × Option Failure
  renew c a = renew_lease c a (get_elem? c.heap a)

  abbrev drop_lease : ℕ → Lease → Outcome ReleaseReply → Client × Option Failure
  drop_lease a lease (c, r, some e) = (c, some e)
  drop_lease a lease (c, r, none) =
      let heap = set c.heap a (record lease { depth = r.depth }) in
      (
        record c {
          heap = heap;
          leases =
              if r.released || is_zero r.depth
              then delete (lock_key lease.namespace lease.name) c.leases
              else c.leases;
        },
        none,
      )

  abbrev release_lease : Client → ℕ → Option Lease → Client × Option Failure
  release_lease c a none = (c, some nil_lease)
  release_lease c a (some lease) = drop_lease a lease (
      do_request net net.decode_release c (text "POST")
        (lock_path lease.namespace lease.name ++ text "/release")
        (some ((text "token", string lease.token) ∷ [])) []
        (record { released = false; depth = pos 0 }))

  -- `Release` of the lease at an address.
  unfoldable pub release : Client → ℕ → Client × Option Failure
  release c a = release_lease c a (get_elem? c.heap a)

  abbrev take_stolen : Text → Text → Text → Duration → Outcome LeaseReply → Outcome (Option ℕ)
  take_stolen namespace name holder ttl (c, r, some e) = (c, none, some e)
  take_stolen namespace name holder ttl (c, r, none) =
      let (c', a) = allocate c (record {
        namespace = namespace;
        name = name;
        holder = holder;
        token = r.token;
        depth = r.depth;
        expires_at = r.expires_at;
        ttl = effective_ttl ttl (net.until c.sent r.expires_at);
      }) in
      (c', some a, none)

  unfoldable pub steal : Client → Text → Text → Text → Duration → Text → Outcome (Option ℕ)
  unfolding allocate
  steal c namespace name holder ttl force_token =
      let body =
        (text "holder", string holder)
        ∷ (text "ttl", string (net.show_duration ttl))
        ∷ (text "reason", string (text "client"))
        ∷ [] in
      take_stolen namespace name holder ttl (
        do_request net net.decode_stolen c (text "POST") (lock_path namespace name ++ text "/steal")
          (some body) force_token zero_lease)

  unfoldable pub delete_lock : Client → Text → Text → Text → Client × Option Failure
  delete_lock c namespace name force_token =
      let r =
        do_request net no_target c (text "DELETE") (lock_path namespace name) none force_token tt in
      (r.0, r.2)

  -- `Watch`.
  unfoldable pub watch : Client → Text → Text → Duration → Outcome Event
  watch c namespace name timeout =
      let limit = if leb_ℤ timeout (pos 0) then pos (60 * second) else timeout in
      do_request net net.decode_event c (text "POST") (lock_path namespace name ++ text "/watch")
        (some ((text "timeout", string (net.show_duration limit)) ∷ [])) [] zero_event
