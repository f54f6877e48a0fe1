-- ===== src/Client/Calls/Leases.antt =====
-- The leases that the client keeps, and the terms that it asks the server for.
use lockd.Prelude.{
  ℕ, ◌≡◌, ◌∙◌, ap, refl, some, none, [], ◌++◌, Text, text, text_eq, text_beq_refl, pos, ◌≤ℤ◌, arith,
  get_elem?, get_elem?-append_new, lookup, lookup-insert, length, if◌then◌else◌,
}
use lockd.Lock.Errors.{ok}
use lockd.Lock.Types.{Duration}
use lockd.Lock.Lease.{normalize_ttl}
use lockd.Client.Types.{
  Lease, LeaseReply, ClientOptions, Net, Client, lock_path, lock_key, effective_ttl,
}
use lockd.Client.Requests.{do_request}
use lockd.Client.Calls.{acquire, acquire_body, allocate, zero_lease}

-- The server accepts the term that the client works out where none was asked for.
effective_ttl_accepted :
    (requested until fallback : Duration)
    → requested ≤ℤ pos 0
    → normalize_ttl (effective_ttl requested until) fallback ≡ ok (effective_ttl requested until)
unfolding normalize_ttl effective_ttl
effective_ttl_accepted requested until fallback h = ground arith

-- A successful Acquire that asks for no term: the client has a lease with the names and the token
-- of the response, it finds this lease under the key of the lock, and the term of the lease, which
-- its renewals ask for, is one that normalizeTTL of the server accepts as it is.
acquire_keeps_lease :
    (net : Net) (c : Client) (namespace name holder : Text) (options : ClientOptions)
    (fallback : Duration) (d : Client) (reply : LeaseReply)
    → options.ttl ≤ℤ pos 0
    → do_request net net.decode_lease c
        (text "POST")
        (lock_path namespace name ++ text "/acquire")
        (some (acquire_body net holder options))
        []
        zero_lease
      ≡ (d, reply, none)
    → let r = acquire net c namespace name holder options in
      (lease : Lease) × (a : ℕ) × (r.1 ≡ some a)
      × (r.2 ≡ none)
      × (get_elem? r.0.heap a ≡ some lease)
      × (lookup (lock_key namespace name) r.0.leases ≡ some a)
      × (lease.namespace ≡ namespace)
      × (lease.name ≡ name)
      × (lease.token ≡ reply.token)
      × (normalize_ttl lease.ttl fallback ≡ ok lease.ttl)
unfolding acquire allocate
acquire_keeps_lease net c namespace name holder options fallback d reply h e =
    let lease : Lease = record {
      namespace = namespace;
      name = name;
      holder = holder;
      token = reply.token;
      depth = reply.depth;
      expires_at = reply.expires_at;
      ttl = effective_ttl options.ttl (net.until d.sent reply.expires_at);
    } in
    let key = lock_key namespace name in
    rw e (
      lease,
      length d.heap,
      refl,
      refl,
      get_elem?-append_new d.heap lease,
      lookup-insert key key (length d.heap) d.leases
          ∙ ap (λ b. if b then some (length d.heap) else lookup key d.leases) (text_beq_refl key),
      refl,
      refl,
      refl,
      effective_ttl_accepted options.ttl (net.until d.sent reply.expires_at) fallback h,
    )
