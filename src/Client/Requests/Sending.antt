-- ===== src/Client/Requests/Sending.antt =====
-- How often `do` of internal/client/client.go sends a request, and which answer it takes.
use lockd.Prelude.{
  ℕ, suc, ◌+◌, ◌≤◌, ◌<◌, ◌≡◌, refl, sym, true, false, Option, some, none, List, Text, text, arith,
  Bool-cases, inl, inr, pos, ◌⊎◌, ◌++◌, ap, ◌∙◌,
}
use mathlib.Core.List.{append_assoc}
use lockd.Strings.{has_suffix, path_escape}
use lockd.Strings.Paths.{has_suffix-append}
use lockd.Client.Types.{other, Field, Decoder, Net, Client, lock_path}
use lockd.Client.Requests.{pause, attempts, is_repeated, do_request, build_request, delay}
use lockd.Client.Requests.Attempts.{
  is_final, is_lost, exchange, repeat_bounds, repeat_once, repeat_survives, repeat_lost,
  repeat_sends,
}

watch_suffix :
    (namespace : Text) → has_suffix (lock_path namespace (text "watch")) (text "/watch") ≡ true
unfolding lock_path path_escape text
watch_suffix namespace =
    ap (λ p. has_suffix p (text "/watch"))
      (sym (append_assoc (text "/api/v1/locks/") (path_escape namespace) (text "/watch")))
    ∙ has_suffix-append (text "/api/v1/locks/" ++ path_escape namespace) (text "/watch")

delete_is_repeated :
    (namespace : Text) → is_repeated (text "DELETE") (lock_path namespace (text "watch")) ≡ true
unfolding is_repeated
delete_is_repeated namespace = ground (arith, watch_suffix namespace)

module _ {ℓ} {A : Type ℓ} (net : Net) (decode : Decoder A) where
  -- From a client whose retries are not negative, a request that do does not repeat is sent
  -- exactly once, whatever happens to it; one that it repeats is sent at most once more than the
  -- retries say.
  pub sends_bounded :
      (c : Client) (n : ℕ) (method path : Text) (body : Option (List (Text × Field)))
      (force_token : Text) (target : A)
      → c.retries ≡ pos n
      → let sent = (do_request net decode c method path body force_token target).0.sent in
        ((is_repeated method path ≡ false) × (sent ≡ suc c.sent))
        ⊎ ((is_repeated method path ≡ true) × (c.sent ≤ sent) × (sent ≤ c.sent + suc n))
  unfolding do_request attempts
  sends_bounded c n method path body force_token target e =
      let request = build_request c.base_url method path body force_token in
      elim (Bool-cases (is_repeated method path)) [
        | inr once ↦
            inl (once, rw once (repeat_once net decode method path request c.sent target none))
        | inl again ↦ inr (
          again,
          rw (again, e)
              (repeat_bounds net decode method path request (suc n) 0 c.sent target none).0,
          rw (again, e)
              (repeat_bounds net decode method path request (suc n) 0 c.sent target none).1,
        )
      ]

  -- A request that is repeated survives a network that is down for its first exchanges, as many as
  -- retries allow, if the context lasts through the waits: when the next exchange brings a success
  -- or an error that the server reports, that is the outcome, and nothing more is sent.
  pub request_survives :
      (c : Client) (n k : ℕ) (method path : Text) (body : Option (List (Text × Field)))
      (force_token : Text) (target : A)
      → c.retries ≡ pos n
      → is_repeated method path ≡ true
      → k ≤ n
      → ((i : ℕ)
          → i < k
          → is_lost (net.reply (c.sent + i) (build_request c.base_url method path body force_token))
            ≡ true)
      → ((i : ℕ) → i < suc k → pause net (c.sent + i) i ≡ none)
      → is_final
          (exchange net decode method path
            (build_request c.base_url method path body force_token)
            (c.sent + k)
            target).1
        ≡ true
      → let r =
          exchange net decode method path
            (build_request c.base_url method path body force_token)
            (c.sent + k)
            target in
        do_request net decode c method path body force_token target
        ≡ (record c { sent = suc (c.sent + k) }, r.0, r.1)
  unfolding do_request attempts
  request_survives c n k method path body force_token target e again h gone fires final =
      let request = build_request c.base_url method path body force_token in
      let r =
        repeat_survives net decode method path request k (suc n) 0 c.sent target none (omega arith)
          gone (λ i lt. ap (pause net (c.sent + i)) (omega arith) ∙ fires i lt) final in
      simp (again, e, r)

  -- A client with a positive number of retries repeats the deletion of a lock with the name watch,
  -- of any namespace: after a first exchange with no response, of which the client cannot know
  -- whether the server has carried it out, it waits, if the context lasts, and sends the request
  -- again.
  pub delete_replays :
      (c : Client) (n : ℕ) (namespace force_token : Text) (target : A)
      → c.retries ≡ pos (suc n)
      → is_lost (
          net.reply c.sent (
            build_request c.base_url
              (text "DELETE")
              (lock_path namespace (text "watch"))
              none
              force_token))
        ≡ true
      → net.wake (suc c.sent) (delay 1) ≡ none
      → suc (suc c.sent)
        ≤ (do_request net decode c
            (text "DELETE")
            (lock_path namespace (text "watch"))
            none
            force_token
            target).0.sent
  unfolding do_request attempts
  delete_replays c n namespace force_token target e gone fires =
      let path = lock_path namespace (text "watch") in
      let request = build_request c.base_url (text "DELETE") path none force_token in
      let again = delete_is_repeated namespace in
      let (m, step) =
        repeat_lost net decode (text "DELETE") path request (suc n) 0 c.sent target none refl
          gone in
      rw (again, e)
        (rw step (
          repeat_sends net decode (text "DELETE") path request n 1 (suc c.sent) target
            (some (other m)) fires))
