-- ===== src/Client/Requests/Attempts.antt =====
-- The rounds of the loop of `do`, internal/client/client.go.
use lockd.Prelude.{
  ℕ, zero, suc, ◌+◌, ◌≤◌, ◌<◌, ◌≡◌, refl, sym, Bool, true, false, Option, some, none, Text, arith,
  Option-cases, Bool-cases, inl, inr, ◌⊎◌, ap, ◌∙◌,
}
use mathlib.Core.Path.{ap₂}
use lockd.Lock.Errors.{Error}
use lockd.Client.Types.{
  Failure, api, ended, http_status, other, HttpRequest, Reply, lost, response, Decoder, Net,
}
use lockd.Client.Requests.{read_reply, repeat, pause}

-- The end of an exchange that ends the loop: no error, or one that the server reported.
abbrev pub is_final : Option Failure → Bool
is_final none = true
is_final (some (api code msg)) = true
is_final (some (ended e)) = false
is_final (some (http_status status)) = false
is_final (some (other e)) = false

abbrev pub is_lost : Reply → Bool
is_lost (lost e) = true
is_lost _ = false

Reply-cases : (r : Reply) → ((e : Text) × (r ≡ lost e)) ⊎ (is_lost r ≡ false)
Reply-cases (lost e) = inl (e, refl)
Reply-cases (response status body) = inr refl

module _ {ℓ} {A : Type ℓ} (net : Net) (decode : Decoder A) (method path : Text)
    (request : HttpRequest) where
  abbrev pub exchange : ℕ → A → A × Option Failure
  exchange sent target = read_reply net decode method path target (net.reply sent request)

  pub repeat_final :
      (rounds attempt sent : ℕ) (target : A) (last : Option Failure)
      → pause net sent attempt ≡ none
      → is_final (exchange sent target).1 ≡ true
      → repeat net decode method path request (suc rounds) attempt sent target last
        ≡ (suc sent, (exchange sent target).0, (exchange sent target).1)
  unfolding repeat
  repeat_final rounds attempt sent target last fires final = ground arith

  pub repeat_again :
      (rounds attempt sent : ℕ) (target : A) (last : Option Failure)
      → pause net sent attempt ≡ none
      → is_final (exchange sent target).1 ≡ false
      → repeat net decode method path request (suc rounds) attempt sent target last
        ≡ repeat net decode method path request rounds
            (suc attempt)
            (suc sent)
            (exchange sent target).0
            (exchange sent target).1
  unfolding repeat
  repeat_again rounds attempt sent target last fires more = ground arith

  pub repeat_stopped :
      (rounds attempt sent : ℕ) (target : A) (last : Option Failure) {e : Error}
      → pause net sent attempt ≡ some e
      → repeat net decode method path request (suc rounds) attempt sent target last
        ≡ (sent, target, some (ended e))
  unfolding repeat
  repeat_stopped rounds attempt sent target last stopped = ground arith

  pub repeat_bounds :
      (rounds attempt sent : ℕ) (target : A) (last : Option Failure)
      → let r = repeat net decode method path request rounds attempt sent target last in
        (sent ≤ r.0) × (r.0 ≤ sent + rounds)
  repeat_bounds zero attempt sent target last = unfold repeat in omega arith
  repeat_bounds (suc rounds) attempt sent target last =
      elim (Option-cases (pause net sent attempt)) [
        | inr (e, stopped) ↦
            rw (repeat_stopped rounds attempt sent target last stopped) (omega arith)
        | inl fires ↦ elim (Bool-cases (is_final (exchange sent target).1)) [
          | inl final ↦ rw (repeat_final rounds attempt sent target last fires final) (omega arith)
          | inr more ↦
              let r = exchange sent target in
              rw (repeat_again rounds attempt sent target last fires more)
                (omega (arith, repeat_bounds rounds (suc attempt) (suc sent) r.0 r.1))
        ]
      ]

  -- A round whose wait is not cut short sends.
  pub repeat_sends :
      (rounds attempt sent : ℕ) (target : A) (last : Option Failure)
      → pause net sent attempt ≡ none
      → suc sent ≤ (repeat net decode method path request (suc rounds) attempt sent target last).0
  repeat_sends rounds attempt sent target last fires =
      let r = exchange sent target in
      elim (Bool-cases (is_final r.1)) [
        | inl final ↦ rw (repeat_final rounds attempt sent target last fires final) (omega arith)
        | inr more ↦
            rw (repeat_again rounds attempt sent target last fires more)
              (repeat_bounds rounds (suc attempt) (suc sent) r.0 r.1).0
      ]

  pub repeat_once :
      (sent : ℕ) (target : A) (last : Option Failure)
      → (repeat net decode method path request 1 0 sent target last).0 ≡ suc sent
  unfolding repeat
  repeat_once sent target last = ground arith

  -- An exchange that got no response is followed by the next.
  pub repeat_lost :
      (rounds attempt sent : ℕ) (target : A) (last : Option Failure)
      → pause net sent attempt ≡ none
      → is_lost (net.reply sent request) ≡ true
      → (e : Text) × (repeat net decode method path request (suc rounds) attempt sent target last
          ≡ repeat net decode method path request rounds
              (suc attempt)
              (suc sent)
              target
              (some (other e)))
  repeat_lost rounds attempt sent target last fires gone =
      elim (Reply-cases (net.reply sent request)) [
        | inr answered ↦ absurd (ground arith)
        | inl (e, r) ↦
            let ends : exchange sent target ≡ (target, some (other e)) =
              rw r (unfold read_reply in refl) in
            let more : is_final (exchange sent target).1 ≡ false = rw ends refl in
            (
              e,
              repeat_again rounds attempt sent target last fires more
                  ∙ ap
                      (λ x.
                        repeat net decode method path request rounds (suc attempt) (suc sent) x.0
                          x.1)
                      ends,
            )
      ]

  -- The first `k` exchanges get no response, no wait is cut short, and the next exchange is final.
  pub repeat_survives :
      (k rounds attempt sent : ℕ) (target : A) (last : Option Failure)
      → k < rounds
      → ((i : ℕ) → i < k → is_lost (net.reply (sent + i) request) ≡ true)
      → ((i : ℕ) → i < suc k → pause net (sent + i) (attempt + i) ≡ none)
      → is_final (exchange (sent + k) target).1 ≡ true
      → repeat net decode method path request rounds attempt sent target last
        ≡ (suc (sent + k), (exchange (sent + k) target).0, (exchange (sent + k) target).1)
  repeat_survives k zero attempt sent target last h gone fires final = elim h [ ]
  repeat_survives zero (suc rounds) attempt sent target last h gone fires final =
      let same : sent + 0 ≡ sent = omega arith in
      let first : pause net sent attempt ≡ none =
        ap₂ (pause net) (sym same) (omega arith) ∙ fires 0 (omega arith) in
      rw same (
        repeat_final rounds attempt sent target last first
          (ap (λ n. is_final (exchange n target).1) (sym same) ∙ final))
  repeat_survives (suc k) (suc rounds) attempt sent target last h gone fires final =
      let same : sent + 0 ≡ sent = omega arith in
      let moved : suc sent + k ≡ sent + suc k = omega arith in
      let first : pause net sent attempt ≡ none =
        ap₂ (pause net) (sym same) (omega arith) ∙ fires 0 (omega arith) in
      let (e, step) =
        repeat_lost rounds attempt sent target last first
          (ap (λ n. is_lost (net.reply n request)) (sym same) ∙ gone 0 (omega arith)) in
      let rest =
        repeat_survives k rounds (suc attempt) (suc sent) target (some (other e)) (omega arith)
          (λ i lt.
            ap (λ n. is_lost (net.reply n request)) (omega arith) ∙ gone (suc i) (omega arith))
          (λ i lt. ap₂ (pause net) (omega arith) (omega arith) ∙ fires (suc i) (omega arith))
          (ap (λ n. is_final (exchange n target).1) moved ∙ final) in
      step ∙ rest ∙ ap (λ n. (suc n, (exchange n target).0, (exchange n target).1)) moved
