-- ===== src/Client/Watching.antt =====
-- internal/client/watch.go: `WatchLoop`, for a callback that is not nil. `done n` is `ctx.Err()`
-- after n exchanges.
use lockd.Prelude.{
  ℕ, zero, suc, ◌≡◌, refl, Bool, true, false, Option, some, none, List, [], ◌∷◌, Text, nat_eq, ◌==◌,
  pos, negsuc, ◌*◌, if◌then◌else◌, Option-cases, Bool-cases, inl, inr,
}
use lockd.Lock.Errors.{Error}
use lockd.Lock.Types.{Event}
use lockd.Client.Types.{Failure, api, ended, http_status, other, Net, Client, second}
use lockd.Client.Calls.{watch}

-- `ok && apiErr.Code == 10007`.
abbrev pub is_wait_timeout : Failure → Bool
is_wait_timeout (api (pos code) msg) = code == 10_007
is_wait_timeout (api (negsuc code) msg) = false
is_wait_timeout (ended e) = false
is_wait_timeout (http_status status) = false
is_wait_timeout (other e) = false

-- The client, the events that the callback was given, and the error that ended the loop, if it did.
abbrev pub Watched : Type 0
Watched = Client × List Event × Option Failure

abbrev give : Event → Watched → Watched
give event (c, events, e) = (c, event ∷ events, e)

module _ (net : Net) (done : ℕ → Option Error) where
  unfoldable pub watch_loop : ℕ → Client → Text → Text → Watched
  watch_loop zero c namespace name = (c, [], none)
  watch_loop (suc rounds) c namespace name =
      let r = watch net c namespace name (pos (60 * second)) in
      elim r.2 [
        | none ↦ give r.1 (watch_loop rounds r.0 namespace name)
        | some failure ↦ elim (done r.0.sent) [
          | some e ↦ (r.0, [], some (ended e))
          | none ↦ elim (is_wait_timeout failure) [
            | true ↦ watch_loop rounds r.0 namespace name
            | false ↦ (r.0, [], some failure)
          ]
        ]
      ]

-- A watch as the loop judges it: what its failure ends the loop with, for `ctx.Err()`.
abbrev pub end_with : Option Failure → Option Error → Option Failure
end_with none ctx_err = none
end_with (some failure) (some e) = some (ended e)
end_with (some failure) none = if is_wait_timeout failure then none else some failure

abbrev pub first_end : List (Option Failure) → Option Failure
first_end [] = none
first_end (none ∷ rest) = first_end rest
first_end (some e ∷ rest) = some e

module _ (net : Net) (done : ℕ → Option Error) where
  -- The watches that follow each other, whatever they give.
  unfoldable pub watch_ends : ℕ → Client → Text → Text → List (Option Failure)
  watch_ends zero c namespace name = []
  watch_ends (suc rounds) c namespace name =
      let r = watch net c namespace name (pos (60 * second)) in
      end_with r.2 (done r.0.sent) ∷ watch_ends rounds r.0 namespace name

  -- In any number of rounds, WatchLoop ends exactly with the first of its watches that fails while
  -- the context is done, with the error of the context, or that fails in another way than by the
  -- timeout of a wait, with that failure; it goes on over events and over the timeouts that the
  -- server reports.
  pub watch_loop_ends :
      (rounds : ℕ) (c : Client) (namespace name : Text)
      → (watch_loop net done rounds c namespace name).2
        ≡ first_end (watch_ends rounds c namespace name)
  unfolding watch_loop watch_ends
  watch_loop_ends zero c namespace name = refl
  watch_loop_ends (suc rounds) c namespace name =
      let r = watch net c namespace name (pos (60 * second)) in
      let rest = watch_loop_ends rounds r.0 namespace name in
      elim (Option-cases r.2) [
        | inl event ↦ rw (event, watch_loop, watch_ends) rest
        | inr (failure, failed) ↦ elim (Option-cases (done r.0.sent)) [
          | inr (e, over) ↦ rw (failed, over, watch_loop, watch_ends) refl
          | inl going ↦ elim (Bool-cases (is_wait_timeout failure)) [
            | inl timeout ↦ rw (failed, going, timeout, watch_loop, watch_ends) rest
            | inr final ↦ rw (failed, going, final, watch_loop, watch_ends) refl
          ]
        ]
      ]
