-- ===== src/Client/Checks.antt =====
-- The theorems on the client at concrete inputs, against a network whose first exchange is lost.
use lockd.Prelude.{
  ℕ, zero, suc, ◌≡◌, refl, ◌≤◌, ◌+◌, ◌⊎◌, true, false, Option, some, none, [], ◌∷◌, text, text_eq,
  text_beq, pos, ltb, if◌then◌else◌, arith,
}
use lockd.Strings.{cut_prefix}
use lockd.Client.Types.{Failure, lost, response, LeaseReply, ClientOptions, Net, Client, lock_path}
use lockd.Client.Requests.{is_listing, is_repeated, read_reply, pause, do_request}
use lockd.Client.Requests.Sending.{sends_bounded, request_survives, delete_replays}
use lockd.Client.Calls.{acquire, no_target}
use lockd.Client.Renewer.{run_renewer, renewals, lost_with, third_failure, renewer_gives_up}
use lockd.Client.Watching.{watch_loop, first_end, watch_ends, watch_loop_ends}

abbrev alice_lease : LeaseReply
alice_lease = record {
  token = text "tk_1";
  holder = text "alice";
  depth = pos 1;
  expires_at = 40_000_000_000;
}

-- The exchange 0 gets no response, the others succeed.
abbrev pub flaky : Net
flaky = record {
  reply = λ n request. if ltb n 1 then lost (text "reset") else response 200 (text "{}");
  wake = λ n d. none;
  until = λ n t. pos 30_000_000_000;
  show_duration = λ d. text "30s";
  Listed = Unit;
  nothing_listed = tt;
  decode_envelope = λ body. some (record { code = pos 0; msg = text "ok"; payload = text "{}" });
  decode_lease = λ body target. (alice_lease, true);
  decode_stolen = λ body target. (alice_lease, true);
  decode_expiry = λ body target. (target, true);
  decode_release = λ body target. (target, true);
  decode_event = λ body target. (target, true);
  decode_list = λ body target. (target, true);
}

abbrev fresh : Client
fresh = record {
  base_url = text "http://localhost:8080";
  retries = pos 3;
  leases = [];
  heap = [];
  sent = 0;
}

-- A network that is down.
abbrev dead : Net
dead = record flaky { reply = λ n request. lost (text "reset") }

-- One that has sent something before.
abbrev used : Client
used = record fresh { sent = 4 }

sends_bounded_example :
    ((is_repeated (text "DELETE") (text "/api/v1/locks/a/b") ≡ false)
      × ((do_request flaky no_target fresh
            (text "DELETE")
            (text "/api/v1/locks/a/b")
            none
            []
            tt).0.sent
          ≡ suc fresh.sent))
    ⊎ ((is_repeated (text "DELETE") (text "/api/v1/locks/a/b") ≡ true)
        × (fresh.sent
            ≤ (do_request flaky no_target fresh
                (text "DELETE")
                (text "/api/v1/locks/a/b")
                none
                []
                tt).0.sent)
        × ((do_request flaky no_target fresh
              (text "DELETE")
              (text "/api/v1/locks/a/b")
              none
              []
              tt).0.sent
            ≤ fresh.sent + 4))
sends_bounded_example =
    sends_bounded flaky no_target fresh 3 (text "DELETE") (text "/api/v1/locks/a/b") none [] tt refl

no_pause : (n i : ℕ) → pause flaky n i ≡ none
no_pause n zero = refl
no_pause n (suc i) = refl

-- The second exchange of a GET succeeds.
request_survives_example :
    do_request flaky no_target fresh (text "GET") (text "/api/v1/locks/a/b") none [] tt
    ≡ (record fresh { sent = 2 }, tt, none)
unfolding is_repeated read_reply is_listing text text_beq cut_prefix
request_survives_example =
    request_survives flaky no_target fresh 3 1 (text "GET") (text "/api/v1/locks/a/b") none [] tt
      refl refl (omega arith) (λ i h. ground arith) (λ i h. no_pause i i) refl

delete_replays_example :
    2
    ≤ (do_request flaky no_target fresh
        (text "DELETE")
        (lock_path (text "a") (text "watch"))
        none
        []
        tt).0.sent
delete_replays_example = delete_replays flaky no_target fresh 2 (text "a") [] tt refl refl refl

abbrev unlimited : ClientOptions
unlimited = record { ttl = pos 0; wait = false; wait_timeout = pos 0; request_id = [] }

abbrev got : Client × Option ℕ × Option Failure
got = acquire flaky used (text "a") (text "b") (text "alice") unlimited

abbrev held : Client
held = record used {
  heap =
      record {
        namespace = text "a";
        name = text "b";
        holder = text "alice";
        token = text "tk_1";
        depth = pos 1;
        expires_at = 0;
        ttl = pos 30_000_000_000;
      }
      ∷ [];
}

renewer_gives_up_example :
    lost_with (run_renewer dead held 0 0 (true ∷ true ∷ true ∷ [])).1
    ≡ third_failure (renewals dead held 0 (true ∷ true ∷ true ∷ []))
renewer_gives_up_example = renewer_gives_up dead (true ∷ true ∷ true ∷ []) held 0

watch_loop_ends_example :
    (watch_loop dead (λ n. none) 2 used (text "a") (text "b")).2
    ≡ first_end (watch_ends dead (λ n. none) 2 used (text "a") (text "b"))
watch_loop_ends_example = watch_loop_ends dead (λ n. none) 2 used (text "a") (text "b")
