-- ===== src/Wire/Checks.antt =====
-- A client and a server at concrete inputs: alice takes a lock, renews it and gives it back.
use lockd.Prelude.{
  ◌≡◌, refl, ap, true, false, none, some, List, [], ◌∷◌, ◌++◌, Text, text, text_beq, pos, ◌+ℤ◌,
  get_elem?, set, lookup, insert, contains, arith,
}
use lockd.Lock.Errors.{Result}
use lockd.Lock.Lease.{
  normalize_ttl, new_token, hex_encode, assign_lease, lease_expiry, lease_expired, clear_lease,
  remember,
}
use lockd.Lock.Queue.{active_length, pop}
use lockd.Lock.Reentrant.{decrease_depth}
use lockd.Lock.Registry.{
  get, namespace_allowed, create, valid_name, all_name_chars, is_name_char, new_registry, enter,
}
use lockd.Lock.Shared.{emit, expire_locked, assign_locked, grant_next_locked, grant_loop}
use lockd.Lock.Calls.{
  renew_locked, renew_live, release_locked, release_live, hand_over, announce_release,
}
use lockd.Strings.{cut_prefix, split, path_escape, is_path_char, unescape_from}
use lockd.Api.Routes.{operation_path}
use lockd.Client.Requests.{build_request}
use lockd.Lock.Types.{Time, AcquireResult, ReleaseResult, full_name, next64}
use lockd.Lock.Acquire.{returned, acquire_locked, acquire_live, acquire_idle}
use lockd.Lock.Given.{GivenAt}
use lockd.Lock.Service.{Service, new_service, create_lock, acquire, renew, release}
use lockd.Lock.Checks.Samples.{seconds, counting}
use lockd.Lock.Checks.Services.{created, acquired, first_token}
use lockd.Api.Types.{Codec, Request, Payload}
use lockd.Api.Responses.{write_ok}
use lockd.Api.Handlers.{Reply, answered}
use lockd.Api.Router.{dispatch}
use lockd.Client.Types.{Net, Client, ClientOptions, Field, Lease, response, lock_path, lock_key}
use lockd.Client.Calls.{acquire_body, try_acquire, renew as send_renew, release as send_release}
use lockd.Wire.{Served, IsShown, lease_reply}
use lockd.Wire.Acquiring.{
  Understood, sent_request, text_member, truth_member, try_options, acquire_over_wire,
}
use lockd.Wire.Keeping.{
  Renewed, Returned, renew_body, release_body, renew_over_wire, release_over_wire,
}
use lockd.Api.Checks.{codec}
use lockd.Client.Checks.{flaky}

abbrev granted : AcquireResult
granted = record {
  token = first_token;
  holder = text "alice";
  depth = 1;
  expires_at = seconds 130;
  reentered = false;
}

-- The client asks for 30 seconds each time, and the network works.
abbrev net : Net
net = record flaky {
  reply = λ n request. response 200 (text "{}");
  decode_lease = λ body target. (lease_reply granted, true);
  decode_stolen = λ body target. (lease_reply granted, true);
  decode_expiry = λ body target. (seconds 135, true);
  decode_release = λ body target. (record { released = true; depth = pos 0 }, true);
}

abbrev asked : ClientOptions
asked = record { ttl = pos (seconds 30); wait = true; wait_timeout = pos 0; request_id = [] }

abbrev server_codec : Codec
server_codec = record codec {
  decode_acquire = λ body.
      (some (sent_request (acquire_body net (text "alice") (record asked { wait = false }))), true);
  decode_renew = λ body. (some (record { token = first_token; ttl = text "30s" }), true);
  decode_release = λ body. (some (record { token = first_token; request_id = [] }), true);
}

abbrev client : Client
client = record {
  base_url = text "http://localhost:8080";
  retries = pos 3;
  leases = [];
  heap = [];
  sent = 0;
}

abbrev request_for : Text → Request
request_for operation = record {
  method = text "POST";
  path = text "/api/v1/locks/default/build/" ++ operation;
  query = λ name. [];
  force_token = [];
  body = text "{}";
}

abbrev served_by : Service → Text → Time → Service × Reply
served_by s operation now = dispatch counting server_codec 0 none s none (request_for operation) now

thirty-IsShown : IsShown net server_codec (pos (seconds 30))
unfolding text
thirty-IsShown = record { nonempty = refl; parsed = refl }

acquire_answered :
    (served_by created (text "acquire") (seconds 100)).1
    ≡ answered (write_ok (Payload.acquired granted))
unfolding dispatch text text_beq cut_prefix split write_ok get namespace_allowed create_lock create
    valid_name all_name_chars is_name_char new_service new_registry normalize_ttl enter lookup
    insert full_name ◌+ℤ◌ get_elem? set acquire acquire_locked acquire_live acquire_idle
    expire_locked active_length assign_locked new_token hex_encode assign_lease next64 emit contains
    text_member truth_member acquire_body
acquire_answered = refl

-- The renewal and the release come after alice has got the lock.
renew_answered :
    (served_by acquired (text "renew") (seconds 105)).1
    ≡ answered (write_ok (Payload.renewed (seconds 135)))
unfolding dispatch text text_beq cut_prefix split write_ok get namespace_allowed create_lock create
    valid_name all_name_chars is_name_char new_service new_registry normalize_ttl enter lookup
    insert full_name ◌+ℤ◌ get_elem? set acquire acquire_locked acquire_live acquire_idle
    expire_locked active_length assign_locked new_token hex_encode assign_lease next64 emit contains
    renew release renew_locked renew_live release_locked release_live hand_over decrease_depth
    clear_lease grant_next_locked grant_loop pop remember lease_expiry lease_expired
    announce_release
renew_answered = refl

abbrev given_back : ReleaseResult
given_back = record { released = true; depth = 0; next_holder = [] }

release_answered :
    (served_by acquired (text "release") (seconds 110)).1
    ≡ answered (write_ok (Payload.released given_back))
unfolding dispatch text text_beq cut_prefix split write_ok get namespace_allowed create_lock create
    valid_name all_name_chars is_name_char new_service new_registry normalize_ttl enter lookup
    insert full_name ◌+ℤ◌ get_elem? set acquire acquire_locked acquire_live acquire_idle
    expire_locked active_length assign_locked new_token hex_encode assign_lease next64 emit contains
    renew release renew_locked renew_live release_locked release_live hand_over decrease_depth
    clear_lease grant_next_locked grant_loop pop remember lease_expiry lease_expired
    announce_release
release_answered = refl

abbrev operation : Text → Text
operation name = operation_path (text "default") (text "build") name

abbrev acquire_fields : List (Text × Field)
acquire_fields = acquire_body net (text "alice") (record asked { wait = false })

abbrev after_acquire : Service
after_acquire = (served_by created (text "acquire") (seconds 100)).0

abbrev acquire_served :
    Served net server_codec counting 0
      (seconds 100)
      none
      created
      after_acquire
      client
      (operation (text "acquire"))
      acquire_fields
unfolding text write_ok build_request lock_path path_escape is_path_char unescape_from
acquire_served = record {
  request = request_for (text "acquire");
  arrives = record { same_method = refl; same_token = refl; located = refl };
  answer = write_ok (Payload.acquired granted);
  answers = ap (λ r. (after_acquire, r)) acquire_answered;
  carries = record {
    body = text "{}";
    same_response = refl;
    reads = (text "{}", refl, (refl, (λ target. refl), (λ target. refl)));
  };
}

acquire_over_wire_example :
    (r : Result AcquireResult) × (acquire counting created none
        (text "default")
        (text "build")
        (try_options (text "alice") asked)
        (seconds 100)
      ≡ (after_acquire, returned r))
    × Understood net server_codec counting 0
        (seconds 100)
        none
        (text "default")
        (text "build")
        (try_acquire net client (text "default") (text "build") (text "alice") asked)
        r
    × GivenAt (text "alice") (text "default") (text "build") (after_acquire, returned r)
unfolding text valid_name all_name_chars is_name_char text_beq
acquire_over_wire_example =
    acquire_over_wire net server_codec counting 0 (seconds 100) none created after_acquire client 3
      (text "default") (text "build") (text "alice") asked refl refl refl refl thirty-IsShown
      acquire_served refl

-- The client once it has the lock.
abbrev alice_lease : Lease
alice_lease = record {
  namespace = text "default";
  name = text "build";
  holder = text "alice";
  token = first_token;
  depth = pos 1;
  expires_at = seconds 130;
  ttl = pos (seconds 30);
}

abbrev holding : Client
holding = record client {
  leases = (lock_key (text "default") (text "build"), 0) ∷ [];
  heap = alice_lease ∷ [];
  sent = 1;
}

abbrev after_renew : Service
after_renew = (served_by acquired (text "renew") (seconds 105)).0

abbrev renew_served :
    Served net server_codec counting 0
      (seconds 105)
      none
      acquired
      after_renew
      holding
      (operation (text "renew"))
      (renew_body net alice_lease)
unfolding text write_ok build_request lock_path path_escape is_path_char unescape_from
renew_served = record {
  request = request_for (text "renew");
  arrives = record { same_method = refl; same_token = refl; located = refl };
  answer = write_ok (Payload.renewed (seconds 135));
  answers = ap (λ r. (after_renew, r)) renew_answered;
  carries = record {
    body = text "{}";
    same_response = refl;
    reads = (text "{}", refl, (refl, (λ target. refl)));
  };
}

renew_over_wire_example :
    let called =
      renew counting acquired
        (text "default")
        (text "build")
        first_token
        (pos (seconds 30))
        (seconds 105) in
    (called.0 ≡ after_renew) × Renewed alice_lease 0 (send_renew net holding 0) called.1
unfolding text valid_name all_name_chars is_name_char text_beq get_elem?
renew_over_wire_example =
    renew_over_wire net server_codec counting 0 (seconds 105) none acquired after_renew holding 3
      alice_lease 0 refl refl refl refl refl (ground arith) thirty-IsShown renew_served refl

abbrev after_release : Service
after_release = (served_by acquired (text "release") (seconds 110)).0

abbrev release_served :
    Served net server_codec counting 0
      (seconds 110)
      none
      acquired
      after_release
      holding
      (operation (text "release"))
      (release_body alice_lease)
unfolding text write_ok build_request lock_path path_escape is_path_char unescape_from
release_served = record {
  request = request_for (text "release");
  arrives = record { same_method = refl; same_token = refl; located = refl };
  answer = write_ok (Payload.released given_back);
  answers = ap (λ r. (after_release, r)) release_answered;
  carries = record {
    body = text "{}";
    same_response = refl;
    reads = (text "{}", refl, (refl, (λ target. refl)));
  };
}

release_over_wire_example :
    let called =
      release counting acquired (text "default") (text "build") first_token (seconds 110) in
    (called.0 ≡ after_release) × Returned alice_lease 0 (send_release net holding 0) called.1
unfolding text valid_name all_name_chars is_name_char text_beq get_elem?
release_over_wire_example =
    release_over_wire net server_codec counting 0 (seconds 110) none acquired after_release holding
      3 alice_lease 0 refl refl refl refl refl release_served refl
