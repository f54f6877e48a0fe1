-- ===== src/Api/Waits.antt =====
-- internal/api/handlers.go: the answers of requests whose wait is over because the context ended, and
-- what the client makes of them.
use lockd.Prelude.{
  ℕ, ◌≡◌, ◌↔◌, refl, inl, inr, Bool, Bool-cases, if◌then◌else◌, get_elem?, true, false, some,
  nat_eq, ◌==◌, pos,
}
use lockd.Lock.Errors.{Error, ErrorCode, err, canceled, deadline_exceeded, number, err_wait_timeout}
use lockd.Lock.Types.{Duration, Lock, Waiter}
use lockd.Lock.Acquire.{wait_cancelled, wait_error}
use lockd.Lock.Watch.{watch_cancelled}
use lockd.Lock.Service.{Service, locked}
use lockd.Api.Types.{Response, envelope, empty, views, health, metrics, acquired, nothing}
use lockd.Api.Responses.{write_ok, write_error, status_of, code_of, message_of}
use lockd.Api.Handlers.{Reply, answered, acquiring, noticing, streaming, reply, watch_step}
use lockd.Client.Types.{api}
use lockd.Client.Watching.{is_wait_timeout}

-- `acquire`, when the context of its waiter ends with `e`.
unfoldable pub acquire_ended : Service → ℕ → ℕ → Error → Service × Reply
acquire_ended s a w e =
    reply acquired (locked s a (λ sh item. wait_cancelled sh item w e) (err (wait_error e)))

-- `watch`, when the context of its subscription ends with `e`.
unfoldable pub watch_over : Service → ℕ → Duration → Error → Service × Reply
watch_over s id limit e =
    let (bus, step) = watch_cancelled s.shared.bus id e in
    watch_step (record s { shared = record (s.shared) { bus = bus } }) limit step

-- The client reads the answer as the end of a wait.
abbrev reads_timeout : Response → Bool
reads_timeout r = elim r.content [
  | envelope code msg payload ↦ is_wait_timeout (api (pos code) msg)
  | empty ↦ false
  | views vs ↦ false
  | health uptime locks waiters ↦ false
  | metrics counters locks waiters namespaces ↦ false
]

abbrev answer_reads_timeout : Reply → Bool
answer_reads_timeout (answered r) = reads_timeout r
answer_reads_timeout (acquiring w limit) = false
answer_reads_timeout (noticing id name limit) = false
answer_reads_timeout (streaming id namespace) = false

timeout_number : (c : ErrorCode) → ((number c == 10_007) ≡ true) ↔ (c ≡ ErrorCode.wait_timeout)
unfolding number
timeout_number ErrorCode.invalid = (λ h. cc, λ h. cc)
timeout_number ErrorCode.not_found = (λ h. cc, λ h. cc)
timeout_number ErrorCode.already_exists = (λ h. cc, λ h. cc)
timeout_number ErrorCode.locked = (λ h. cc, λ h. cc)
timeout_number ErrorCode.not_held = (λ h. cc, λ h. cc)
timeout_number ErrorCode.token_invalid = (λ h. cc, λ h. cc)
timeout_number ErrorCode.namespace_denied = (λ h. cc, λ h. cc)
timeout_number ErrorCode.force_unauthorized = (λ h. cc, λ h. cc)
timeout_number ErrorCode.wait_timeout = (λ h. refl, λ h. refl)
timeout_number ErrorCode.quota_exceeded = (λ h. cc, λ h. cc)
timeout_number ErrorCode.internal = (λ h. cc, λ h. cc)

-- The client takes the answer of a watch whose limit has passed for the end of a wait, which
-- WatchLoop passes over, and the answer of one that was cancelled for an error; of the error
-- answers of the server it takes just those with the code of a wait timeout.
timeouts_understood :
    (s : Service) (id : ℕ) (limit : Duration) (e : Error)
    → (answer_reads_timeout (watch_over s id limit deadline_exceeded).1 ≡ true)
      × (answer_reads_timeout (watch_over s id limit canceled).1 ≡ false)
      × ((reads_timeout (write_error e) ≡ true) ↔ (code_of e ≡ ErrorCode.wait_timeout))
unfolding watch_over watch_cancelled write_error number
timeouts_understood s id limit e = (refl, refl, timeout_number (code_of e))

-- The answer of an acquire whose limit passes while it waits: the lease, with status 200, if it
-- was granted meanwhile, and else status 408 with code 10007 and the message of a wait timeout.
late_acquire_answers :
    (s : Service) (a w : ℕ) (item : Lock) (waiter : Waiter)
    → get_elem? s.registry.heap a ≡ some item
    → get_elem? item.waiters w ≡ some waiter
    → (acquire_ended s a w deadline_exceeded).1
      ≡ answered (
          if waiter.granted then write_ok (acquired waiter.result) else record {
            status = 408;
            content = envelope 10_007 (message_of err_wait_timeout) nothing;
          })
unfolding acquire_ended wait_cancelled write_error status_of number
late_acquire_answers s a w item waiter e f = elim (Bool-cases waiter.granted) [
  | inl got ↦ rw (e, f, got) refl
  | inr late ↦ rw (e, f, late) refl
]
