-- ===== src/Lib.antt =====
-- lockd: a lock service with leases, queues of waiters, reentrant locks and an expirer, its HTTP API,
-- its client and its two commands.
--
-- The program's parts. A `Registry` (internal/lock/registry.go) holds the records, one for each
-- lock. A `Service` (internal/lock/service.go) runs the calls: each looks a record up, takes the
-- record's mutex and runs a critical section that reads and writes the lease
-- (internal/lock/lease.go, reentrant.go) and the queue of waiters (queue.go, waiter.go). A call that
-- frees a lock serves the queue at once, by sending a lease into a waiter's channel. An expirer
-- (expirer.go) scans the records and frees the leases that are over. Events go to the subscribers
-- of a `Bus` (notify.go), and counters count (internal/metrics/metrics.go). The HTTP API
-- (internal/api) decodes requests, calls the service and encodes what it answers. The client
-- (internal/client) builds these requests, repeats some of them, and keeps the leases it got.
-- cmd/lockd/main.go puts the server together from a configuration (internal/config/config.go), and
-- cmd/lockctl/main.go is a command around the client.
--
-- The modules, each named for its file or part:
--   Prelude          what the others share: tests, lists, texts as lists of bytes, maps, integers
--   Strings          the functions on texts of packages strings, strconv and net/url that are used
--   Metrics          internal/metrics/metrics.go: the counters, and the page they are written to
--   Lock/Errors      errors.go: codes, messages, results
--   Lock/Types       types.go and waiter.go: locks (`record`), waiters, requests, answers, events
--   Lock/Lease       lease.go: terms, tokens, `assign_lease`, `clear_lease`
--   Lock/Queue       queue.go: `push`, `pop`, `remove`, `active_length`, `views`, `cancel_all`
--   Lock/Notify      notify.go: `subscribe`, `unsubscribe`, `broadcast`
--   Lock/Reentrant   reentrant.go: `try_reenter`, `decrease_depth`
--   Lock/Registry    registry.go: `create`, `get`, `get_view`, `remove`, `all_records`
--   Lock/Listing     registry.go: `list`, `stats`; Lock/Listing/Unordered: a map as its entries up to
--     their order, a quotient
--   Lock/Shared      service.go: `emit`, `assign_locked`, `grant_next_locked`, `expire_locked`
--   Lock/Acquire     service.go: `Acquire` and both ends of its wait
--   Lock/Calls       service.go: `Renew`, `Release`, `Steal`, `Delete` under the mutex
--   Lock/Service     service.go: the whole calls
--   Lock/Expirer     expirer.go: one pass
--   Lock/Watch       service.go: `Watch`, a step for each receipt
--   Lock/System      the service as a transition system: its invariant, and proofs about its runs
--   Lock/Turns       the abstract lock, which records refine: a token, a line of waiters, draws, and
--     the causes for which a lease ends
--   Lock/Valid, Exclusion, Handover, Levels, Retry, Progress: proofs about one record
--   Api/Types, Responses, Options, Handlers, Router, Middleware: the files of internal/api
--   Api/Streams      the loop of `handleEvents` of router.go
--   Api/Waits        the ends of the waits of handlers.go, and what the client makes of them
--   Api/Answers, Refusals, Routes, Pages, Invariant: proofs about the API
--   Client/Types, Requests, Calls: client.go and `Watch` of watch.go
--   Client/Renewer, Watching: renewer.go and `WatchLoop` of watch.go
--   Logger           internal/logger/logger.go
--   Flags            the loop of `FlagSet.Parse`, for both commands
--   Config           internal/config/config.go
--   Lockctl, Lockd   cmd/lockctl/main.go; cmd/lockd/main.go and `RunExpirer` of expirer.go
--   Wire             calls of the client against the server, over what carries them
--   Checks, and Checks in Lock, Client, Api and Wire: examples at concrete inputs
--
-- The model. State is passed explicitly: a critical section takes what all locks share (`Shared`:
-- the bus, the metrics, the counters) and a record, and gives both back with its answer. A
-- `*record` is an index into the heap of the registry and a `*waiter` an index into the store of
-- its record, so that a pointer that another goroutine still holds is a value. A waiter's channel
-- is the list of what was sent and not received. `Lock/System` takes a critical section as one
-- step at any address, so that a call whose lookup is old, also one to a deleted record, is a
-- sequence of steps that other calls may interleave. The events that a call emits after it has
-- unlocked the record are part of its step. A time is a number of nanoseconds since the zero time
-- and a duration a signed one; the counters of 64 bits wrap. The clock that a call reads is an
-- argument, of any value. A handler answers, or waits for a lock or an event with the limit of its
-- context; the end of the wait is a step of its own. `Lockd/Runs` puts requests, passes of the
-- expirer and such steps together.
--
-- Parameters. `crypto/rand` is `rand`, whose n-th value is what the n-th call of `rand.Read` gives;
-- theorems that need it to work, or to give bytes that differ in each of the draws of a run, say
-- so. The record `Codec` has the decoders of encoding/json and `time.ParseDuration`; `Net` has the
-- network, the clock and the decoders of the client, where the n-th exchange of a client gets the
-- n-th answer. The environment, `strconv.ParseInt` of package flag, the JSON of a log record and
-- the verb `%q` of package fmt are arguments. The laws asked of these are that `%q` writes no
-- newline, and for `Wire` that the exchange at hand is carried: method, token and path of its
-- request arrive, each side decodes what the other has encoded, and `time.ParseDuration` reads what
-- `Duration.String` shows.
--
-- Fuel. `grant_loop` allows one round more than the queue has entries, since each round but the
-- last takes an entry off the queue. `decimal` has the twenty digits that 64 bits need. `repeat`
-- of the client has as many rounds as the loop of `do`. `WatchLoop` runs until it fails, so
-- `watch_loop` takes any number of rounds, after which it has not ended. All other loops are
-- recursion on a list.
--
-- Not modelled: the headers of responses, the JSON that is written, the console's files and
-- net/http around the handlers but for the mux; the texts that `Error` prints; the random factor
-- of the renewer's waits; signals and what `Shutdown` does; the start time of the service, which
-- is an argument of the health check. Lower case and trimming are those of ASCII. The mux is that
-- of paths without escaped slashes, for methods other than CONNECT.
pub mod Prelude
pub mod Metrics
pub mod Lock
pub mod Strings
pub mod Client
pub mod Api
pub mod Logger
pub mod Flags
pub mod Config
pub mod Lockctl
pub mod Lockd
pub mod Wire
pub mod Checks
