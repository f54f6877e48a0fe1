-- ===== src/Metrics/Page.antt =====
-- internal/metrics/metrics.go: `WritePrometheus`.
use lockd.Prelude.{
  ℕ, zero, suc, ◌+◌, ◌/◌, ◌%◌, List, [], ◌∷◌, ◌++◌, Text, text, nat_eq, ltb, if◌then◌else◌,
}
use lockd.Metrics.{Metrics}

-- `%d` of a number: its last digits, before what is written already.
unfoldable pub decimal_from : ℕ → ℕ → Text → Text
decimal_from zero n written = written
decimal_from (suc fuel) n written =
    let digit = b'0' + n % 10 in
    let rest = decimal_from fuel (n / 10) (digit ∷ written) in
    if ltb n 10 then digit ∷ written else rest

-- Twenty digits are enough for 64 bits.
abbrev pub decimal : ℕ → Text
decimal n = decimal_from 20 n []

-- The two lines of each counter.
unfoldable pub counter_lines : List (Text × ℕ) → List Text
counter_lines [] = []
counter_lines ((name, n) ∷ counters) =
    (text "# TYPE " ++ (name ++ text " counter"))
    ∷ (name ++ (text " " ++ decimal n))
    ∷ counter_lines counters

abbrev pub counters : Metrics → List (Text × ℕ)
counters m =
    (text "lockd_acquire_total", m.acquire)
    ∷ (text "lockd_acquire_locked_total", m.acquire_locked)
    ∷ (text "lockd_renew_total", m.renew)
    ∷ (text "lockd_renew_fail_total", m.renew_fail)
    ∷ (text "lockd_expiry_total", m.expiry)
    ∷ (text "lockd_steal_total", m.steal)
    ∷ (text "lockd_notify_total", m.notify)
    ∷ []

-- The loop over the namespaces; `quote` is `%q`.
unfoldable pub namespace_lines : (Text → Text) → List (Text × ℕ) → List Text
namespace_lines quote [] = []
namespace_lines quote ((namespace, n) ∷ counts) =
    (text "lockd_locks_total{namespace=" ++ (quote namespace ++ (text "} " ++ decimal n)))
    ∷ namespace_lines quote counts

-- What follows the loop.
abbrev pub total_lines : Metrics → ℕ → ℕ → List Text
total_lines m locks waiters =
    text "# TYPE lockd_waiters_total gauge"
    ∷ (text "lockd_waiters_total" ++ (text " " ++ decimal waiters))
    ∷ (counter_lines (counters m) ++ (text "# lockd_registry_locks " ++ decimal locks) ∷ [])

abbrev pub page_lines : (Text → Text) → Metrics → ℕ → ℕ → List (Text × ℕ) → List Text
page_lines quote m locks waiters counts =
    text "# TYPE lockd_locks_total gauge"
    ∷ (namespace_lines quote counts ++ total_lines m locks waiters)

unfoldable pub unlines : List Text → Text
unlines [] = []
unlines (line ∷ lines) = line ++ 10 ∷ unlines lines

-- `WritePrometheus`, for the order in which it visits the namespaces.
unfoldable pub write_prometheus : (Text → Text) → Metrics → ℕ → ℕ → List (Text × ℕ) → Text
unfolding namespace_lines counter_lines unlines decimal_from
write_prometheus quote m locks waiters counts = unlines (page_lines quote m locks waiters counts)
