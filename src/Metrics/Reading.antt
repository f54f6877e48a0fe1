-- ===== src/Metrics/Reading.antt =====
-- The page of the metrics, read back.
use lockd.Prelude.{
  ℕ, ◌^◌, ◌<◌, ◌≡◌, refl, ap, ◌∙◌, false, Option, some, none, List, [], ◌∷◌, ◌++◌, Text, text,
  nat_eq, contains, contains-append, All,
}
use mathlib.Core.List.{append_assoc}
use lockd.Strings.{split, cut_prefix, digits}
use lockd.Strings.Paths.{split-append}
use lockd.Metrics.{Metrics}
use lockd.Metrics.Digits.{digits-decimal, contains-decimal}
use lockd.Metrics.Page.{
  decimal, counter_lines, counters, namespace_lines, total_lines, page_lines, unlines,
  write_prometheus,
}

-- How a scraper reads the page: the number behind a name and a space at the start of a line.
abbrev pub number_behind : Option Text → Option ℕ
number_behind none = none
number_behind (some value) = digits 0 value

abbrev pub first_number : Option ℕ → Option ℕ → Option ℕ
first_number (some n) later = some n
first_number none later = later

unfoldable pub find_value : Text → List Text → Option ℕ
find_value name [] = none
find_value name (line ∷ lines) =
    first_number (number_behind (cut_prefix line (name ++ text " "))) (find_value name lines)

unfoldable pub read_value : Text → Text → Option ℕ
read_value name page = find_value name (split 10 page)

find_value-skip :
    (name line : Text) (lines : List Text)
    → cut_prefix line (name ++ text " ") ≡ none
    → find_value name (line ∷ lines) ≡ find_value name lines
unfolding find_value
find_value-skip name line lines h = rw h refl

abbrev Lines : List Text → Type 0
Lines lines = All (λ line. contains 10 line ≡ false) lines

find_value-unlines :
    (name : Text) (lines : List Text)
    → Lines lines
    → read_value name (unlines lines) ≡ find_value name (lines ++ [] ∷ [])
unfolding read_value unlines find_value
find_value-unlines name [] h = unfold split in refl
find_value-unlines name (line ∷ lines) (here, later) =
    rw (split-append 10 line (unlines lines) here) (
      ap (first_number (number_behind (cut_prefix line (name ++ text " "))))
        (find_value-unlines name lines later))

clean-append :
    (s t : Text) → contains 10 s ≡ false → contains 10 t ≡ false → contains 10 (s ++ t) ≡ false
clean-append s t hs ht = rw (contains-append 10 s t, hs, ht) refl

counter_lines-Lines :
    (cs : List (Text × ℕ)) (rest : List Text)
    → All (λ c. contains 10 c.0 ≡ false) cs
    → Lines rest
    → Lines (counter_lines cs ++ rest)
unfolding counter_lines
counter_lines-Lines [] rest h hr = hr
counter_lines-Lines ((name, n) ∷ cs) rest (here, later) hr = (
  clean-append (text "# TYPE ") (name ++ text " counter") (unfold contains text in refl)
      (clean-append name (text " counter") here (unfold contains text in refl)),
  (
    clean-append name (text " " ++ decimal n) here
        (clean-append (text " ") (decimal n) (unfold contains text in refl) (contains-decimal n)),
    counter_lines-Lines cs rest later hr,
  ),
)

counters-clean : (m : Metrics) → All (λ c. contains 10 c.0 ≡ false) (counters m)
unfolding contains text
counters-clean m = (refl, (refl, (refl, (refl, (refl, (refl, (refl, tt)))))))

namespace_lines-Lines :
    (quote : Text → Text) (counts : List (Text × ℕ)) (rest : List Text)
    → ((s : Text) → contains 10 (quote s) ≡ false)
    → Lines rest
    → Lines (namespace_lines quote counts ++ rest)
unfolding namespace_lines
namespace_lines-Lines quote [] rest q hr = hr
namespace_lines-Lines quote ((namespace, n) ∷ counts) rest q hr = (
  clean-append (text "lockd_locks_total{namespace=") (quote namespace ++ (text "} " ++ decimal n))
      (unfold contains text in refl)
      (clean-append (quote namespace) (text "} " ++ decimal n) (q namespace)
        (clean-append (text "} ") (decimal n) (unfold contains text in refl) (contains-decimal n))),
  namespace_lines-Lines quote counts rest q hr,
)

total_lines-Lines : (m : Metrics) (locks waiters : ℕ) → Lines (total_lines m locks waiters)
total_lines-Lines m locks waiters = (
  unfold contains text in refl,
  (
    clean-append (text "lockd_waiters_total") (text " " ++ decimal waiters)
        (unfold contains text in refl)
        (clean-append (text " ") (decimal waiters) (unfold contains text in refl)
          (contains-decimal waiters)),
    counter_lines-Lines (counters m) ((text "# lockd_registry_locks " ++ decimal locks) ∷ [])
        (counters-clean m)
        (
          clean-append (text "# lockd_registry_locks ") (decimal locks)
              (unfold contains text in refl) (contains-decimal locks),
          tt,
        ),
  ),
)

-- The lines of the namespaces are passed over.
find_value-namespaces :
    (name : Text) (quote : Text → Text) (counts : List (Text × ℕ)) (rest : List Text)
    → ((s : Text) → cut_prefix (text "lockd_locks_total{namespace=" ++ s) (name ++ text " ") ≡ none)
    → find_value name (namespace_lines quote counts ++ rest) ≡ find_value name rest
unfolding find_value namespace_lines
find_value-namespaces name quote [] rest h = refl
find_value-namespaces name quote ((namespace, n) ∷ counts) rest h =
    rw (h (quote namespace ++ (text "} " ++ decimal n)))
      (find_value-namespaces name quote counts rest h)

-- A value that stands behind its name in the lines after the namespaces is read from the page.
read_value-total :
    (name : Text) (quote : Text → Text) (m : Metrics) (locks waiters : ℕ) (counts : List (Text × ℕ))
    (v : Option ℕ)
    → ((s : Text) → contains 10 (quote s) ≡ false)
    → cut_prefix (text "# TYPE lockd_locks_total gauge") (name ++ text " ") ≡ none
    → ((s : Text) → cut_prefix (text "lockd_locks_total{namespace=" ++ s) (name ++ text " ") ≡ none)
    → find_value name (total_lines m locks waiters ++ [] ∷ []) ≡ v
    → read_value name (write_prometheus quote m locks waiters counts) ≡ v
unfolding write_prometheus
read_value-total name quote m locks waiters counts v q head skip found =
    let after = total_lines m locks waiters in
    let clean = namespace_lines-Lines quote counts after q (total_lines-Lines m locks waiters) in
    find_value-unlines name (page_lines quote m locks waiters counts)
      (unfold contains text in refl, clean)
    ∙ find_value-skip name (text "# TYPE lockd_locks_total gauge") _ head
    ∙ ap (find_value name) (append_assoc (namespace_lines quote counts) after ([] ∷ []))
    ∙ find_value-namespaces name quote counts (after ++ [] ∷ []) skip
    ∙ found

-- From the page that WritePrometheus writes, for a %q that writes no newline and numbers below 10
-- ^ 20, the number behind the name of the waiters or of any counter at the start of a line is read
-- back as the number that was written, whatever namespaces there are.
pub metrics_readable :
    (quote : Text → Text) (m : Metrics) (locks waiters : ℕ) (counts : List (Text × ℕ))
    → ((s : Text) → contains 10 (quote s) ≡ false)
    → waiters < 10 ^ 20
    → All (λ c. c.1 < 10 ^ 20) (counters m)
    → let page = write_prometheus quote m locks waiters counts in
      (read_value (text "lockd_waiters_total") page ≡ some waiters)
      × All (λ c. read_value c.0 page ≡ some c.1) (counters m)
unfolding find_value text cut_prefix counter_lines
metrics_readable quote m locks waiters counts q hw (h1, (h2, (h3, (h4, (h5, (h6, (h7, u))))))) = (
  read_value-total (text "lockd_waiters_total") quote m locks waiters counts (some waiters) q refl
      (λ s. refl) (rw (digits-decimal waiters hw) refl),
  (
    read_value-total (text "lockd_acquire_total") quote m locks waiters counts (some m.acquire) q
        refl (λ s. refl) (rw (digits-decimal m.acquire h1) refl),
    (
      read_value-total (text "lockd_acquire_locked_total") quote m locks waiters counts
          (some m.acquire_locked) q refl (λ s. refl) (rw (digits-decimal m.acquire_locked h2) refl),
      (
        read_value-total (text "lockd_renew_total") quote m locks waiters counts (some m.renew) q
            refl (λ s. refl) (rw (digits-decimal m.renew h3) refl),
        (
          read_value-total (text "lockd_renew_fail_total") quote m locks waiters counts
              (some m.renew_fail) q refl (λ s. refl) (rw (digits-decimal m.renew_fail h4) refl),
          (
            read_value-total (text "lockd_expiry_total") quote m locks waiters counts
                (some m.expiry) q refl (λ s. refl) (rw (digits-decimal m.expiry h5) refl),
            (
              read_value-total (text "lockd_steal_total") quote m locks waiters counts
                  (some m.steal) q refl (λ s. refl) (rw (digits-decimal m.steal h6) refl),
              (
                read_value-total (text "lockd_notify_total") quote m locks waiters counts
                    (some m.notify) q refl (λ s. refl) (rw (digits-decimal m.notify h7) refl),
                tt,
              ),
            ),
          ),
        ),
      ),
    ),
  ),
)
