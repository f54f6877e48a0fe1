-- ===== src/Lock/Expirer.antt =====
-- internal/lock/expirer.go: one pass of the background scan.
use lockd.Prelude.{
  ℕ, ◌-◌, Bool, true, ◌&&◌, Option, some, none, List, [], ◌∷◌, text, is_empty, nat_eq, ◌==◌,
  if◌then◌else◌, pos, ltb_ℤ, leb_ℤ, get_elem?, set,
}
use lockd.Lock.Types.{Time, EventKind, Lock}
use lockd.Lock.Queue.{active_length}
use lockd.Lock.Registry.{remove, all_records}
use lockd.Lock.Shared.{emit, expire_locked}
use lockd.Lock.Service.{Service}

-- `now.Sub(t) >= d` for a positive `d`. (A negative difference is below `d`, as 0 is.)
unfoldable pub is_cleanup_due : Lock → Time → Bool
is_cleanup_due item now =
    is_empty item.token
    && ltb_ℤ (pos 0) item.auto_cleanup
    && (active_length item.waiters item.queue == 0)
    && leb_ℤ item.auto_cleanup (pos (now - item.last_idle_at))

module _ (rand : ℕ → Option (List ℕ)) where
  -- Lines 35 to 43: the record is marked, removed from the registry and announced.
  unfoldable pub clean_up : Service → ℕ → Lock → Time → Service
  clean_up s a item now =
      let item' = record item { deleted = true } in
      let heap' = set s.registry.heap a item' in
      let (registry, _) = remove (record (s.registry) { heap = heap' }) a item' in
      record s {
        registry = registry;
        shared = emit s.shared item' EventKind.purged (text "auto_cleanup") now;
      }

  -- The body of the loop for a record that is not deleted.
  unfoldable pub scan : Service → ℕ → Lock → Time → Service
  unfolding is_cleanup_due clean_up
  scan s a item now =
      let (shared, item', _) = expire_locked rand s.shared item now in
      let s' = record s { shared = shared } in
      if is_cleanup_due item' now
      then clean_up s' a item' now
      else record s' { registry = record (s'.registry) { heap = set s'.registry.heap a item' } }

  abbrev pub scan_at : Service → ℕ → Option Lock → Time → Service
  scan_at s a none now = s
  scan_at s a (some item) now = if item.deleted then s else scan s a item now

  -- The loop over the records. Go visits them in any order: `items` is that order.
  unfoldable pub expire_items : Service → List ℕ → Time → Service
  unfolding scan
  expire_items s [] now = s
  expire_items s (a ∷ items) now =
      expire_items (scan_at s a (get_elem? s.registry.heap a) now) items now

  -- `expirePass`.
  unfoldable pub expire_pass : Service → Time → Service
  unfolding expire_items
  expire_pass s now = expire_items s (all_records s.registry) now
