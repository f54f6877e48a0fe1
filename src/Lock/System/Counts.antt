-- ===== src/Lock/System/Counts.antt =====
-- How the number of live records of a namespace changes.
use lockd.Prelude.{
  ℕ, zero, suc, ◌+◌, ◌≡◌, refl, true, false, some, List, [], ◌∷◌, ◌++◌, Text, text_eq, ◌==◌,
  if◌then◌else◌, get_elem?, set, arith,
}
use lockd.Lock.Types.{Lock}
use lockd.Lock.System.{live_count}

pub live_count-set_same :
    (ns : Text) (heap : List Lock) (a : ℕ) (item item' : Lock)
    → get_elem? heap a ≡ some item
    → item'.namespace ≡ item.namespace
    → item'.deleted ≡ item.deleted
    → live_count ns (set heap a item') ≡ live_count ns heap
unfolding live_count get_elem? set
live_count-set_same ns [] a item item' e n d = refl
live_count-set_same ns (x ∷ heap) zero item item' e n d = ground arith
live_count-set_same ns (x ∷ heap) (suc a) item item' e n d =
    ground (arith, live_count-set_same ns heap a item item' e n d)

pub live_count-set_deleted :
    (ns : Text) (heap : List Lock) (a : ℕ) (item item' : Lock)
    → get_elem? heap a ≡ some item
    → item.deleted ≡ false
    → item'.deleted ≡ true
    → live_count ns heap
      ≡ (if item.namespace == ns then 1 else 0) + live_count ns (set heap a item')
unfolding live_count get_elem? set
live_count-set_deleted ns [] a item item' e d d' = absurd (cc)
live_count-set_deleted ns (x ∷ heap) zero item item' e d d' = ground arith
live_count-set_deleted ns (x ∷ heap) (suc a) item item' e d d' =
    ground (arith, live_count-set_deleted ns heap a item item' e d d')

pub live_count-append :
    (ns : Text) (heap : List Lock) (item : Lock)
    → item.deleted ≡ false
    → live_count ns (heap ++ item ∷ [])
      ≡ (if item.namespace == ns then 1 else 0) + live_count ns heap
unfolding live_count
live_count-append ns [] item d = ground arith
live_count-append ns (x ∷ heap) item d = ground (arith, live_count-append ns heap item d)
