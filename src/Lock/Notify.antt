-- ===== src/Lock/Notify.antt =====
-- internal/lock/notify.go: the event bus. A channel holds what was sent and not yet received.
pub mod Delivery
use lockd.Prelude.{
  ℕ, ◌+◌, Bool, true, false, List, [], ◌∷◌, ◌++◌, nat_eq, ltb, if◌then◌else◌, length, insert,
  delete, ℤ, ltb_ℤ, pos, pos_part,
}
use lockd.Lock.Types.{Event, next64}

pub record Channel : Type 0 where
  pub capacity : ℕ
  pub items : List Event

pub record Bus : Type 0 where
  pub next_id : ℕ
  pub subs : List (ℕ × Channel)

abbrev pub new_bus : Bus
new_bus = record { next_id = 0; subs = [] }

-- The bus and the id under which the new channel stands.
unfoldable pub subscribe : Bus → ℤ → Bus × ℕ
subscribe b buffer =
    let size : ℕ = if ltb_ℤ buffer (pos 1) then 1 else pos_part buffer in
    let id = next64 b.next_id in
    (
      record b { next_id = id; subs = insert id (record { capacity = size; items = [] }) b.subs },
      id,
    )

-- The `cancel` that `Subscribe` returns.
unfoldable pub unsubscribe : Bus → ℕ → Bus
unsubscribe b id = record b { subs = delete id b.subs }

-- `select { case channel <- event: ... default: }`: whether it was sent, and the channel.
unfoldable pub offer : Channel → Event → Channel × Bool
offer c event =
    if ltb (length c.items) c.capacity
    then (record c { items = c.items ++ event ∷ [] }, true)
    else (c, false)

-- The loop over the subscribers, with the number of deliveries.
unfoldable pub deliver : List (ℕ × Channel) → Event → List (ℕ × Channel) × ℕ
unfolding offer
deliver [] event = ([], 0)
deliver ((id, c) ∷ subs) event =
    let rest = deliver subs event in
    let (c', sent) = offer c event in ((id, c') ∷ rest.0, (if sent then 1 else 0) + rest.1)

unfoldable pub broadcast : Bus → Event → Bus × ℕ
unfolding deliver
broadcast b event =
    let (subs, delivered) = deliver b.subs event in (record b { subs = subs }, delivered)
