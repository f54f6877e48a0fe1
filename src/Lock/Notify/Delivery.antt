-- ===== src/Lock/Notify/Delivery.antt =====
-- What a broadcast of internal/lock/notify.go does to the channels of the subscribers.
use lockd.Prelude.{
  ℕ, ◌+◌, ◌≤◌, ◌<◌, ◌≡◌, refl, some, List, [], ◌∷◌, ◌++◌, nat_eq, length, length-append, lookup,
  All, ◌⊎◌, arith, Bool-cases, inl, inr, ◌==◌,
}
use lockd.Lock.Types.{Event}
use lockd.Lock.Notify.{Bus, Channel, offer, deliver, broadcast}

-- All events that stand in channels.
abbrev pub pending : List (ℕ × Channel) → ℕ
pending [] = 0
pending ((id, c) ∷ subs) = length c.items + pending subs

abbrev pub Fits : ℕ × Channel → Type 0
Fits (id, c) = length c.items ≤ c.capacity

-- A channel after an event was offered to it: at the end of a channel with room, nowhere else.
abbrev pub Offered : Event → Channel → Channel → Type 0
Offered event c c' =
    ((length c.items < c.capacity) × (c' ≡ record c { items = c.items ++ event ∷ [] }))
    ⊎ ((c.capacity ≤ length c.items) × (c' ≡ c))

pending-deliver :
    (subs : List (ℕ × Channel)) (event : Event)
    → pending (deliver subs event).0 ≡ pending subs + (deliver subs event).1
unfolding deliver offer
pending-deliver [] event = refl
pending-deliver ((id, c) ∷ subs) event =
    ground (arith, pending-deliver subs event, length-append c.items (event ∷ []))

deliver-Fits :
    (subs : List (ℕ × Channel)) (event : Event) → All Fits subs → All Fits (deliver subs event).0
unfolding deliver offer
deliver-Fits [] event h = tt
deliver-Fits ((id, c) ∷ subs) event h =
    ground (arith, deliver-Fits subs event h.1, length-append c.items (event ∷ []))

offer-Offered : (c : Channel) (event : Event) → Offered event c (offer c event).0
unfolding offer
offer-Offered c event = ground arith

pub deliver-Offered :
    (subs : List (ℕ × Channel)) (event : Event) (id : ℕ) (c : Channel)
    → lookup id subs ≡ some c
    → (c' : Channel) × (lookup id (deliver subs event).0 ≡ some c') × Offered event c c'
unfolding deliver lookup offer
deliver-Offered [] event id c e = absurd (cc)
deliver-Offered ((j, d) ∷ subs) event id c e = elim (Bool-cases (j == id)) [
  | inl here ↦ ((offer c event).0, ground arith, offer-Offered c event)
  | inr there ↦
      let (c', found, o) = deliver-Offered subs event id c (ground arith) in (c', rw there found, o)
]

-- From channels that hold no more than fits, a broadcast overfills none; a subscriber with room
-- gets the event at the end of its channel, one without keeps what it has, and the number that is
-- returned is that of the events that were added to all channels.
pub broadcast_delivers :
    (b : Bus) (event : Event) (id : ℕ) (c : Channel)
    → All Fits b.subs
    → lookup id b.subs ≡ some c
    → let r = broadcast b event in
      All Fits r.0.subs
      × (pending r.0.subs ≡ pending b.subs + r.1)
      × ((c' : Channel) × (lookup id r.0.subs ≡ some c') × Offered event c c')
unfolding broadcast
broadcast_delivers b event id c h e =
    (deliver-Fits b.subs event h, pending-deliver b.subs event, deliver-Offered b.subs event id c e)
