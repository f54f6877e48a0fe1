-- ===== src/Lock/Watch/Wakeup.antt =====
-- A watch and the event that follows its look at the record: internal/lock/service.go and notify.go.
use lockd.Prelude.{[], text_eq, nat_eq}
use lockd.Lock.Notify.{Channel}
use lockd.Lock.Registry.{Registry}

abbrev empty_channel : Channel
empty_channel = record { capacity = 8; items = [] }
