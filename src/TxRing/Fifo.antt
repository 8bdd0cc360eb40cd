-- ===== src/TxRing/Fifo.antt =====
-- driver/wrapndis.c: the ring is a queue over any sequence of calls of tx_skbuff and of rounds of
-- tx_worker.
use ndiswrapper.Base.{ℕ, Option, none, some, List, [], ◌∷◌, if◌then◌else◌}
use ndiswrapper.TxRing.{TxRing, NdisDevice, Miniport, enqueue, tx_round}

pub data TxEvent : Type 0 where
  queues : ℕ → TxEvent
  works : TxEvent

-- The packets that the events queue, in order.
unfoldable pub offered : List TxEvent → List ℕ
offered [] = []
offered (queues p ∷ es) = p ∷ offered es
offered (works ∷ es) = offered es

-- The device after the events. Linux does not call tx_skbuff while the flag is set, since that stopped
-- the queue: `none` where it does.
unfoldable pub run_tx : Miniport → NdisDevice → List TxEvent → Option NdisDevice
run_tx mp d [] = some d
run_tx mp d (queues p ∷ es) =
    let rest = run_tx mp (enqueue d p) es in if d.ring.is_tx_ring_full then none else rest
run_tx mp d (works ∷ es) = elim (tx_round mp d) [
  | none ↦ run_tx mp d es
  | some (d', sent) ↦ run_tx mp d' es
]
