-- ===== src/Examples/TxRing.antt =====
-- driver/wrapndis.c: the ring of packets to send, on concrete devices.
use ndiswrapper.Base.{
  ℕ, ◌+◌, ◌≡◌, refl, inl, true, false, Bool, Option, none, some, List, [], ◌∷◌, ◌++◌, arith, length,
}
use ndiswrapper.TxRing.{
  NdisDevice, Miniport, array, enqueue, batch, mp_tx_packets, tx_round, tx_loop, return_status,
  hand, advance, clear_full,
}
use ndiswrapper.TxRing.Slots.{queued, contents, IsRing}
use ndiswrapper.TxRing.Fifo.{TxEvent, queues, works, run_tx}
use ndiswrapper.TxRing.Complete.{ndis_m_send_complete, take_back, pending_packet_frees_once}
use ndiswrapper.TxRing.Race.{enqueue_all, late_clear_empties_ring}

-- The packets 100, 101, ... stand in the slots, and the sk_buff of packet p is p + 1000.
abbrev device : ℕ → ℕ → Bool → NdisDevice
device start end full = record {
  ring = record {
    tx_ring = λ i. i + 100;
    tx_ring_start = start;
    tx_ring_end = end;
    is_tx_ring_full = full;
  };
  tx_ok = true;
  max_tx_packets = 16;
  packets = record {
    pool = record {
      free_descr = [];
      max_descr = 16;
      num_allocated_descr = 16;
      num_used_descr = 16;
      proto_rsvd_length = 0;
    };
    stack = λ _. 0;
    freed = [];
  };
  status = λ _. 0;
  len = λ _. 60;
  skb = λ p. p + 1000;
  freed_skbs = [];
  handed = [];
  tx_bytes = 0;
  tx_packets = 0;
  tx_dropped = 0;
  queue_stopped = full;
  wakeq = false;
}

-- A driver that takes every packet and completes it later.
abbrev miniport : Miniport
miniport = record { deserialized = false; send_packets = none; send = λ d p. (d, 0x103) }

-- Two packets stand in the last slot and the first, and one more comes.
abbrev events : List TxEvent
events = queues 7 ∷ works ∷ works ∷ []

abbrev wrapped : NdisDevice
wrapped = device 15 1 false

abbrev device_of : Option NdisDevice → NdisDevice
device_of none = wrapped
device_of (some d) = d

abbrev final : NdisDevice
final = device_of (run_tx miniport wrapped events)

events_hand : final.handed ≡ 115 ∷ 100 ∷ 7 ∷ []
unfolding run_tx tx_round batch mp_tx_packets tx_loop return_status enqueue array hand
events_hand = refl

abbrev full : NdisDevice
full = device 3 3 true

full-IsRing : IsRing full.ring
full-IsRing = record { start = omega arith; end = omega arith; full = λ e. refl }

-- Fifteen packets wait, one is sent, and two come.
abbrev nearly_full : NdisDevice
nearly_full = device 3 2 false

late_clear_empties_ring_example :
    let between = enqueue_all (advance nearly_full 1) (8 ∷ 9 ∷ []) in
    (length (contents between.ring) ≡ 16) × (contents (clear_full between).ring ≡ [])
unfolding queued
late_clear_empties_ring_example =
    late_clear_empties_ring nearly_full 1 (8 ∷ 9 ∷ [])
      (record { start = omega arith; end = omega arith; full = λ e. absurd (ground arith) }) refl
      (omega arith) (omega arith) (omega arith)

-- The packet 100 is with the driver.
abbrev sending : NdisDevice
sending = record (device 0 1 false) { status = λ _. 0x103 }

pending_packet_frees_once_example :
    let late = (ndis_m_send_complete false (take_back sending 100) 100 0).0 in
    let early = take_back (ndis_m_send_complete false sending 100 0).0 100 in
    (late.freed_skbs ≡ [] ++ 1100 ∷ [])
    × (early.freed_skbs ≡ [] ++ 1100 ∷ [])
    × (late.tx_dropped ≡ 0)
    × (early.tx_dropped ≡ 0)
pending_packet_frees_once_example = pending_packet_frees_once sending 100 0 refl (inl refl)
