-- ===== src/TxRing.antt =====
-- driver/wrapndis.c: the ring of packets that wait for the miniport driver (tx_skbuff, tx_worker,
-- mp_tx_packets, free_tx_packet) and its end in ndis_remove_device. The miniport driver is a
-- parameter. A packet is named by its address. The buffer of a packet and its DMA mapping, which
-- free_tx_packet releases too, are left out.
pub mod Slots
pub mod Queue
pub mod Worker
pub mod Fifo
pub mod Remove
pub mod Race
pub mod Complete
use ndiswrapper.Base.{
  ℕ, zero, suc, ◌+◌, ◌-◌, ◌*◌, ◌/◌, ◌%◌, ◌^◌, Bool, true, false, ◌&&◌, ◌||◌, Option, none, some,
  List, [], ◌∷◌, ◌++◌, ◌==◌, if◌then◌else◌, ltb, leb, min, update,
}
use ndiswrapper.NdisPool.{
  Packets, ndis_status_success, ndis_status_resources, ndis_free_packet, inc,
}

abbrev pub tx_ring_size : ℕ
tx_ring_size = 16

abbrev pub ndis_status_pending : ℕ
ndis_status_pending = 0x103

abbrev pub ndis_status_not_recognized : ℕ
ndis_status_not_recognized = 0x10001

abbrev pub ndis_status_failure : ℕ
ndis_status_failure = 0xC0000001

abbrev pub ndis_status_closing : ℕ
ndis_status_closing = 0xC0010002

-- The fields of `struct ndis_device` that make up the ring.
pub record TxRing : Type 0 where
  pub tx_ring : ℕ → ℕ
  pub tx_ring_start : ℕ
  pub tx_ring_end : ℕ
  pub is_tx_ring_full : Bool

-- `status`, `len` and `skb` are fields of the packets, `freed_skbs` the calls of dev_kfree_skb_any in
-- order, and `wakeq` the bit NETIF_WAKEQ of the pending work. `handed` records, in order, the packets
-- that the driver got and did not give back with NDIS_STATUS_RESOURCES; no code reads it.
pub record NdisDevice : Type 0 where
  pub ring : TxRing
  pub tx_ok : Bool
  pub max_tx_packets : ℕ
  pub packets : Packets
  pub status : ℕ → ℕ
  pub len : ℕ → ℕ
  pub skb : ℕ → ℕ
  pub freed_skbs : List ℕ
  pub handed : List ℕ
  pub tx_bytes : ℕ
  pub tx_packets : ℕ
  pub tx_dropped : ℕ
  pub queue_stopped : Bool
  pub wakeq : Bool

-- The counters of `net_stats` have 64 bits.
abbrev pub count_packet : NdisDevice → ℕ → ℕ → NdisDevice
count_packet d packet status =
    if status == ndis_status_success
    then record d {
      tx_bytes = (d.tx_bytes + d.len packet) % 2 ^ 64;
      tx_packets = (d.tx_packets + 1) % 2 ^ 64;
    }
    else record d { tx_dropped = (d.tx_dropped + 1) % 2 ^ 64 }

unfoldable pub free_tx_packet : NdisDevice → ℕ → ℕ → NdisDevice
free_tx_packet d packet status =
    let c = count_packet d packet status in
    let packets = ndis_free_packet c.packets packet in
    let pool = packets.pool in
    let room = (pool.max_descr + (2 ^ 32 - pool.num_used_descr)) % 2 ^ 32 in
    record c {
      packets = packets;
      freed_skbs = c.freed_skbs ++ c.skb packet ∷ [];
      wakeq = if c.queue_stopped && leb (c.max_tx_packets / 4) room then true else c.wakeq;
    }

-- The part of tx_skbuff under the lock of the ring.
unfoldable pub enqueue : NdisDevice → ℕ → NdisDevice
enqueue d packet =
    let r = d.ring in
    let end = if r.tx_ring_end + 1 == tx_ring_size then 0 else r.tx_ring_end + 1 in
    let full = end == r.tx_ring_start in
    record d {
      ring = record r {
        tx_ring = update r.tx_ring r.tx_ring_end packet;
        tx_ring_end = end;
        is_tx_ring_full = if full then true else r.is_tx_ring_full;
      };
      queue_stopped = if full then true else d.queue_stopped;
    }

-- NETDEV_TX_OK is 0 and NETDEV_TX_BUSY 16; `packet` is what alloc_tx_packet returned.
pub tx_skbuff : NdisDevice → ℕ → NdisDevice × ℕ
tx_skbuff d packet =
    if packet == 0 then (record d { queue_stopped = true }, 16) else (enqueue d packet, 0)

-- What a packet that the driver returned with `res` needs: whether it stays, and the device. `other`
-- says what the `default` of the switch does.
unfoldable pub return_status :
    (NdisDevice → ℕ → ℕ → NdisDevice) → NdisDevice → ℕ → ℕ → NdisDevice × Bool
return_status other d packet res =
    if res == ndis_status_success || res == ndis_status_failure
    then (free_tx_packet d packet res, false)
    else if res == ndis_status_pending
    then (d, false)
    else if res == ndis_status_resources
    then (record d { tx_ok = false }, true)
    else (other d packet res, false)

-- The driver has answered `res` for a packet that it got.
unfoldable pub hand : NdisDevice → ℕ → ℕ → NdisDevice
hand d packet res =
    if res == ndis_status_resources then d else record d { handed = d.handed ++ packet ∷ [] }

-- The loops of mp_tx_packets: `ask` gets the driver's status of a packet. NDIS_STATUS_RESOURCES takes
-- the packet back from the count and ends the loop, since `tx_ok` is 0 then.
unfoldable pub tx_loop :
    (NdisDevice → ℕ → NdisDevice × ℕ)
    → (NdisDevice → ℕ → ℕ → NdisDevice)
    → ℕ
    → ℕ
    → ℕ
    → NdisDevice
    → NdisDevice × ℕ
tx_loop ask other start zero sent d = (d, sent)
tx_loop ask other start (suc left) sent d =
    let packet = d.ring.tx_ring (start + sent) in
    let (asked, res) = ask d packet in
    let (d', stays) = return_status other (hand asked packet res) packet res in
    let rest = tx_loop ask other start left (suc sent) d' in
    if d.tx_ok then (if stays then (d', sent) else rest) else (d, sent)

-- The packets in the slots from `start` on, which the driver gets as an array.
unfoldable pub array : (ℕ → ℕ) → ℕ → ℕ → List ℕ
array f start zero = []
array f start (suc n) = f start ∷ array f (suc start) n

-- The miniport driver: MiniportSendPackets, if it has it, and MiniportSend.
pub record Miniport : Type 0 where
  pub deserialized : Bool
  pub send_packets : Option (NdisDevice → List ℕ → NdisDevice)
  pub send : NdisDevice → ℕ → NdisDevice × ℕ

-- xchg of the packet's status.
unfoldable pub take_status : NdisDevice → ℕ → NdisDevice × ℕ
take_status d packet =
    (record d { status = update d.status packet ndis_status_not_recognized }, d.status packet)

unfoldable pub mp_tx_packets : Miniport → NdisDevice → ℕ → ℕ → NdisDevice × ℕ
mp_tx_packets mp d start n = elim mp.send_packets [
  | some send_packets ↦
      let packets = array d.ring.tx_ring start n in
      let d' = send_packets d packets in
      if mp.deserialized
      then (record d' { handed = d'.handed ++ packets }, n)
      else tx_loop take_status (λ e packet res. free_tx_packet e packet (e.status packet)) start n 0
          d'
  | none ↦
      tx_loop
        (λ e packet.
          mp.send (record e { status = update e.status packet ndis_status_not_recognized }) packet)
        (λ e packet res. e) start n 0 d
]

-- The number of packets that tx_worker offers, which do not wrap around the ring.
unfoldable pub batch : TxRing → ℕ
batch r =
    if r.tx_ring_end == r.tx_ring_start
    then (if r.is_tx_ring_full then tx_ring_size - r.tx_ring_start else 0)
    else if ltb r.tx_ring_end r.tx_ring_start
    then tx_ring_size - r.tx_ring_start
    else r.tx_ring_end - r.tx_ring_start

-- The two writes behind mp_tx_packets, which do not hold the lock of the ring.
abbrev pub advance : NdisDevice → ℕ → NdisDevice
advance d n = record d {
  ring = record d.ring { tx_ring_start = (d.ring.tx_ring_start + n) % tx_ring_size };
}

abbrev pub clear_full : NdisDevice → NdisDevice
clear_full d = record d { ring = record d.ring { is_tx_ring_full = false } }

-- One round of the loop of tx_worker with `tx_ok` set, and the number of packets that it has sent;
-- `none` where the loop ends.
unfoldable pub tx_round : Miniport → NdisDevice → Option (NdisDevice × ℕ)
tx_round mp d =
    let n = batch d.ring in
    let (d', sent) = mp_tx_packets mp d d.ring.tx_ring_start (min n d.max_tx_packets) in
    if n == 0 then none else some (if sent == 0 then d' else clear_full (advance d' sent), sent)

-- ndis_remove_device: how many packets it throws away, in the order of the assignments.
pub tx_pending : TxRing → ℕ
tx_pending r =
    if ltb r.tx_ring_end r.tx_ring_start
    then r.tx_ring_end + tx_ring_size - r.tx_ring_start
    else if r.tx_ring_end - r.tx_ring_start == 0 && r.is_tx_ring_full
    then tx_ring_size - 1
    else r.tx_ring_end - r.tx_ring_start

pub throw_away : ℕ → NdisDevice → NdisDevice
throw_away zero d = d
throw_away (suc n) d =
    let packet = d.ring.tx_ring d.ring.tx_ring_start in
    throw_away n (advance (free_tx_packet d packet ndis_status_closing) 1)

pub remove_pending : NdisDevice → NdisDevice
remove_pending d = throw_away (tx_pending d.ring) (clear_full (record d { tx_ok = false }))
