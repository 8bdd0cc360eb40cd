-- ===== src/NdisPool.antt =====
-- driver/ndis.c: the pools of packets of a network driver (NdisAllocatePacketPoolEx, NdisAllocatePacket,
-- NdisFreePacket and their relatives). A packet is named by its address, NULL is 0; what kmalloc
-- returned is a parameter. The counters of a pool are unsigned numbers of 32 bits.
pub mod Lists
pub mod Steps
pub mod Conserve
use ndiswrapper.Base.{
  ℕ, zero, suc, ◌+◌, ◌-◌, ◌%◌, ◌^◌, Bool, true, false, Option, none, some, List, [], ◌∷◌, ◌++◌,
  ◌==◌, if◌then◌else◌, ltb, update,
}

abbrev pub ndis_status_success : ℕ
ndis_status_success = 0

abbrev pub ndis_status_resources : ℕ
ndis_status_resources = 0xC000009A

abbrev pub max_allocated_ndis_packets : ℕ
max_allocated_ndis_packets = 16

-- `struct ndis_packet_pool`; the list `free_descr`, which the packets link with `reserved[0]`, is a
-- list of packets, the first one at its head.
pub record PacketPool : Type 0 where
  pub free_descr : List ℕ
  pub max_descr : ℕ
  pub num_allocated_descr : ℕ
  pub num_used_descr : ℕ
  pub proto_rsvd_length : ℕ

-- The pool with what was given back to kfree, the last one first, and the packet stacks that
-- `reserved[1]` of the packets points at.
pub record Packets : Type 0 where
  pub pool : PacketPool
  pub stack : ℕ → ℕ
  pub freed : List ℕ

abbrev pub inc : ℕ → ℕ
inc n = (n + 1) % 2 ^ 32

abbrev pub dec : ℕ → ℕ
dec n = (n + (2 ^ 32 - 1)) % 2 ^ 32

unfoldable pub ndis_allocate_packet_pool_ex : ℕ → ℕ → PacketPool
ndis_allocate_packet_pool_ex num_descr proto_rsvd_length = record {
  free_descr = [];
  max_descr = num_descr;
  num_allocated_descr = 0;
  num_used_descr = 0;
  proto_rsvd_length = proto_rsvd_length;
}

-- The packet `p` is handed out, and cleared by the memset.
abbrev pub hand_out : Packets → ℕ → PacketPool → Packets
hand_out s p pool = record s {
  pool = record pool { num_used_descr = inc pool.num_used_descr };
  stack = update s.stack p 0;
}

-- The status and the packet; `fresh` is what kmalloc returns when it is called.
unfoldable pub ndis_allocate_packet : Packets → ℕ → Packets × ℕ × ℕ
ndis_allocate_packet s fresh =
    let pool = s.pool in
    if ltb pool.max_descr pool.num_used_descr
    then (s, ndis_status_resources, 0)
    else elim pool.free_descr [
      | p ∷ ps ↦ (hand_out s p (record pool { free_descr = ps }), ndis_status_success, p)
      | [] ↦ if fresh == 0 then (s, ndis_status_resources, 0) else (
        hand_out s fresh (record pool { num_allocated_descr = inc pool.num_allocated_descr }),
        ndis_status_success,
        fresh,
      )
    ]

-- The packet's stack is freed first, if it has one.
pub ndis_free_packet : Packets → ℕ → Packets
ndis_free_packet s packet =
    let pool = record s.pool { num_used_descr = dec s.pool.num_used_descr } in
    let freed = if s.stack packet == 0 then s.freed else s.stack packet ∷ s.freed in
    let stack = update s.stack packet 0 in
    if ltb max_allocated_ndis_packets pool.num_allocated_descr
    then record {
      pool = record pool { num_allocated_descr = dec pool.num_allocated_descr };
      stack = stack;
      freed = packet ∷ freed;
    }
    else record {
      pool = record pool { free_descr = packet ∷ pool.free_descr };
      stack = stack;
      freed = freed;
    }

pub ndis_packet_pool_usage : PacketPool → ℕ
ndis_packet_pool_usage pool = pool.num_used_descr

-- NdisFreePacketPool: the packets of the free list go back to kfree, those in use do not.
pub ndis_free_packet_pool : Packets → Packets
ndis_free_packet_pool s = record s {
  pool = record s.pool { num_allocated_descr = 0; num_used_descr = 0; free_descr = [] };
  freed = s.pool.free_descr ++ s.freed;
}
