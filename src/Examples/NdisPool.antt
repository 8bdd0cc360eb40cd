-- ===== src/Examples/NdisPool.antt =====
-- driver/ndis.c: a packet pool of one packet.
use ndiswrapper.Base.{◌<◌, ◌≡◌, ◌≢◌, ◌⊎◌, refl, inr, false, [], ◌∷◌, arith, has}
use ndiswrapper.NdisPool.{Packets, ndis_allocate_packet_pool_ex, ndis_allocate_packet}
use ndiswrapper.NdisPool.Conserve.{Reach, created, allocates, allocated_packet_is_new}

abbrev empty : Packets
empty = record { pool = ndis_allocate_packet_pool_ex 1 0; stack = λ _. 0; freed = [] }

empty-Reach : Reach empty []
empty-Reach = created 1 0 (λ _. 0) [] (omega arith)

abbrev one : Packets
one = (ndis_allocate_packet empty 40).0

one-Reach : Reach one (40 ∷ [])
unfolding ndis_allocate_packet ndis_allocate_packet_pool_ex
one-Reach = allocates empty [] 40 (inr refl) empty-Reach

allocated_packet_is_new_example :
    ((ndis_allocate_packet one 41 ≡ (one, 0xC000009A, 0))
      × ((one.pool.free_descr ≡ []) ⊎ (one.pool.max_descr < 1)))
    ⊎ (((ndis_allocate_packet one 41).1 ≡ 0)
        × ((ndis_allocate_packet one 41).2 ≢ 0)
        × (has (ndis_allocate_packet one 41).2 (40 ∷ []) ≡ false))
unfolding ndis_allocate_packet ndis_allocate_packet_pool_ex
allocated_packet_is_new_example = allocated_packet_is_new one (40 ∷ []) 41 (inr refl) one-Reach
