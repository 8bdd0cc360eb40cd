-- ===== src/NdisPool/Conserve.antt =====
-- driver/ndis.c: what a packet pool keeps over any sequence of allocations and releases.
use ndiswrapper.Base.{
  ℕ, ◌-◌, ◌^◌, ◌≤◌, ◌<◌, ◌≡◌, ◌≢◌, refl, sym, true, false, List, [], ◌∷◌, ◌++◌, arith, ltb, ltb→lt,
  List-cases, has, Distinct, has-append, erase, length, Bool-cases, ◌⊎◌, inl, inr,
}
use ndiswrapper.NdisPool.Lists.{reuse_Distinct}
use ndiswrapper.NdisPool.Steps.{
  IsPool, held, IsFresh, allocate_full, allocate_reuses, allocate_grows, allocate_fails,
  allocate_IsPool, free_IsPool,
}
use ndiswrapper.NdisPool.{
  Packets, ndis_allocate_packet, ndis_free_packet, ndis_allocate_packet_pool_ex,
}

-- The pool after any sequence of calls, with the packets that the driver holds. The driver frees only
-- packets that it holds.
pub data Reach : Packets → List ℕ → Type 0 where
  created :
      (num_descr proto_rsvd_length : ℕ) (stack : ℕ → ℕ) (freed : List ℕ)
      → num_descr < 2 ^ 32 - 1
      → Reach
          (record {
            pool = ndis_allocate_packet_pool_ex num_descr proto_rsvd_length;
            stack = stack;
            freed = freed;
          })
          []
  allocates :
      (s : Packets) (used : List ℕ) (fresh : ℕ)
      → (fresh ≡ 0) ⊎ IsFresh s used fresh
      → Reach s used
      → Reach (ndis_allocate_packet s fresh).0 (held used (ndis_allocate_packet s fresh).2)
  frees :
      (s : Packets) (used : List ℕ) (p : ℕ)
      → has p used ≡ true
      → Reach s used
      → Reach (ndis_free_packet s p) (erase p used)

created_IsPool :
    (num_descr proto_rsvd_length : ℕ) (stack : ℕ → ℕ) (freed : List ℕ)
    → num_descr < 2 ^ 32 - 1
    → IsPool
        (record {
          pool = ndis_allocate_packet_pool_ex num_descr proto_rsvd_length;
          stack = stack;
          freed = freed;
        })
        []
unfolding ndis_allocate_packet_pool_ex
created_IsPool num_descr proto_rsvd_length stack freed h = record {
  used_count = refl;
  allocated_count = refl;
  distinct = tt;
  bounded = omega arith;
  real = refl;
  small = h;
}

pub Reach-IsPool : (s : Packets) (used : List ℕ) → Reach s used → IsPool s used
Reach-IsPool s used (created n l stack freed h) = created_IsPool n l stack freed h
Reach-IsPool s used (allocates s0 used0 fresh f r) =
    allocate_IsPool s0 used0 fresh f (Reach-IsPool s0 used0 r)
Reach-IsPool s used (frees s0 used0 p h r) = free_IsPool s0 used0 p h (Reach-IsPool s0 used0 r)

-- NdisAllocatePacket in such a pool either succeeds with a packet that the driver does not hold, or
-- returns NDIS_STATUS_RESOURCES and NULL and changes nothing; it succeeds whenever a packet is free
-- and no more than `max_descr` are in use.
pub allocated_packet_is_new :
    (s : Packets) (used : List ℕ) (fresh : ℕ)
    → (fresh ≡ 0) ⊎ IsFresh s used fresh
    → Reach s used
    → ((ndis_allocate_packet s fresh ≡ (s, 0xC000009A, 0))
        × ((s.pool.free_descr ≡ []) ⊎ (s.pool.max_descr < length used)))
      ⊎ (((ndis_allocate_packet s fresh).1 ≡ 0)
          × ((ndis_allocate_packet s fresh).2 ≢ 0)
          × (has (ndis_allocate_packet s fresh).2 used ≡ false))
allocated_packet_is_new s used fresh f r =
    let c = Reach-IsPool s used r in
    elim (Bool-cases (ltb s.pool.max_descr s.pool.num_used_descr)) [
      | inl full ↦
          let more : s.pool.max_descr < s.pool.num_used_descr = ltb→lt _ _ full in
          inl (allocate_full s fresh more, inr (omega (arith, c.used_count)))
      | inr room ↦
          let n : s.pool.num_used_descr ≤ s.pool.max_descr = ground arith in
          elim (List-cases s.pool.free_descr) [
            | inr (p, ps, e) ↦
                let z : has 0 (used ++ p ∷ ps) ≡ false = rw (sym e) c.real in
                let d : Distinct (used ++ p ∷ ps) = rw (sym e) c.distinct in
                let real : p ≢ 0 = λ q. ground (arith, z, has-append 0 used (p ∷ ps)) in
                let new : has p used ≡ false =
                  ground (arith, (reuse_Distinct p used ps d).0, has-append p used ps) in
                inr (rw (allocate_reuses s fresh p ps n e) (refl, real, new))
            | inl e ↦ elim f [
              | inl z ↦ inl (allocate_fails s fresh e z, inl e)
              | inr new ↦
                  let real : fresh ≢ 0 = ground arith in
                  let other : has fresh used ≡ false =
                    ground (arith, has-append fresh used s.pool.free_descr) in
                  inr (rw (allocate_grows s fresh n e real) (refl, real, other))
            ]
          ]
    ]
