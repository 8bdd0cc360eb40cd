-- ===== src/NdisPool/Steps.antt =====
-- driver/ndis.c: what an allocation and a release keep of a packet pool.
use ndiswrapper.Base.{
  ℕ, suc, ◌+◌, ◌-◌, ◌^◌, ◌≤◌, ◌<◌, ◌≡◌, ◌≢◌, sym, ap, true, false, List, [], ◌∷◌, ◌++◌, arith, ltb,
  ltb→lt, List-cases, ◌==◌, if◌then◌else◌, has, Distinct, has-append, erase, length, Bool-cases,
  ◌⊎◌, inl, inr,
}
use ndiswrapper.NdisPool.Lists.{
  length-erase, has-erase-append, release_Distinct, drop_Distinct, reuse_Distinct,
}
use ndiswrapper.NdisPool.{Packets, hand_out, inc, ndis_allocate_packet, ndis_free_packet}

-- `used` are the packets that the driver holds. Each counter counts what its name says, no packet is
-- both held and free or held twice, and the pool has at most one packet more than `max_descr`.
pub record IsPool (s : Packets) (used : List ℕ) : Type 0 where
  pub used_count : s.pool.num_used_descr ≡ length used
  pub allocated_count : s.pool.num_allocated_descr ≡ length used + length s.pool.free_descr
  pub distinct : Distinct (used ++ s.pool.free_descr)
  pub bounded : length used + length s.pool.free_descr ≤ suc s.pool.max_descr
  pub real : has 0 (used ++ s.pool.free_descr) ≡ false
  pub small : s.pool.max_descr < 2 ^ 32 - 1

-- The packets that are held after a call returned `p`.
abbrev pub held : List ℕ → ℕ → List ℕ
held used p = if p == 0 then used else p ∷ used

-- What kmalloc may return: NULL, or an address that is in use nowhere.
abbrev pub IsFresh : Packets → List ℕ → ℕ → Type 0
IsFresh s used fresh = has fresh (0 ∷ used ++ s.pool.free_descr) ≡ false

pub allocate_full :
    (s : Packets) (fresh : ℕ)
    → s.pool.max_descr < s.pool.num_used_descr
    → ndis_allocate_packet s fresh ≡ (s, 0xC000009A, 0)
unfolding ndis_allocate_packet
allocate_full s fresh h = ground arith

-- The packet on the free list is handed out.
reuse_IsPool :
    (s : Packets) (used : List ℕ) (p : ℕ) (ps : List ℕ)
    → s.pool.free_descr ≡ p ∷ ps
    → length used ≤ s.pool.max_descr
    → IsPool s used
    → IsPool (hand_out s p (record s.pool { free_descr = ps })) (p ∷ used)
reuse_IsPool s used p ps e room c =
    let d : Distinct (used ++ p ∷ ps) = rw (sym e) c.distinct in
    let z : has 0 (used ++ p ∷ ps) ≡ false = rw (sym e) c.real in
    let n : length s.pool.free_descr ≡ suc (length ps) = ap length e in
    record {
      used_count = omega (arith, c.used_count, c.small, room);
      allocated_count = omega (arith, c.allocated_count, n);
      distinct = reuse_Distinct p used ps d;
      bounded = omega (arith, c.bounded, n);
      real = ground (arith, z, has-append 0 used ps, has-append 0 used (p ∷ ps));
      small = c.small;
    }

-- A packet is allocated anew.
grow_IsPool :
    (s : Packets) (used : List ℕ) (p : ℕ)
    → s.pool.free_descr ≡ []
    → length used ≤ s.pool.max_descr
    → IsFresh s used p
    → IsPool s used
    → IsPool
        (hand_out s p (record s.pool { num_allocated_descr = inc s.pool.num_allocated_descr }))
        (p ∷ used)
grow_IsPool s used p e room f c =
    let n : length s.pool.free_descr ≡ 0 = ap length e in
    record {
      used_count = omega (arith, c.used_count, c.small, room);
      allocated_count = omega (arith, c.allocated_count, n, c.small, room);
      distinct = (ground (arith, f), c.distinct);
      bounded = omega (arith, c.bounded, n, room);
      real = ground (arith, f, c.real);
      small = c.small;
    }

module _ (s : Packets) (fresh : ℕ) where
  pub allocate_reuses :
      (p : ℕ) (ps : List ℕ)
      → s.pool.num_used_descr ≤ s.pool.max_descr
      → s.pool.free_descr ≡ p ∷ ps
      → ndis_allocate_packet s fresh ≡ (hand_out s p (record s.pool { free_descr = ps }), 0, p)
  unfolding ndis_allocate_packet
  allocate_reuses p ps h e = rw e (ground arith)

  pub allocate_grows :
      s.pool.num_used_descr ≤ s.pool.max_descr
      → s.pool.free_descr ≡ []
      → fresh ≢ 0
      → ndis_allocate_packet s fresh ≡ (
        hand_out s fresh (record s.pool { num_allocated_descr = inc s.pool.num_allocated_descr }),
        0,
        fresh,
      )
  unfolding ndis_allocate_packet
  allocate_grows h e n = rw e (ground arith)

  pub allocate_fails :
      s.pool.free_descr ≡ [] → fresh ≡ 0 → ndis_allocate_packet s fresh ≡ (s, 0xC000009A, 0)
  unfolding ndis_allocate_packet
  allocate_fails e z = rw (e, z) (ground arith)

after_allocation :
    (s : Packets) (used : List ℕ) (r : Packets × ℕ × ℕ) (fresh : ℕ)
    → ndis_allocate_packet s fresh ≡ r
    → IsPool r.0 (held used r.2)
    → IsPool (ndis_allocate_packet s fresh).0 (held used (ndis_allocate_packet s fresh).2)
after_allocation s used r fresh e c = rw e c

held_new : (used : List ℕ) (p : ℕ) → p ≢ 0 → held used p ≡ p ∷ used
held_new used p n = ground arith

pub allocate_IsPool :
    (s : Packets) (used : List ℕ) (fresh : ℕ)
    → (fresh ≡ 0) ⊎ IsFresh s used fresh
    → IsPool s used
    → IsPool (ndis_allocate_packet s fresh).0 (held used (ndis_allocate_packet s fresh).2)
allocate_IsPool s used fresh f c = elim (Bool-cases (ltb s.pool.max_descr s.pool.num_used_descr)) [
  | inl full ↦ after_allocation s used _ fresh (allocate_full s fresh (ltb→lt _ _ full)) c
  | inr room ↦
      let n : s.pool.num_used_descr ≤ s.pool.max_descr = ground arith in
      let l : length used ≤ s.pool.max_descr = omega (arith, c.used_count) in
      elim (List-cases s.pool.free_descr) [
        | inr (p, ps, e) ↦
            let z : has 0 (used ++ p ∷ ps) ≡ false = rw (sym e) c.real in
            let real : p ≢ 0 = λ q. ground (arith, z, has-append 0 used (p ∷ ps)) in
            after_allocation s used _ fresh (allocate_reuses s fresh p ps n e)
              (rw (held_new used p real) (reuse_IsPool s used p ps e l c))
        | inl e ↦ elim f [
          | inl z ↦ after_allocation s used _ fresh (allocate_fails s fresh e z) c
          | inr new ↦
              let real : fresh ≢ 0 = ground arith in
              after_allocation s used _ fresh (allocate_grows s fresh n e real)
                (rw (held_new used fresh real) (grow_IsPool s used fresh e l new c))
        ]
      ]
]

free_list :
    (s : Packets) (p : ℕ)
    → ((ndis_free_packet s p).pool.free_descr ≡ s.pool.free_descr)
      ⊎ ((ndis_free_packet s p).pool.free_descr ≡ p ∷ s.pool.free_descr)
unfolding ndis_free_packet
free_list s p = ground arith

free-Distinct :
    (used fl fl' : List ℕ) (p : ℕ)
    → has p used ≡ true
    → (fl' ≡ fl) ⊎ (fl' ≡ p ∷ fl)
    → Distinct (used ++ fl)
    → has 0 (used ++ fl) ≡ false
    → Distinct (erase p used ++ fl') × (has 0 (erase p used ++ fl') ≡ false)
free-Distinct used fl fl' p h (inl e) d z =
    let real : 0 ≢ p = λ q. ground (arith, has-append 0 used fl) in
    rw e (drop_Distinct p used fl d, has-erase-append 0 p used fl z real)
free-Distinct used fl fl' p h (inr e) d z =
    let real : 0 ≢ p = λ q. ground (arith, has-append 0 used fl) in
    rw e (
      release_Distinct p used fl h d,
      has-erase-append 0 p used (p ∷ fl)
          (ground (arith, has-append 0 used (p ∷ fl), has-append 0 used fl)) real,
    )

pub free_IsPool :
    (s : Packets) (used : List ℕ) (p : ℕ)
    → has p used ≡ true
    → IsPool s used
    → IsPool (ndis_free_packet s p) (erase p used)
unfolding ndis_free_packet
free_IsPool s used p h c =
    let n = length-erase p used h in
    let lists = free-Distinct used s.pool.free_descr _ p h (free_list s p) c.distinct c.real in
    record {
      used_count = ground (arith, n, c.used_count, c.small, c.bounded);
      allocated_count = ground (arith, n, c.allocated_count, c.small, c.bounded);
      distinct = lists.0;
      bounded = ground (arith, n, c.bounded);
      real = lists.1;
      small = ground (arith, c.small);
    }
