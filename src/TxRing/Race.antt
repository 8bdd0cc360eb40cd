-- ===== src/TxRing/Race.antt =====
-- driver/wrapndis.c: tx_worker moves `tx_ring_start` and clears the flag of the full ring without the
-- lock that tx_skbuff holds.
use ndiswrapper.Base.{ℕ, ◌+◌, ◌-◌, ◌≤◌, ◌≡◌, ◌∙◌, false, List, [], ◌∷◌, arith, length}
use ndiswrapper.TxRing.{TxRing, NdisDevice, enqueue, advance, clear_full}
use ndiswrapper.TxRing.Slots.{slots, contents, queued, IsRing, length-slots}
use ndiswrapper.TxRing.Queue.{enqueue-IsRing, enqueue_counts}

pub enqueue_all : NdisDevice → List ℕ → NdisDevice
enqueue_all d [] = d
enqueue_all d (p ∷ ps) = enqueue_all (enqueue d p) ps

all_count :
    (ps : List ℕ) (d : NdisDevice)
    → IsRing d.ring
    → queued d.ring + length ps ≤ 16
    → IsRing (enqueue_all d ps).ring × (queued (enqueue_all d ps).ring ≡ queued d.ring + length ps)
unfolding enqueue_all
all_count [] d c h = (c, omega arith)
all_count (p ∷ ps) d c h =
    let n = enqueue_counts d p c (omega arith) in
    let (ring, all) =
      all_count ps (enqueue d p) (enqueue-IsRing d p c (omega arith)) (omega arith) in
    (ring, omega arith)

advance_counts :
    (d : NdisDevice) (k : ℕ)
    → IsRing d.ring
    → d.ring.is_tx_ring_full ≡ false
    → 1 ≤ k
    → k ≤ queued d.ring
    → IsRing (advance d k).ring × (queued (advance d k).ring ≡ queued d.ring - k)
unfolding queued
advance_counts d k c e some h = (
  record { start = omega arith; end = c.end; full = ground arith },
  ground (arith, c.start, c.end),
)

full_lost :
    (d : NdisDevice) → IsRing d.ring → queued d.ring ≡ 16 → contents (clear_full d).ring ≡ []
unfolding contents queued slots
full_lost d c e = ground (arith, c.start, c.end)

length-contents : (r : TxRing) → length (contents r) ≡ queued r
unfolding contents
length-contents r = length-slots r.tx_ring r.tx_ring_start (queued r)

-- The flag of the ring is clear and tx_worker has sent `k` packets. It moves the start of the ring;
-- before it clears the flag, tx_skbuff queues just as many packets as the ring has room for. Then all
-- sixteen packets of the ring are lost to tx_worker: the ring counts as empty.
pub late_clear_empties_ring :
    (d : NdisDevice) (k : ℕ) (ps : List ℕ)
    → IsRing d.ring
    → d.ring.is_tx_ring_full ≡ false
    → 1 ≤ k
    → k ≤ queued d.ring
    → queued d.ring - k + length ps ≡ 16
    → let between = enqueue_all (advance d k) ps in
      (length (contents between.ring) ≡ 16) × (contents (clear_full between).ring ≡ [])
late_clear_empties_ring d k ps c e some h fills =
    let (c1, n1) = advance_counts d k c e some h in
    let (c2, n2) = all_count ps (advance d k) c1 (omega arith) in
    let all : queued (enqueue_all (advance d k) ps).ring ≡ 16 = omega arith in
    (length-contents _ ∙ all, full_lost (enqueue_all (advance d k) ps) c2 all)
