-- ===== src/TxRing/Queue.antt =====
-- driver/wrapndis.c: tx_skbuff appends to the ring, and tx_worker takes from its front.
use ndiswrapper.Base.{
  ℕ, suc, ◌+◌, ◌-◌, ◌%◌, ◌≤◌, ◌<◌, ◌≡◌, refl, sym, ap, ◌∙◌, [], ◌∷◌, ◌++◌, arith, update,
  update_self, drop,
}
use ndiswrapper.TxRing.{TxRing, NdisDevice, enqueue, batch, advance, clear_full}
use ndiswrapper.TxRing.Slots.{slots, queued, contents, IsRing, slots-update, slots_last, drop-slots}

pub enqueue-IsRing :
    (d : NdisDevice) (p : ℕ) → IsRing d.ring → queued d.ring < 16 → IsRing (enqueue d p).ring
unfolding enqueue queued
enqueue-IsRing d p r h = record {
  start = r.start;
  end = ground (arith, r.end);
  full = ground (arith, r.full);
}

pub enqueue_counts :
    (d : NdisDevice) (p : ℕ)
    → IsRing d.ring
    → queued d.ring < 16
    → queued (enqueue d p).ring ≡ suc (queued d.ring)
unfolding enqueue queued
enqueue_counts d p r h = ground (arith, r.start, r.end, r.full)

queued_end :
    (r : TxRing)
    → IsRing r
    → queued r < 16
    → ((r.tx_ring_start + queued r) % 16 ≡ r.tx_ring_end)
      × (queued r ≡ (r.tx_ring_end + 16 - r.tx_ring_start) % 16)
unfolding queued
queued_end r c h = ground (arith, c.start, c.end, c.full)

enqueue_slot :
    (d : NdisDevice) (p : ℕ)
    → (enqueue d p).ring.tx_ring ≡ update d.ring.tx_ring d.ring.tx_ring_end p
unfolding enqueue
enqueue_slot d p = refl

enqueue_start : (d : NdisDevice) (p : ℕ) → (enqueue d p).ring.tx_ring_start ≡ d.ring.tx_ring_start
unfolding enqueue
enqueue_start d p = refl

-- A packet goes behind those that wait, if there is room.
pub contents-enqueue :
    (d : NdisDevice) (p : ℕ)
    → IsRing d.ring
    → queued d.ring < 16
    → contents (enqueue d p).ring ≡ contents d.ring ++ p ∷ []
unfolding contents
contents-enqueue d p r h =
    let f = d.ring.tx_ring in
    let i = d.ring.tx_ring_start in
    let e = d.ring.tx_ring_end in
    let n = queued d.ring in
    let (at, count) = queued_end d.ring r h in
    let g = update f e p in
    let front : slots g i n ≡ slots f i n =
      slots-update f e p i n r.start r.end (omega (arith, count)) in
    let back : g ((i + n) % 16) ≡ p = ap g at ∙ update_self f e p in
    rw (enqueue_slot d p, enqueue_start d p, enqueue_counts d p r h)
      (slots_last g i n r.start ∙ rw (front, back))

-- What tx_worker offers stands in the ring, without a wrap.
pub batch_bound : (r : TxRing) → IsRing r → (batch r ≤ queued r) × (r.tx_ring_start + batch r ≤ 16)
unfolding batch queued
batch_bound r c = (ground (arith, c.start, c.end, c.full), ground (arith, c.start, c.end, c.full))

pub batch_zero : (r : TxRing) → IsRing r → batch r ≡ 0 → queued r ≡ 0
unfolding batch queued
batch_zero r c e = ground (arith, c.start, c.end, c.full)

-- The ring without its first `k` packets.
unfoldable pub removed : NdisDevice → ℕ → NdisDevice
removed d k = clear_full (advance d k)

pub removed-IsRing : (d : NdisDevice) (k : ℕ) → IsRing d.ring → IsRing (removed d k).ring
unfolding removed
removed-IsRing d k c = record { start = omega arith; end = c.end; full = ground arith }

removed_counts :
    (d : NdisDevice) (k : ℕ)
    → IsRing d.ring
    → 1 ≤ k
    → k ≤ queued d.ring
    → queued (removed d k).ring ≡ queued d.ring - k
unfolding removed queued
removed_counts d k c some h = ground (arith, c.start, c.end, c.full)

pub contents-removed :
    (d : NdisDevice) (k : ℕ)
    → IsRing d.ring
    → 1 ≤ k
    → k ≤ queued d.ring
    → contents (removed d k).ring ≡ drop k (contents d.ring)
unfolding contents
contents-removed d k c some h =
    let at : (removed d k).ring.tx_ring_start ≡ (d.ring.tx_ring_start + k) % 16 =
      unfold removed in refl in
    let same : (removed d k).ring.tx_ring ≡ d.ring.tx_ring = unfold removed in refl in
    rw (at, same, removed_counts d k c some h)
      (sym (drop-slots d.ring.tx_ring d.ring.tx_ring_start k (queued d.ring) c.start h))
