-- ===== src/TxRing/Remove.antt =====
-- driver/wrapndis.c: what ndis_remove_device does with the packets that still wait.
use mathlib.Core.List.{append_assoc, append-nil}
use ndiswrapper.Base.{
  ℕ, zero, suc, ◌+◌, ◌%◌, ◌≡◌, refl, sym, ap, ◌∙◌, false, [], ◌∷◌, ◌++◌, arith, min, map, take,
}
use ndiswrapper.TxRing.{
  TxRing, NdisDevice, free_tx_packet, advance, clear_full, tx_pending, throw_away, remove_pending,
}
use ndiswrapper.TxRing.Slots.{slots, contents, queued, IsRing}

pending_count : (r : TxRing) → IsRing r → tx_pending r ≡ min 15 (queued r)
unfolding tx_pending queued
pending_count r c = ground (arith, c.start, c.end, c.full)

free_ring : (d : NdisDevice) (p status : ℕ) → (free_tx_packet d p status).ring ≡ d.ring
unfolding free_tx_packet
free_ring d p status = ground arith

free_skb :
    (d : NdisDevice) (p status : ℕ)
    → ((free_tx_packet d p status).freed_skbs ≡ d.freed_skbs ++ d.skb p ∷ [])
      × ((free_tx_packet d p status).skb ≡ d.skb)
unfolding free_tx_packet
free_skb d p status = (ground arith, ground arith)

throw_frees :
    (n : ℕ) (d : NdisDevice)
    → (throw_away n d).freed_skbs
      ≡ d.freed_skbs ++ map d.skb (slots d.ring.tx_ring d.ring.tx_ring_start n)
unfolding throw_away slots
throw_frees zero d = sym (append-nil d.freed_skbs)
throw_frees (suc n) d =
    let p = d.ring.tx_ring d.ring.tx_ring_start in
    let e : NdisDevice = free_tx_packet d p 0xC0010002 in
    let (freed, skb) = free_skb d p 0xC0010002 in
    let ring = free_ring d p 0xC0010002 in
    throw_frees n (advance e 1) ∙ rw (freed, skb, ring) (append_assoc d.freed_skbs (d.skb p ∷ []) _)

take-slots : (f : ℕ → ℕ) (i k n : ℕ) → take k (slots f i n) ≡ slots f i (min k n)
unfolding slots
take-slots f i zero n = let e : min zero n ≡ 0 = omega arith in rw e refl
take-slots f i (suc k) zero = let e : min (suc k) zero ≡ 0 = omega arith in rw e refl
take-slots f i (suc k) (suc n) =
    let e : min (suc k) (suc n) ≡ suc (min k n) = omega arith in
    rw e (ap (λ l. f i ∷ l) (take-slots f ((i + 1) % 16) k n))

-- ndis_remove_device frees the sk_buffs of at most fifteen of the packets that wait, the oldest ones
-- first. So it frees all of them unless the ring is full: the youngest packet of a full ring is not
-- freed.
remove_frees_fifteen :
    (d : NdisDevice)
    → IsRing d.ring
    → (remove_pending d).freed_skbs ≡ d.freed_skbs ++ map d.skb (take 15 (contents d.ring))
unfolding remove_pending contents
remove_frees_fifteen d c =
    throw_frees (tx_pending d.ring) (clear_full (record d { tx_ok = false }))
    ∙ ap (λ n. d.freed_skbs ++ map d.skb (slots d.ring.tx_ring d.ring.tx_ring_start n))
        (pending_count d.ring c)
    ∙ ap (λ l. d.freed_skbs ++ map d.skb l)
        (sym (take-slots d.ring.tx_ring d.ring.tx_ring_start 15 (queued d.ring)))
