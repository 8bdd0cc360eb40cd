-- ===== src/TxRing/Worker.antt =====
-- driver/wrapndis.c: a round of tx_worker hands a front part of the waiting packets to the driver.
use mathlib.Core.List.{append_assoc, append-nil}
use ndiswrapper.Base.{
  ℕ, zero, suc, ◌+◌, ◌≤◌, ◌≡◌, refl, sym, ap, ◌∙◌, Bool, true, false, Bool-cases, inl, inr, ◌∷◌,
  ◌++◌, Option, none, some, List, [], arith, ◌==◌, if◌then◌else◌, min, take, drop,
}
use ndiswrapper.TxRing.{
  TxRing, NdisDevice, Miniport, array, free_tx_packet, return_status, hand, tx_loop, take_status,
  mp_tx_packets, batch, tx_round,
}
use ndiswrapper.TxRing.Slots.{slots, contents, queued, IsRing, take-slots}
use ndiswrapper.TxRing.Queue.{batch_bound, batch_zero, removed, removed-IsRing, contents-removed}

-- Neither the ring nor the record of what the driver got changes.
abbrev pub Keeps : NdisDevice → NdisDevice → Type 0
Keeps d e = (e.ring ≡ d.ring) × (e.handed ≡ d.handed)

free_Keeps : (d : NdisDevice) (p status : ℕ) → Keeps d (free_tx_packet d p status)
unfolding free_tx_packet
free_Keeps d p status = (ground arith, ground arith)

-- A packet that stays was given back, and any other counts as handed over.
return_hands :
    (other : NdisDevice → ℕ → ℕ → NdisDevice)
    → ((d : NdisDevice) (p res : ℕ) → Keeps d (other d p res))
    → (d : NdisDevice) (p res : ℕ)
    → let r = return_status other (hand d p res) p res in
      (r.0.ring ≡ d.ring)
      × (r.1 ≡ true → r.0.handed ≡ d.handed)
      × (r.1 ≡ false → r.0.handed ≡ d.handed ++ p ∷ [])
unfolding return_status hand
return_hands other keeps d p res =
    let h = hand d p res in
    let (f, g) = free_Keeps h p res in
    let (k, l) = keeps h p res in
    (
      unfold hand in ground (arith, f, k),
      λ e. unfold hand in ground (arith, g, l, e),
      λ e. unfold hand in ground (arith, g, l, e),
    )

-- The driver got just the packets that are counted, from `start` on; they are at most `n`.
pub record Hands (d : NdisDevice) (start n : ℕ) (r : NdisDevice × ℕ) : Type 0 where
  pub ring : r.0.ring ≡ d.ring
  pub most : r.1 ≤ n
  pub handed : r.0.handed ≡ d.handed ++ array d.ring.tx_ring start r.1

-- What the loops do from the count `sent` on.
abbrev Goes : NdisDevice → ℕ → ℕ → ℕ → NdisDevice × ℕ → Type 0
Goes d start left sent r =
    (k : ℕ) × (r.1 ≡ sent + k)
    × (k ≤ left)
    × (r.0.ring ≡ d.ring)
    × (r.0.handed ≡ d.handed ++ array d.ring.tx_ring (start + sent) k)

choose :
    (on back : Bool) (P : NdisDevice × ℕ → Type 0) (x y z : NdisDevice × ℕ)
    → (back ≡ true → P x)
    → (back ≡ false → P y)
    → P z
    → P (if on then (if back then x else y) else z)
choose true true P x y z f g h = f refl
choose true false P x y z f g h = g refl
choose false back P x y z f g h = h

module _ (ask : NdisDevice → ℕ → NdisDevice × ℕ) (other : NdisDevice → ℕ → ℕ → NdisDevice)
    (asks : (d : NdisDevice) (p : ℕ) → Keeps d (ask d p).0)
    (others : (d : NdisDevice) (p res : ℕ) → Keeps d (other d p res)) where
  loop_hands :
      (start left sent : ℕ) (d : NdisDevice)
      → Goes d start left sent (tx_loop ask other start left sent d)
  unfolding tx_loop array
  loop_hands start zero sent d = (0, omega arith, omega arith, refl, sym (append-nil d.handed))
  loop_hands start (suc left) sent d =
      let f = d.ring.tx_ring in
      let p = f (start + sent) in
      let asked = (ask d p).0 in
      let res = (ask d p).1 in
      let (kept_ring, kept) = asks d p in
      let r = return_status other (hand asked p res) p res in
      let (ring, stays, goes) = return_hands other others asked p res in
      let (k, count, few, same, all) = loop_hands start left (suc sent) r.0 in
      let next : start + suc sent ≡ suc (start + sent) = omega arith in
      choose d.tx_ok r.1 (Goes d start (suc left) sent) (r.0, sent)
        (tx_loop ask other start left (suc sent) r.0) (d, sent)
        (λ back. (
          0,
          omega arith,
          omega arith,
          ring ∙ kept_ring,
          stays back ∙ kept ∙ sym (append-nil d.handed),
        ))
        (λ gone. (
          suc k,
          omega (arith, count),
          omega (arith, few),
          same ∙ ring ∙ kept_ring,
          all
              ∙ ap (λ x. r.0.handed ++ array x.tx_ring (start + suc sent) k) (ring ∙ kept_ring)
              ∙ ap (λ i. r.0.handed ++ array f i k) next
              ∙ ap (λ l. l ++ array f (suc (start + sent)) k)
                  (goes gone ∙ ap (λ l. l ++ p ∷ []) kept)
              ∙ append_assoc d.handed (p ∷ []) (array f (suc (start + sent)) k),
        ))
        (0, omega arith, omega arith, refl, sym (append-nil d.handed))

  loop_Hands : (start n : ℕ) (d : NdisDevice) → Hands d start n (tx_loop ask other start n 0 d)
  loop_Hands start n d =
      let (k, count, few, same, all) = loop_hands start n 0 d in
      let exact : (tx_loop ask other start n 0 d).1 ≡ k = omega (arith, count) in
      let first : start + 0 ≡ start = omega arith in
      record {
        ring = same;
        most = omega (arith, exact, few);
        handed =
            all
            ∙ ap (λ i. d.handed ++ array d.ring.tx_ring i k) first
            ∙ ap (λ c. d.handed ++ array d.ring.tx_ring start c) (sym exact);
      }

-- The driver writes neither to the ring nor to the record.
pub record LeavesRing (mp : Miniport) : Type 0 where
  pub send_packets :
      (f : NdisDevice → List ℕ → NdisDevice)
      → mp.send_packets ≡ some f
      → (d : NdisDevice) (ps : List ℕ) → Keeps d (f d ps)
  pub send : (d : NdisDevice) (p : ℕ) → Keeps d (mp.send d p).0

status_Keeps : (d : NdisDevice) (p : ℕ) → Keeps d (take_status d p).0
unfolding take_status
status_Keeps d p = (refl, refl)

-- A driver's call before the loops does not matter.
behind :
    (d e : NdisDevice) (start n : ℕ) (r : NdisDevice × ℕ)
    → Keeps d e
    → Hands e start n r
    → Hands d start n r
behind d e start n r (ring, handed) h = record {
  ring = h.ring ∙ ring;
  most = h.most;
  handed =
      h.handed
      ∙ ap (λ l. l ++ array e.ring.tx_ring start r.1) handed
      ∙ ap (λ x. d.handed ++ array x.tx_ring start r.1) ring;
}

tx_Hands :
    (mp : Miniport) (o : Option (NdisDevice → List ℕ → NdisDevice)) (d : NdisDevice) (start n : ℕ)
    → let mp' = record mp { send_packets = o } in
      LeavesRing mp' → Hands d start n (mp_tx_packets mp' d start n)
unfolding mp_tx_packets
tx_Hands mp none d start n leaves =
    loop_Hands _ _ (λ e p. leaves.send _ p) (λ e p res. (refl, refl)) start n d
tx_Hands mp (some f) d start n leaves =
    let keeps = leaves.send_packets f refl d (array d.ring.tx_ring start n) in
    elim (Bool-cases mp.deserialized) [
      | inl free ↦ rw free (record {
        ring = keeps.0;
        most = omega arith;
        handed = ap (λ l. l ++ array d.ring.tx_ring start n) keeps.1;
      })
      | inr serial ↦ rw serial (
          behind d _ start n _ keeps (
            loop_Hands take_status (λ e p res. free_tx_packet e p (e.status p)) status_Keeps
              (λ e p res. free_Keeps e p _) start n (f d (array d.ring.tx_ring start n))))
    ]

pub mp_tx_Hands :
    (mp : Miniport) (d : NdisDevice) (start n : ℕ)
    → LeavesRing mp
    → Hands d start n (mp_tx_packets mp d start n)
mp_tx_Hands mp d start n leaves = tx_Hands mp mp.send_packets d start n leaves

-- The device after `k` packets of the device `m` have been sent.
after_sent : NdisDevice → ℕ → NdisDevice
after_sent m k = if k == 0 then m else removed m k

round_result :
    (mp : Miniport) (d d' : NdisDevice) (sent : ℕ)
    → tx_round mp d ≡ some (d', sent)
    → let r = mp_tx_packets mp d d.ring.tx_ring_start (min (batch d.ring) d.max_tx_packets) in
      (d' ≡ after_sent r.0 r.1) × (sent ≡ r.1)
unfolding tx_round after_sent removed
round_result mp d d' sent e = (ground arith, ground arith)

after_sent_some : (m : NdisDevice) (k : ℕ) → after_sent m (suc k) ≡ removed m (suc k)
unfolding after_sent
after_sent_some m k = ground arith

after_handed : (m : NdisDevice) (k : ℕ) → (after_sent m k).handed ≡ m.handed
unfolding after_sent removed
after_handed m k = ground arith

sent_takes :
    (m : NdisDevice) (k : ℕ)
    → IsRing m.ring
    → k ≤ queued m.ring
    → IsRing (after_sent m k).ring × (contents (after_sent m k).ring ≡ drop k (contents m.ring))
sent_takes m zero c h = unfold after_sent in (c, refl)
sent_takes m (suc k) c h =
    rw (after_sent_some m k)
      (removed-IsRing m (suc k) c, contents-removed m (suc k) c (omega arith) h)

-- A round of tx_worker, if the driver does not write to the ring: the packets that the driver got and
-- did not give back are the oldest ones, each once, they are taken from the ring and all others stay in
-- their order, and the array that the driver gets does not reach behind the end of the ring.
pub tx_round_takes :
    (mp : Miniport) (d d' : NdisDevice) (sent : ℕ)
    → LeavesRing mp
    → IsRing d.ring
    → tx_round mp d ≡ some (d', sent)
    → IsRing d'.ring
      × (contents d'.ring ≡ drop sent (contents d.ring))
      × (d'.handed ≡ d.handed ++ take sent (contents d.ring))
      × (d.ring.tx_ring_start + sent ≤ 16)
tx_round_takes mp d d' sent leaves c e =
    let n = min (batch d.ring) d.max_tx_packets in
    let r = mp_tx_packets mp d d.ring.tx_ring_start n in
    let h = mp_tx_Hands mp d d.ring.tx_ring_start n leaves in
    let same = h.ring in
    let most = h.most in
    let (few, flat) = batch_bound d.ring c in
    let (device, number) = round_result mp d d' sent e in
    let less : r.1 ≤ queued d.ring = omega arith in
    let room : sent ≤ queued d.ring = omega arith in
    let short : d.ring.tx_ring_start + sent ≤ 16 = omega arith in
    let front : array d.ring.tx_ring d.ring.tx_ring_start sent ≡ take sent (contents d.ring) = sym (
      unfold contents in
      take-slots d.ring.tx_ring d.ring.tx_ring_start sent (queued d.ring) c.start short room) in
    let (ring, rest) = sent_takes r.0 r.1 (rw same c) (rw same less) in
    (
      rw device ring,
      ap (λ x. contents x.ring) device
          ∙ rest
          ∙ ap (λ x. drop r.1 (contents x)) same
          ∙ ap (λ k. drop k (contents d.ring)) (sym number),
      ap (λ x. x.handed) device
          ∙ after_handed r.0 r.1
          ∙ h.handed
          ∙ ap (λ k. d.handed ++ array d.ring.tx_ring d.ring.tx_ring_start k) (sym number)
          ∙ ap (λ l. d.handed ++ l) front,
      short,
    )

idle_batch : (mp : Miniport) (d : NdisDevice) → tx_round mp d ≡ none → batch d.ring ≡ 0
unfolding tx_round
idle_batch mp d e = ground arith

contents_none : (r : TxRing) → queued r ≡ 0 → contents r ≡ []
unfolding contents slots
contents_none r e = rw e refl

-- The loop of tx_worker ends, with `tx_ok` set, only where no packet waits.
pub tx_round_idle :
    (mp : Miniport) (d : NdisDevice) → IsRing d.ring → tx_round mp d ≡ none → contents d.ring ≡ []
tx_round_idle mp d c e = contents_none d.ring (batch_zero d.ring c (idle_batch mp d e))
