-- ===== src/TxRing/Complete.antt =====
-- driver/ndis.c: NdisMSendComplete and NdisMSendResourcesAvailable, and how a serialized driver that has
-- MiniportSendPackets and tx_worker hand a packet to each other through the packet's status.
use ndiswrapper.Base.{
  ℕ, ◌+◌, ◌%◌, ◌^◌, ◌≡◌, ap, ◌∙◌, Bool, true, false, ◌⊎◌, [], ◌∷◌, ◌++◌, arith, ◌==◌, if◌then◌else◌,
  not, update, update_self,
}
use ndiswrapper.TxRing.{
  NdisDevice, free_tx_packet, return_status, take_status, ndis_status_not_recognized,
}

-- Whether tx_work is queued is the second result.
pub ndis_m_send_complete : Bool → NdisDevice → ℕ → ℕ → NdisDevice × Bool
ndis_m_send_complete deserialized d packet status =
    let old = d.status packet in
    let marked = record d { status = update d.status packet status } in
    let d' =
      if old == ndis_status_not_recognized then free_tx_packet marked packet status else marked in
    if deserialized
    then (free_tx_packet d packet status, false)
    else (record d' { tx_ok = true }, not d'.tx_ok)

pub ndis_m_send_resources_available : NdisDevice → NdisDevice × Bool
ndis_m_send_resources_available d = (record d { tx_ok = true }, true)

-- What the loop of mp_tx_packets behind MiniportSendPackets does with one packet.
abbrev pub take_back : NdisDevice → ℕ → NdisDevice
take_back d packet =
    let (d', res) = take_status d packet in
    (return_status (λ e p r. free_tx_packet e p (e.status p)) d' packet res).0

free_skb :
    (d : NdisDevice) (p status : ℕ)
    → ((free_tx_packet d p status).freed_skbs ≡ d.freed_skbs ++ d.skb p ∷ [])
      × ((free_tx_packet d p status).status ≡ d.status)
      × ((free_tx_packet d p status).tx_dropped
          ≡ (if status == 0 then d.tx_dropped else (d.tx_dropped + 1) % 2 ^ 64))
unfolding free_tx_packet
free_skb d p status = (ground arith, ground arith, ground arith)

abbrev mark : NdisDevice → ℕ → ℕ → NdisDevice
mark d p status = record d { status = update d.status p status }

back_pending : (d : NdisDevice) (p : ℕ) → d.status p ≡ 0x103 → take_back d p ≡ mark d p 0x10001
unfolding take_status return_status
back_pending d p e = ground (arith, e)

back_done :
    (d : NdisDevice) (p status : ℕ)
    → d.status p ≡ status
    → (status ≡ 0) ⊎ (status ≡ 0xC0000001)
    → take_back d p ≡ free_tx_packet (mark d p 0x10001) p status
unfolding take_status return_status
back_done d p status e c = ground (arith, e)

complete_pending :
    (d : NdisDevice) (p status : ℕ)
    → d.status p ≡ 0x103
    → (ndis_m_send_complete false d p status).0 ≡ record (mark d p status) { tx_ok = true }
unfolding ndis_m_send_complete
complete_pending d p status e = ground (arith, e)

complete_returned :
    (d : NdisDevice) (p status : ℕ)
    → d.status p ≡ 0x10001
    → (ndis_m_send_complete false d p status).0
      ≡ record (free_tx_packet (mark d p status) p status) { tx_ok = true }
unfolding ndis_m_send_complete
complete_returned d p status e = ground (arith, e)

-- The driver has set the status of a packet to NDIS_STATUS_PENDING and completes it with success or
-- failure. Whether that happens after tx_worker has looked at the status or before, the packet's
-- sk_buff is freed just once, and counted as dropped just where the driver reported failure.
pub pending_packet_frees_once :
    (d : NdisDevice) (p status : ℕ)
    → d.status p ≡ 0x103
    → (status ≡ 0) ⊎ (status ≡ 0xC0000001)
    → let late = (ndis_m_send_complete false (take_back d p) p status).0 in
      let early = take_back (ndis_m_send_complete false d p status).0 p in
      let dropped = if status == 0 then d.tx_dropped else (d.tx_dropped + 1) % 2 ^ 64 in
      (late.freed_skbs ≡ d.freed_skbs ++ d.skb p ∷ [])
      × (early.freed_skbs ≡ d.freed_skbs ++ d.skb p ∷ [])
      × (late.tx_dropped ≡ dropped)
      × (early.tx_dropped ≡ dropped)
pending_packet_frees_once d p status e c =
    let taken : NdisDevice = mark d p 0x10001 in
    let marked : NdisDevice = record (mark d p status) { tx_ok = true } in
    let late : (ndis_m_send_complete false (take_back d p) p status).0
        ≡ record (free_tx_packet (mark taken p status) p status) { tx_ok = true } =
      ap (λ x. (ndis_m_send_complete false x p status).0) (back_pending d p e)
      ∙ complete_returned taken p status (update_self d.status p 0x10001) in
    let early : take_back (ndis_m_send_complete false d p status).0 p
        ≡ free_tx_packet (mark marked p 0x10001) p status =
      ap (λ x. take_back x p) (complete_pending d p status e)
      ∙ back_done marked p status (update_self d.status p status) c in
    let (freed, _, dropped) = free_skb (mark taken p status) p status in
    let (freed', _, dropped') = free_skb (mark marked p 0x10001) p status in
    (
      ap (λ x. x.freed_skbs) late ∙ freed,
      ap (λ x. x.freed_skbs) early ∙ freed',
      ap (λ x. x.tx_dropped) late ∙ dropped,
      ap (λ x. x.tx_dropped) early ∙ dropped',
    )
