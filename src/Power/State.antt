-- ===== src/Power/State.antt =====
-- driver/wrapndis.c: mp_set_power_state, and ndis_reinit over it. `memory` is whether kmalloc gives
-- memory for the list of multicast addresses.
use ndiswrapper.Base.{ℕ, Bool, true, false, ◌&&◌, not, Option, some, ◌==◌, if◌then◌else◌, ◌>>=◌}
use ndiswrapper.Power.{
  Miniport, Device, mp_set, mp_init, mp_halt, lock_req, lock_tx, hangcheck_add, hangcheck_del,
  add_iw_stats_timer, del_iw_stats_timer,
}
use ndiswrapper.Power.Filter.{set_packet_filter, set_multicast_list}

-- A device that was halted is initialised again, with its filter and its list.
unfoldable pub wake_halted : Miniport → Bool → Device → Option (Device × ℕ)
unfolding mp_init
wake_halted m memory d = do
  (d1, status) ← mp_init m (record d { halted = false })
  let filtered = (set_packet_filter m d1 d1.packet_filter >>= λ r. set_multicast_list m memory r.0)
  (if status == 0 then (filtered >>= λ e. some (e, status)) else some (d1, status))

unfoldable pub wake_suspended : Miniport → Device → Option (Device × ℕ)
unfolding mp_set
wake_suspended m d = mp_set m (record d { suspended = false }) 0xFD010101 1

-- What follows in the state D0: the wake-up of a PCI device is switched off, and a device that is on
-- gives the ring back.
unfoldable pub woken : Miniport → Device × ℕ → Device × ℕ
unfolding hangcheck_add add_iw_stats_timer
woken m (d, status) =
    let e = if d.pci then record d { wake_enabled = false } else d in
    if status == 0
    then (
      add_iw_stats_timer (hangcheck_add m (record e { tx_mutex = false; attached = true })),
      status,
    )
    else (e, status)

-- NdisDeviceStateD0.
unfoldable pub power_up : Miniport → Bool → Device → Option (Device × ℕ)
unfolding wake_halted wake_suspended woken
power_up m memory d0 =
    let d = record d0 { req_mutex = false } in
    if d.halted
    then (wake_halted m memory d >>= λ r. some (woken m r))
    else if d.suspended
    then (wake_suspended m d >>= λ r. some (woken m r))
    else some (d, 0xC0000001)

-- The driver is asked to suspend, if it may be. NDIS_STATUS_NOT_SUPPORTED is 0xC00000BB.
unfoldable pub ask_suspend : Miniport → Device → ℕ → Option (Device × ℕ)
unfolding mp_set
ask_suspend m d state = if not d.no_halt then some (d, 0xC00000BB) else (do
  (d1, wake) ← mp_set m d 0xFD010106 d.wolopts
  let d2 = if wake == 0 && d1.pci then record d1 { wake_d3 = not (d1.wolopts == 0) } else d1
  (d3, status) ← mp_set m d2 0xFD010101 state
  some (if status == 0 then record d3 { suspended = true } else d3, status))

-- A device that is not suspended is halted.
unfoldable pub halt_instead : Miniport → Device × ℕ → Option (Device × ℕ)
unfolding mp_halt
halt_instead m (d, status) =
    if status == 0
    then some (d, status)
    else mp_halt m d >>= λ e. some (record e { halted = true }, 0)

-- The end of mp_set_power_state for any other state than D0, behind the request to the driver.
unfoldable pub finish_down : Miniport → Device × ℕ → Option (Device × ℕ)
unfolding halt_instead lock_req
finish_down m asked = do (d2, status) ← halt_instead m asked; d3 ← lock_req d2; some (d3, status)

-- The device without its timers and not attached, as the driver is asked to suspend.
unfoldable pub stopped : Device → Device
unfolding hangcheck_del del_iw_stats_timer
stopped d = del_iw_stats_timer (hangcheck_del (record d { attached = false }))

-- Any other state than D0.
unfoldable pub power_down : Miniport → Device → ℕ → Option (Device × ℕ)
unfolding lock_tx stopped ask_suspend finish_down
power_down m d0 state = do
  d1 ← lock_tx d0
  asked ← ask_suspend m (stopped d1) state
  finish_down m asked

-- NdisDeviceStateD0 is 1.
unfoldable pub mp_set_power_state : Miniport → Bool → Device → ℕ → Option (Device × ℕ)
unfolding power_up power_down
mp_set_power_state m memory d state =
    if state == 1 then power_up m memory d else power_down m d state

unfoldable pub ndis_reinit : Miniport → Bool → Device → Option (Device × ℕ)
unfolding mp_set_power_state
ndis_reinit m memory d = do
  (d1, status) ← mp_set_power_state m memory (record d { no_halt = false }) 4
  (if status == 0 then mp_set_power_state m memory d1 1 else some (d1, status))
