-- ===== src/Power.antt =====
-- driver/wrapndis.c: a network device over its power states: MiniportInitialize and MiniportHalt, the
-- requests to the driver, suspending and resuming. `none` means that the code waits for a mutex that is
-- locked and stays so. What the driver answers to a call is a parameter, a function of the calls that
-- it had before. Interrupts and the timers that a driver leaves are only marked as gone.
pub mod Filter
pub mod State
pub mod Cycle
pub mod Stuck
use ndiswrapper.Base.{
  ℕ, zero, suc, ◌+◌, ◌*◌, Bool, true, false, ◌&&◌, ◌||◌, not, Option, none, some, List, [], ◌∷◌,
  ◌++◌, ◌==◌, if◌then◌else◌, ℤ, pos, negsuc, ltb_ℤ, ◌>>=◌, wrap_long,
}

-- The calls of the driver that the model shows: `sets` and `queries` are requests with their OID.
pub data Call : Type 0 where
  inits halts surprise : Call
  power_profile : ℕ → Call
  sets : ℕ → ℕ → Call
  queries : ℕ → Call

-- `hangcheck` and `pnp_event` say which functions the driver has; `param` is the module's parameter
-- hangcheck_interval, and `hz` is HZ. A query has a number in its buffer, and
-- returns a status and the number that is there afterwards.
pub record Miniport : Type 0 where
  pub is_ndis : Bool
  pub hangcheck : Bool
  pub pnp_event : Bool
  pub param : ℤ
  pub hz : ℕ
  pub init : List Call → ℕ
  pub set : List Call → ℕ → ℕ → ℕ
  pub query : List Call → ℕ → ℕ → ℕ × ℕ

-- `struct ndis_device` and the bits of `hw_status`. A timer is `armed` while Linux has it; `wake_d3` is
-- whether the wake state is PowerDeviceD3; `wake_enabled` is what pci_enable_wake was last told.
pub record Device : Type 0 where
  pub initialized : Bool
  pub suspended : Bool
  pub halted : Bool
  pub disabled : Bool
  pub req_mutex : Bool
  pub tx_mutex : Bool
  pub attached : Bool
  pub no_halt : Bool
  pub surprise_ok : Bool
  pub wireless : Bool
  pub pci : Bool
  pub usb : Bool
  pub wolopts : ℕ
  pub wake_d3 : Bool
  pub wake_enabled : Bool
  pub hangcheck_interval : ℤ
  pub hangcheck_armed : Bool
  pub iw_stats_interval : ℤ
  pub iw_stats_armed : Bool
  pub mp_interrupt : Bool
  pub timers : List ℕ
  pub packet_filter : ℕ
  pub promisc : Bool
  pub allmulti : Bool
  pub mc_count : ℕ
  pub multicast_size : ℕ
  pub calls : List Call

abbrev pub neg : ℤ → ℤ
neg (pos zero) = pos 0
neg (pos (suc n)) = negsuc n
neg (negsuc n) = pos (suc n)

unfoldable pub lock_req : Device → Option Device
lock_req d = if d.req_mutex then none else some (record d { req_mutex = true })

unfoldable pub lock_tx : Device → Option Device
lock_tx d = if d.tx_mutex then none else some (record d { tx_mutex = true })

-- mp_set_int and mp_query_int: mp_request takes the mutex and gives it back.
unfoldable pub mp_set : Miniport → Device → ℕ → ℕ → Option (Device × ℕ)
mp_set m d oid value =
    if d.req_mutex
    then none
    else some (record d { calls = d.calls ++ sets oid value ∷ [] }, m.set d.calls oid value)

unfoldable pub mp_query : Miniport → Device → ℕ → ℕ → Option (Device × ℕ × ℕ)
mp_query m d oid old =
    let (status, value) = m.query d.calls oid old in
    if d.req_mutex
    then none
    else some (record d { calls = d.calls ++ queries oid ∷ [] }, status, value)

-- The interval is an int of 32 bits.
unfoldable pub hangcheck_add : Miniport → Device → Device
hangcheck_add m d =
    let scaled : ℤ = elim m.param [
      | pos zero ↦ d.hangcheck_interval
      | pos (suc n) ↦ wrap_long (pos (suc n * m.hz))
      | negsuc n ↦ d.hangcheck_interval
    ] in
    if not m.hangcheck || ltb_ℤ m.param (pos 0) then d else record d {
      hangcheck_interval = if ltb_ℤ scaled (pos 0) then wrap_long (neg scaled) else scaled;
      hangcheck_armed = true;
    }

unfoldable pub hangcheck_del : Device → Device
hangcheck_del d =
    let i = d.hangcheck_interval in
    record d { hangcheck_interval = if ltb_ℤ (pos 0) i then neg i else i; hangcheck_armed = false }

unfoldable pub add_iw_stats_timer : Device → Device
add_iw_stats_timer d =
    let i = d.iw_stats_interval in
    if not d.wireless then d else record d {
      iw_stats_interval = if ltb_ℤ i (pos 0) then neg i else i;
      iw_stats_armed = true;
    }

unfoldable pub del_iw_stats_timer : Device → Device
del_iw_stats_timer d = record d {
  iw_stats_interval = neg d.iw_stats_interval;
  iw_stats_armed = false;
}

-- NdisDevicePnPEventPowerProfileChanged. NDIS_STATUS_FAILURE is 0xC0000001.
unfoldable pub notify_profile : Miniport → Device → ℕ → Device × ℕ
notify_profile m d profile =
    let told = if profile == 0 then 0 else 1 in
    if not m.pnp_event
    then (d, 0xC0000001)
    else if not d.initialized
    then (d, 0)
    else (record d { calls = d.calls ++ power_profile told ∷ [] }, 0)

-- NdisDevicePnPEventSurpriseRemoved.
pub notify_surprise : Miniport → Device → Device × ℕ
notify_surprise m d =
    if not m.pnp_event
    then (d, 0xC0000001)
    else if not d.initialized
    then (d, 0)
    else if d.surprise_ok && not d.disabled
    then (record d { calls = d.calls ++ surprise ∷ [] }, 0)
    else (d, 0)

-- What mp_init does behind a successful MiniportInitialize.
unfoldable pub initialize_power : Miniport → Device → Option (Device × ℕ)
unfolding mp_query mp_set
initialize_power m d0 = do
  let d = record (notify_profile m d0 1).0 { initialized = true }
  (d1, status, _) ← mp_query m d 0xFD010100 0
  let able = record d1 { no_halt = true }
  (d2, _, value) ←
      (if status == 0 then mp_query m able 0xFD010106 able.wolopts else some (d1, 0, d1.wolopts))
  let no_halt = if status == 0xC00000BB then false else d2.no_halt
  let d3 = record d2 { no_halt = no_halt; wolopts = value }
  let d4 = if d3.usb then record d3 { no_halt = false; wolopts = 0 } else d3
  (d5, _) ← mp_set m d4 0x0D010216 0
  some (d5, 0)

-- MiniportInitialize.
unfoldable pub mp_init : Miniport → Device → Option (Device × ℕ)
unfolding initialize_power
mp_init m d =
    let called = record d { calls = d.calls ++ inits ∷ [] } in
    if d.initialized
    then some (d, 0xC0000001)
    else if not m.is_ndis
    then some (d, 0x00010001)
    else if m.init d.calls == 0
    then initialize_power m called
    else some (called, 0xC0000001)

-- The part of mp_halt for a wireless PCI device: the mutex is unlocked, the driver is told to
-- disassociate, and the mutex is locked again.
unfoldable pub halt_disassociate : Miniport → Device → Option Device
unfolding mp_set lock_req
halt_disassociate m d = do
  (d', _) ← mp_set m (record d { req_mutex = false }) 0x0D010115 0
  lock_req d'

-- MiniportHalt.
unfoldable pub mp_halt : Miniport → Device → Option Device
unfolding halt_disassociate hangcheck_del del_iw_stats_timer
mp_halt m d =
    let stopped = del_iw_stats_timer (hangcheck_del (record d { initialized = false })) in
    let gone = λ (e : Device).
      some (record e { calls = e.calls ++ halts ∷ []; mp_interrupt = false; timers = [] }) in
    if not d.initialized
    then some d
    else (if d.wireless && d.pci then halt_disassociate m stopped else some stopped) >>= gone
