-- ===== src/Timer/Ndis.antt =====
-- driver/ndis.c: the timers of network drivers, which are timers with a DPC of their own. `kdpc` is the
-- address of the kdpc inside of a timer.
use ndiswrapper.Base.{
  ℕ, ◌+◌, ◌%◌, ◌^◌, ◌≡◌, ◌≢◌, sym, ap, ◌∙◌, Bool, true, false, none, some, arith, has,
  if◌then◌else◌, is_some, pos, update,
}
use ndiswrapper.Dispatcher.{notification_object, initialize_object, ke_clear_event}
use ndiswrapper.Kdpc.{ke_initialize_dpc, queue_kdpc}
use ndiswrapper.Timer.{Timers, wrap_init_timer, wrap_set_timer, ke_cancel_timer, fire}
use ndiswrapper.Kdpc.Queue.{queued_kdpc}
use ndiswrapper.Timer.Linux.{LinuxTimers, IsLawful}
use ndiswrapper.Timer.Clock.{msec_to_hz}
use ndiswrapper.Timer.Fire.{timer_expires}

-- `struct ndis_mp_timer` without the timer and the kdpc; `nmb` is the device.
pub record MpTimer : Type 0 where
  pub func : ℕ
  pub ctx : ℕ
  pub nmb : ℕ

module _ {T : Type 0} (lt : LinuxTimers T) where
  -- The timers of the drivers, and the address of mp_timer_dpc, which calls the function of a
  -- serialized driver.
  pub ndis_m_initialize_timer :
      ℕ → Bool → Timers T × (ℕ → MpTimer) → ℕ → ℕ → MpTimer → ℕ → Timers T × (ℕ → MpTimer)
  ndis_m_initialize_timer mp_timer_dpc deserialized (s, mp) timer kdpc t wrap_timer =
      let dpcs =
        if deserialized
        then ke_initialize_dpc s.dpcs kdpc t.func t.ctx
        else ke_initialize_dpc s.dpcs kdpc mp_timer_dpc timer in
      (
        wrap_init_timer lt (record s { dpcs = dpcs }) timer notification_object (some t.nmb)
            wrap_timer,
        update mp timer t,
      )

  -- `hz` is HZ.
  pub ndis_m_set_periodic_timer : ℕ → Timers T → ℕ → ℕ → ℕ → Timers T
  ndis_m_set_periodic_timer hz s timer kdpc period_ms =
      let expires = msec_to_hz hz period_ms in (wrap_set_timer lt s timer expires expires kdpc).0

  pub ndis_m_cancel_timer : Timers T → ℕ → Timers T × Bool
  ndis_m_cancel_timer s timer = ke_cancel_timer lt s timer

  pub ndis_initialize_timer : Timers T → ℕ → ℕ → ℕ → ℕ → ℕ → Timers T
  ndis_initialize_timer s timer kdpc func ctx wrap_timer =
      wrap_init_timer lt (record s { dpcs = ke_initialize_dpc s.dpcs kdpc func ctx }) timer
        notification_object none wrap_timer

  pub ndis_set_timer : ℕ → Timers T → ℕ → ℕ → ℕ → Timers T
  ndis_set_timer hz s timer kdpc duetime_ms =
      (wrap_set_timer lt s timer (msec_to_hz hz duetime_ms) 0 kdpc).0

  pub ndis_cancel_timer : Timers T → ℕ → Timers T × Bool
  ndis_cancel_timer s timer = ke_cancel_timer lt s timer

module _ {T : Type 0} (lt : LinuxTimers T) (laws : IsLawful lt) where
  -- The timer is initialised and set.
  prepared : ℕ → Timers T → ℕ → ℕ → ℕ → ℕ → ℕ → ℕ → Timers T
  prepared hz s timer kdpc func ctx w duetime_ms =
      ndis_set_timer lt hz (ndis_initialize_timer lt s timer kdpc func ctx w) timer kdpc duetime_ms

  prepared_timer :
      (hz : ℕ) (s : Timers T) (timer kdpc func ctx w duetime_ms : ℕ)
      → w ≢ 0
      → let p = prepared hz s timer kdpc func ctx w duetime_ms in
        ((p.wrap_timers w).nt_timer ≡ timer)
        × ((p.wrap_timers w).repeat ≡ 0)
        × ((p.nt_timers timer).kdpc ≡ kdpc)
        × (is_some (lt.expiry p.linux w) ≡ true)
  unfolding prepared ndis_set_timer ndis_initialize_timer wrap_init_timer wrap_set_timer
  prepared_timer hz s timer kdpc func ctx w duetime_ms real = (
    ground arith,
    ground arith,
    ground arith,
    ground (
      arith,
      laws.mod_sets (lt.timer_setup s.linux w) w ((s.jiffies + msec_to_hz hz duetime_ms) % 2 ^ 64),
    ),
  )

  prepared_object :
      (hz : ℕ) (s : Timers T) (timer kdpc func ctx w duetime_ms : ℕ)
      → w ≢ 0
      → let p = prepared hz s timer kdpc func ctx w duetime_ms in
        ((p.kernel.objects timer).kind ≡ notification_object)
        × ((p.kernel.objects timer).signal_state ≡ pos 0)
  unfolding prepared ndis_set_timer ndis_initialize_timer wrap_init_timer wrap_set_timer
      ke_clear_event initialize_object
  prepared_object hz s timer kdpc func ctx w duetime_ms real = (ground arith, ground arith)

  prepared_kdpc :
      (hz : ℕ) (s : Timers T) (timer kdpc func ctx w duetime_ms : ℕ)
      → w ≢ 0
      → let d = (prepared hz s timer kdpc func ctx w duetime_ms).dpcs.kdpc kdpc in
        (d.queued ≡ false) × (d.func ≡ func) × (d.ctx ≡ ctx)
  unfolding prepared ndis_set_timer ndis_initialize_timer wrap_init_timer wrap_set_timer
      ke_initialize_dpc
  prepared_kdpc hz s timer kdpc func ctx w duetime_ms real =
      (ground arith, ground arith, ground arith)

  -- A driver's timer is initialised, with memory for its `wrap_timer`, and set with a delay. When it
  -- expires, its DPC stands on the list of kdpcs with the driver's function and context, and the timer
  -- is no longer pending.
  pub ndis_timer_calls_driver :
      (hz : ℕ) (s : Timers T) (timer kdpc func ctx w duetime_ms : ℕ)
      → w ≢ 0
      → kdpc ≢ 0
      → let s1 = ndis_initialize_timer lt s timer kdpc func ctx w in
        let s2 = fire lt (ndis_set_timer lt hz s1 timer kdpc duetime_ms) w in
        (has kdpc s2.dpcs.kdpc_list ≡ true)
        × ((s2.dpcs.kdpc kdpc).func ≡ func)
        × ((s2.dpcs.kdpc kdpc).ctx ≡ ctx)
        × (lt.expiry s2.linux w ≡ none)
  ndis_timer_calls_driver hz s timer kdpc func ctx w duetime_ms real dpc =
      let p = prepared hz s timer kdpc func ctx w duetime_ms in
      let (back, once, has_kdpc, pending) =
        prepared_timer hz s timer kdpc func ctx w duetime_ms real in
      let (kind, unset) = prepared_object hz s timer kdpc func ctx w duetime_ms real in
      let (free, f, c) = prepared_kdpc hz s timer kdpc func ctx w duetime_ms real in
      let (_, _, dpcs, expiry) =
        timer_expires lt laws p timer w pending back kind unset (λ q. dpc (sym has_kdpc ∙ q)) in
      let queue : (fire lt p w).dpcs ≡ (queue_kdpc p.dpcs kdpc).0 =
        dpcs ∙ ap (λ k. (queue_kdpc p.dpcs k).0) has_kdpc in
      let (on, func', ctx') = queued_kdpc p.dpcs kdpc free in
      (unfold prepared in
        (
          ap (λ d. has kdpc d.kdpc_list) queue ∙ on,
          ap (λ d. (d.kdpc kdpc).func) queue ∙ func' ∙ f,
          ap (λ d. (d.kdpc kdpc).ctx) queue ∙ ctx' ∙ c,
          ground (arith, expiry, once),
        ))
