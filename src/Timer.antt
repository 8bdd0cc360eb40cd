-- ===== src/Timer.antt =====
-- driver/ntoskernel.c: the timers of the Windows drivers (wrap_init_timer, wrap_set_timer,
-- KeCancelTimer, timer_proc). A timer is a dispatcher object, so `kernel` holds its header under the
-- timer's address, and it may queue a kdpc. The timers of Linux (mod_timer, del_timer_sync and the
-- call of `timer_proc`) are a parameter. A timer that was never initialised has no `wrap_timer`; the
-- code of wrap_set_timer would then access address 0.
pub mod Linux
pub mod Clock
pub mod Frame
pub mod Cancel
pub mod Fire
pub mod Ndis
use ndiswrapper.Base.{
  ℕ, ◌+◌, ◌%◌, ◌^◌, Bool, true, false, Option, none, some, List, [], ◌∷◌, ◌==◌, if◌then◌else◌, not,
  update, eqb_ℤ, ℤ, pos, is_some,
}
use ndiswrapper.Dispatcher.{
  DhType, notification_object, Kernel, initialize_object, ke_set_event, ke_clear_event,
}
use ndiswrapper.Kdpc.{Dpcs, queue_kdpc}
use ndiswrapper.Timer.Linux.{LinuxTimers}
use ndiswrapper.Timer.Clock.{ticks_1601, system_time_to_hz, msec_to_hz}

-- `struct nt_timer` without its header; NULL is 0.
pub record NtTimer : Type 0 where
  pub wrap_timer : ℕ
  pub kdpc : ℕ

-- `struct wrap_timer` without the timer of Linux; `repeat` is a pattern of 64 bits.
pub record WrapTimer : Type 0 where
  pub nt_timer : ℕ
  pub repeat : ℕ

-- `wnd_timers` holds the lists `wrap_timer_slist` of the network devices, by device.
pub record Timers (T : Type 0) : Type 0 where
  pub kernel : Kernel
  pub dpcs : Dpcs
  pub nt_timers : ℕ → NtTimer
  pub wrap_timers : ℕ → WrapTimer
  pub linux : T
  pub jiffies : ℕ
  pub wrap_timer_slist : List ℕ
  pub wnd_timers : ℕ → List ℕ

module _ {T : Type 0} (lt : LinuxTimers T) where
  -- `wrap_timer` is what the allocator returned, and `wnd` the device of `nmb`, if there is one.
  pub wrap_init_timer : Timers T → ℕ → DhType → Option ℕ → ℕ → Timers T
  wrap_init_timer s nt_timer type wnd wrap_timer =
      let s' = record s {
        linux = lt.timer_setup s.linux wrap_timer;
        wrap_timers = update s.wrap_timers wrap_timer (record { nt_timer = nt_timer; repeat = 0 });
        nt_timers = update s.nt_timers nt_timer (record { wrap_timer = wrap_timer; kdpc = 0 });
        kernel = record s.kernel {
          objects = update s.kernel.objects nt_timer (initialize_object type (pos 0));
        };
      } in
      if wrap_timer == 0 then s else elim wnd [
        | none ↦ record s' { wrap_timer_slist = wrap_timer ∷ s.wrap_timer_slist }
        | some d ↦ record s' { wnd_timers = update s.wnd_timers d (wrap_timer ∷ s.wnd_timers d) }
      ]

  pub ke_initialize_timer_ex : Timers T → ℕ → DhType → ℕ → Timers T
  ke_initialize_timer_ex s nt_timer type wrap_timer =
      wrap_init_timer s nt_timer type none wrap_timer

  pub ke_initialize_timer : Timers T → ℕ → ℕ → Timers T
  ke_initialize_timer s nt_timer wrap_timer =
      wrap_init_timer s nt_timer notification_object none wrap_timer

  pub wrap_set_timer : Timers T → ℕ → ℕ → ℕ → ℕ → Timers T × Bool
  wrap_set_timer s nt_timer expires_hz repeat_hz kdpc =
      let t = s.nt_timers nt_timer in
      let (linux, ret) = lt.mod_timer s.linux t.wrap_timer ((s.jiffies + expires_hz) % 2 ^ 64) in
      (
        record s {
          kernel = ke_clear_event s.kernel nt_timer;
          nt_timers = update s.nt_timers nt_timer (record t { kdpc = kdpc });
          wrap_timers =
              update s.wrap_timers t.wrap_timer
                (record (s.wrap_timers t.wrap_timer) { repeat = repeat_hz });
          linux = linux;
        },
        ret,
      )

  -- `hz` is HZ and `boot` is `wrap_ticks_to_boot`.
  pub ke_set_timer_ex : ℕ → ℕ → Timers T → ℕ → ℤ → ℕ → ℕ → Timers T × Bool
  ke_set_timer_ex hz boot s nt_timer duetime_ticks period_ms kdpc =
      wrap_set_timer s nt_timer (system_time_to_hz hz (ticks_1601 hz boot s.jiffies) duetime_ticks)
        (msec_to_hz hz period_ms) kdpc

  pub ke_set_timer : ℕ → ℕ → Timers T → ℕ → ℤ → ℕ → Timers T × Bool
  ke_set_timer hz boot s nt_timer duetime_ticks kdpc =
      ke_set_timer_ex hz boot s nt_timer duetime_ticks 0 kdpc

  -- timer_proc arms the timer again where `repeat` is not 0 when del_timer_sync starts. A call of
  -- timer_proc that runs at the same time is waited for, and counts as a step before this one.
  pub ke_cancel_timer : Timers T → ℕ → Timers T × Bool
  ke_cancel_timer s nt_timer =
      let w = (s.nt_timers nt_timer).wrap_timer in
      let s' = record s {
        wrap_timers = update s.wrap_timers w (record (s.wrap_timers w) { repeat = 0 });
      } in
      let rearms = not ((s'.wrap_timers w).repeat == 0) in
      let (linux, ret) = lt.del_timer_sync s'.linux w rearms in
      if w == 0 then (s, true) else (record s' { linux = linux }, ret)

  pub ke_read_state_timer : Timers T → ℕ → Bool
  ke_read_state_timer s nt_timer = not (eqb_ℤ (s.kernel.objects nt_timer).signal_state (pos 0))

  pub timer_proc : Timers T → ℕ → Timers T
  timer_proc s wrap_timer =
      let w = s.wrap_timers wrap_timer in
      let kdpc = (s.nt_timers w.nt_timer).kdpc in
      let armed = (lt.mod_timer s.linux wrap_timer ((s.jiffies + w.repeat) % 2 ^ 64)).0 in
      record s {
        kernel = (ke_set_event s.kernel w.nt_timer).0;
        linux = if w.repeat == 0 then s.linux else armed;
        dpcs = if kdpc == 0 then s.dpcs else (queue_kdpc s.dpcs kdpc).0;
      }

  -- What Linux does with a timer that is pending: it takes it off and calls `timer_proc`.
  pub fire : Timers T → ℕ → Timers T
  fire s wrap_timer =
      if is_some (lt.expiry s.linux wrap_timer)
      then timer_proc (record s { linux = lt.expire s.linux wrap_timer }) wrap_timer
      else s
