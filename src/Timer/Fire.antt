-- ===== src/Timer/Fire.antt =====
-- driver/ntoskernel.c: what happens when a timer expires, and a timer that is initialised twice.
use ndiswrapper.Base.{
  ℕ, ◌+◌, ◌%◌, ◌^◌, ◌≡◌, ◌≢◌, refl, sym, ap, ◌∙◌, true, false, none, some, ◌++◌, arith, is_some,
  map, pos, if◌then◌else◌, ◌==◌,
}
use ndiswrapper.Dispatcher.{notification_object, initialize_object}
use ndiswrapper.Dispatcher.Events.{set_notification_event}
use ndiswrapper.Kdpc.{queue_kdpc}
use ndiswrapper.Timer.{
  Timers, ke_initialize_timer, wrap_init_timer, ke_cancel_timer, timer_proc, fire,
}
use ndiswrapper.Timer.Linux.{LinuxTimers, IsLawful}

module _ {T : Type 0} (lt : LinuxTimers T) (laws : IsLawful lt) where
  pending_fires :
      (s : Timers T) (w : ℕ)
      → is_some (lt.expiry s.linux w) ≡ true
      → fire lt s w ≡ timer_proc lt (record s { linux = lt.expire s.linux w }) w
  unfolding fire
  pending_fires s w e = rw e

  -- A notification timer that is pending, unsignalled and has a DPC expires: every thread that waits
  -- for it is woken, in the order in which they queued, the timer is signalled, queue_kdpc is
  -- called for the DPC, and the timer is pending again for the end of the next period if
  -- it has a period, and no longer pending if it has none.
  pub timer_expires :
      (s : Timers T) (t w : ℕ)
      → is_some (lt.expiry s.linux w) ≡ true
      → (s.wrap_timers w).nt_timer ≡ t
      → (s.kernel.objects t).kind ≡ notification_object
      → (s.kernel.objects t).signal_state ≡ pos 0
      → (s.nt_timers t).kdpc ≢ 0
      → let s' = fire lt s w in
        let period = (s.wrap_timers w).repeat in
        ((s'.kernel.objects t).signal_state ≡ pos 1)
        × (s'.kernel.woken
            ≡ s.kernel.woken
              ++ map (λ b. (s.kernel.blocks b).thread) (s.kernel.objects t).wait_blocks)
        × (s'.dpcs ≡ (queue_kdpc s.dpcs (s.nt_timers t).kdpc).0)
        × (lt.expiry s'.linux w
            ≡ (if period == 0 then none else some ((s.jiffies + period) % 2 ^ 64)))
  unfolding timer_proc
  timer_expires s t w e back kind unset dpc =
      let set = set_notification_event s.kernel t kind unset in
      rw (pending_fires s w e) (
        ground (arith, back, set.0),
        ground (arith, back, set.2),
        ground (arith, back, dpc),
        ground (
          arith,
          laws.expire_clears s.linux w,
          laws.mod_sets (lt.expire s.linux w) w ((s.jiffies + (s.wrap_timers w).repeat) % 2 ^ 64),
        ),
      )

  init_keeps :
      (s : Timers T) (t w w' : ℕ)
      → w' ≢ w
      → w' ≢ 0
      → let s' = ke_initialize_timer lt s t w' in
        (lt.expiry s'.linux w ≡ lt.expiry s.linux w)
        × ((s'.wrap_timers w).nt_timer ≡ (s.wrap_timers w).nt_timer)
        × ((s'.nt_timers t).wrap_timer ≡ w')
        × (s'.kernel.objects t ≡ initialize_object notification_object (pos 0))
  unfolding ke_initialize_timer wrap_init_timer
  init_keeps s t w w' other real = (
    ground (arith, laws.setup_keeps s.linux w' w other),
    ground arith,
    ground arith,
    ground arith,
  )

  cancel_keeps :
      (s : Timers T) (t w : ℕ)
      → (s.nt_timers t).wrap_timer ≢ w
      → let s' = (ke_cancel_timer lt s t).0 in
        (lt.expiry s'.linux w ≡ lt.expiry s.linux w)
        × ((s'.wrap_timers w).nt_timer ≡ (s.wrap_timers w).nt_timer)
        × (s'.kernel ≡ s.kernel)
  unfolding ke_cancel_timer
  cancel_keeps s t w n = (
    ground (arith, laws.del_keeps s.linux (s.nt_timers t).wrap_timer w false n),
    ground arith,
    ground arith,
  )

  fire_signals :
      (s : Timers T) (t w : ℕ)
      → is_some (lt.expiry s.linux w) ≡ true
      → (s.wrap_timers w).nt_timer ≡ t
      → s.kernel.objects t ≡ initialize_object notification_object (pos 0)
      → ((fire lt s w).kernel.objects t).signal_state ≡ pos 1
  unfolding timer_proc initialize_object
  fire_signals s t w e back fresh =
      let set = set_notification_event s.kernel t (rw fresh refl) (rw fresh refl) in
      rw (pending_fires s w e) (ground (arith, back, set.0))

  -- A timer is pending when it is initialised a second time, and then cancelled: its first
  -- `wrap_timer` is still pending and still names the timer, so that its expiration still signals it.
  initialised_again_still_fires :
      (s : Timers T) (t w w' : ℕ)
      → (s.wrap_timers w).nt_timer ≡ t
      → is_some (lt.expiry s.linux w) ≡ true
      → w' ≢ w
      → w' ≢ 0
      → let s' = (ke_cancel_timer lt (ke_initialize_timer lt s t w') t).0 in
        (lt.expiry s'.linux w ≡ lt.expiry s.linux w)
        × (((fire lt s' w).kernel.objects t).signal_state ≡ pos 1)
  initialised_again_still_fires s t w w' back e other real =
      let init = init_keeps s t w w' other real in
      let s1 : Timers T = ke_initialize_timer lt s t w' in
      let n : (s1.nt_timers t).wrap_timer ≢ w = λ q. other (sym init.2 ∙ q) in
      let cancel = cancel_keeps s1 t w n in
      let same : lt.expiry (ke_cancel_timer lt s1 t).0.linux w ≡ lt.expiry s.linux w =
        cancel.0 ∙ init.0 in
      (
        same,
        fire_signals _ t w (ap is_some same ∙ e) (cancel.1 ∙ init.1 ∙ back)
            (ap (λ k. k.objects t) cancel.2 ∙ init.3),
      )
