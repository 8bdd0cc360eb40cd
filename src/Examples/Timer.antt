-- ===== src/Examples/Timer.antt =====
-- driver/ntoskernel.c: timers over a concrete model of the timers of Linux, which maps an address to
-- the time at which its timer is due.
use ndiswrapper.Base.{
  ℕ, ◌+◌, ◌≡◌, refl, true, false, Option, none, some, List, [], ◌∷◌, ◌==◌, if◌then◌else◌, arith,
  has, update, is_some, pos,
}
use ndiswrapper.Dispatcher.{notification_object, synchronization_object}
use ndiswrapper.Kdpc.{low_importance}
use ndiswrapper.Timer.{Timers, wrap_set_timer, ke_cancel_timer, fire}
use ndiswrapper.Timer.Linux.{LinuxTimers, IsLawful}
use ndiswrapper.Timer.Ndis.{ndis_initialize_timer, ndis_set_timer, ndis_timer_calls_driver}
use ndiswrapper.Timer.Frame.{
  TimerEvent, initializes, sets, cancels, expires, ticks, run_events, IsOwner,
}
use ndiswrapper.Timer.Cancel.{cancelled_timer_stays_quiet, periodic_timer_stays_armed}

abbrev Due : Type 0
Due = ℕ → Option ℕ

abbrev linux : LinuxTimers Due
linux = record {
  timer_setup = λ s p. update s p none;
  mod_timer = λ s p e. (update s p (some e), is_some (s p));
  del_timer_sync = λ s p rearms. (if rearms then s else update s p none, is_some (s p));
  expire = λ s p. update s p none;
  expiry = λ s p. s p;
}

linux-IsLawful : IsLawful linux
linux-IsLawful = record {
  setup_clears = λ s p. ground arith;
  setup_keeps = λ s p q n. ground arith;
  mod_sets = λ s p e. ground arith;
  mod_returns = λ s p e. refl;
  mod_keeps = λ s p e q n. ground arith;
  del_clears = λ s p. ground arith;
  del_returns = λ s p rearms. refl;
  del_keeps = λ s p q rearms n. ground arith;
  expire_clears = λ s p. ground arith;
  expire_keeps = λ s p q n. ground arith;
}

-- Timer 1 has the wrap_timer 10, the DPC 3, a period of 5 jiffies and two waiters, and is pending.
abbrev system : Timers Due
system = record {
  kernel = record {
    objects = λ _. record {
      kind = notification_object;
      signal_state = pos 0;
      wait_blocks = 7 ∷ 8 ∷ [];
      owner_thread = 0;
      limit = pos 0;
    };
    blocks = λ b. record { thread = b + 10; object = none; wait_done = 5 };
    done = λ _. false;
    woken = [];
    corrupt = false;
  };
  dpcs = record {
    kdpc = λ p. record {
      importance = low_importance;
      func = p;
      ctx = 0;
      arg1 = 0;
      arg2 = 0;
      queued = false;
    };
    kdpc_list = [];
    scheduled = 0;
  };
  nt_timers = λ t. record { wrap_timer = if t == 1 then 10 else 0; kdpc = 3 };
  wrap_timers = λ w. record { nt_timer = 1; repeat = 5 };
  linux = λ w. if w == 10 then some 100 else none;
  jiffies = 100;
  wrap_timer_slist = 10 ∷ [];
  wnd_timers = λ _. [];
}

system-IsOwner : IsOwner system 1 10
system-IsOwner = record { has = refl; alone = λ t n. ground arith; real = λ e. omega arith }

abbrev events : List TimerEvent
events =
    initializes 2 synchronization_object none 11
    ∷ sets 2 4 9 0
    ∷ expires 10
    ∷ ticks 104
    ∷ expires 11
    ∷ cancels 2
    ∷ []

cancelled_timer_stays_quiet_example :
    let s' = run_events linux (ke_cancel_timer linux system 1).0 events in
    (linux.expiry s'.linux 10 ≡ none) × (fire linux s' 10 ≡ s')
cancelled_timer_stays_quiet_example =
    cancelled_timer_stays_quiet linux linux-IsLawful 1 10 system events system-IsOwner
      ((λ e. omega arith, λ e. omega arith), (λ e. omega arith, (tt, (tt, (tt, (tt, tt))))))

periodic_timer_stays_armed_example :
    is_some
      (linux.expiry (run_events linux (wrap_set_timer linux system 1 6 5 3).0 events).linux 10)
    ≡ true
periodic_timer_stays_armed_example =
    periodic_timer_stays_armed linux linux-IsLawful 1 10 system 6 5 3 events (λ e. omega arith)
      system-IsOwner
      (
        (λ e. omega arith, λ e. omega arith),
        (λ e. omega arith, (tt, (tt, (tt, (λ e. omega arith, tt))))),
      )

ndis_timer_calls_driver_example :
    let s1 = ndis_initialize_timer linux system 2 5 77 88 11 in
    let s2 = fire linux (ndis_set_timer linux 1000 s1 2 5 20) 11 in
    (has 5 s2.dpcs.kdpc_list ≡ true)
    × ((s2.dpcs.kdpc 5).func ≡ 77)
    × ((s2.dpcs.kdpc 5).ctx ≡ 88)
    × (linux.expiry s2.linux 11 ≡ none)
ndis_timer_calls_driver_example =
    ndis_timer_calls_driver linux linux-IsLawful 1000 system 2 5 77 88 11 20 (λ e. omega arith)
      (λ e. omega arith)
