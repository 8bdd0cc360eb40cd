-- ===== src/Timer/Frame.antt =====
-- driver/ntoskernel.c: what stays of a timer over any sequence of calls for other timers, of ticks
-- and of expirations.
use ndiswrapper.Base.{
  ℕ, ◌+◌, ◌%◌, ◌^◌, ◌≡◌, ◌≢◌, sym, ◌∙◌, false, Option, none, some, List, [], ◌∷◌, arith,
}
use ndiswrapper.Dispatcher.{DhType}
use ndiswrapper.Timer.{Timers, wrap_init_timer, wrap_set_timer, ke_cancel_timer, timer_proc, fire}
use ndiswrapper.Timer.Linux.{LinuxTimers, IsLawful}

-- The events in a system with timers. `expires` is the expiration of a `wrap_timer`; `ticks` sets the
-- clock.
pub data TimerEvent : Type 0 where
  initializes : ℕ → DhType → Option ℕ → ℕ → TimerEvent
  sets : ℕ → ℕ → ℕ → ℕ → TimerEvent
  cancels expires ticks : ℕ → TimerEvent

-- An event that neither initialises nor sets the timer `t`, and whose allocation is not `w`.
abbrev pub Leaves : ℕ → ℕ → TimerEvent → Type 0
Leaves t w (initializes t' type wnd w') = (t' ≢ t) × (w' ≢ w)
Leaves t w (sets t' expires_hz repeat_hz kdpc) = t' ≢ t
Leaves t w _ = Unit

-- Moreover it does not cancel `t`.
abbrev pub Spares : ℕ → ℕ → TimerEvent → Type 0
Spares t w (cancels t') = t' ≢ t
Spares t w e = Leaves t w e

module _ {T : Type 0} (lt : LinuxTimers T) where
  unfoldable pub run_event : Timers T → TimerEvent → Timers T
  run_event s (initializes t type wnd w) = wrap_init_timer lt s t type wnd w
  run_event s (sets t expires_hz repeat_hz kdpc) =
      (wrap_set_timer lt s t expires_hz repeat_hz kdpc).0
  run_event s (cancels t) = (ke_cancel_timer lt s t).0
  run_event s (expires w) = fire lt s w
  run_event s (ticks j) = record s { jiffies = j }

  unfoldable pub run_events : Timers T → List TimerEvent → Timers T
  run_events s [] = s
  run_events s (e ∷ es) = run_events (run_event s e) es

-- `t` has the `wrap_timer` `w`, and no other timer has it.
pub record IsOwner {T : Type 0} (s : Timers T) (t w : ℕ) : Type 0 where
  pub has : (s.nt_timers t).wrap_timer ≡ w
  pub alone : (t' : ℕ) → t' ≢ t → (s.nt_timers t').wrap_timer ≢ w
  pub real : w ≢ 0

module _ {T : Type 0} (lt : LinuxTimers T) (laws : IsLawful lt) (t w : ℕ) where
  -- Both states have the same timer in Linux, the same period and the same owner.
  pub record IsSame (s s' : Timers T) : Type 0 where
    pub expiry : lt.expiry s'.linux w ≡ lt.expiry s.linux w
    pub repeat : (s'.wrap_timers w).repeat ≡ (s.wrap_timers w).repeat
    pub owner : IsOwner s t w → IsOwner s' t w

  pub same-IsOwner :
      (s s' : Timers T)
      → ((q : ℕ) → (s'.nt_timers q).wrap_timer ≡ (s.nt_timers q).wrap_timer)
      → IsOwner s t w
      → IsOwner s' t w
  same-IsOwner s s' e o = record {
    has = e t ∙ o.has;
    alone = λ q n. λ g. o.alone q n (sym (e q) ∙ g);
    real = o.real;
  }

  pub init-IsSame :
      (s : Timers T) (t' : ℕ) (type : DhType) (wnd : Option ℕ) (w' : ℕ)
      → t' ≢ t
      → w' ≢ w
      → IsSame s (wrap_init_timer lt s t' type wnd w')
  unfolding wrap_init_timer
  init-IsSame s t' type none w' nt nw = record {
    expiry = ground (arith, laws.setup_keeps s.linux w' w nw);
    repeat = ground arith;
    owner = λ o. record {
      has = ground (arith, o.has);
      alone = λ q n. ground (arith, o.alone q n);
      real = o.real;
    };
  }
  init-IsSame s t' type (some d) w' nt nw = record {
    expiry = ground (arith, laws.setup_keeps s.linux w' w nw);
    repeat = ground arith;
    owner = λ o. record {
      has = ground (arith, o.has);
      alone = λ q n. ground (arith, o.alone q n);
      real = o.real;
    };
  }

  pub set-IsSame :
      (s : Timers T) (t' expires_hz repeat_hz kdpc : ℕ)
      → (s.nt_timers t').wrap_timer ≢ w
      → IsSame s (wrap_set_timer lt s t' expires_hz repeat_hz kdpc).0
  unfolding wrap_set_timer
  set-IsSame s t' expires_hz repeat_hz kdpc n = record {
    expiry = laws.mod_keeps s.linux _ _ w n;
    repeat = ground arith;
    owner = same-IsOwner s _ λ q. ground arith;
  }

  pub cancel-IsSame :
      (s : Timers T) (t' : ℕ)
      → (s.nt_timers t').wrap_timer ≢ w
      → IsSame s (ke_cancel_timer lt s t').0
  unfolding ke_cancel_timer
  cancel-IsSame s t' n = record {
    expiry = ground (arith, laws.del_keeps s.linux (s.nt_timers t').wrap_timer w false n);
    repeat = ground arith;
    owner = same-IsOwner s _ λ q. ground arith;
  }

  pub proc-IsOwner : (s : Timers T) (w' : ℕ) → IsOwner s t w → IsOwner (fire lt s w') t w
  unfolding fire timer_proc
  proc-IsOwner s w' = same-IsOwner s _ λ q. ground arith

  pub proc-IsSame : (s : Timers T) (w' : ℕ) → w' ≢ w → IsSame s (fire lt s w')
  unfolding fire timer_proc
  proc-IsSame s w' n = record {
    expiry = ground (
      arith,
      laws.expire_keeps s.linux w' w n,
      laws.mod_keeps (lt.expire s.linux w') w' ((s.jiffies + (s.wrap_timers w').repeat) % 2 ^ 64) w
          n,
    );
    repeat = ground arith;
    owner = proc-IsOwner s w';
  }
