-- ===== src/Timer/Cancel.antt =====
-- driver/ntoskernel.c: a cancelled timer stays quiet, and a periodic timer stays armed.
use ndiswrapper.Base.{
  ℕ, ◌+◌, ◌%◌, ◌^◌, ◌≡◌, ◌≢◌, refl, sym, ◌∙◌, true, none, List, [], ◌∷◌, arith, All, is_some,
  Bool-cases, inl, inr, ◌==◌, subst,
}
use ndiswrapper.Timer.{Timers, wrap_set_timer, ke_cancel_timer, timer_proc, fire}
use ndiswrapper.Timer.Linux.{LinuxTimers, IsLawful}
use ndiswrapper.Timer.Frame.{
  TimerEvent, initializes, sets, cancels, expires, ticks, Leaves, Spares, run_event, run_events,
  IsOwner, IsSame, same-IsOwner, init-IsSame, set-IsSame, cancel-IsSame, proc-IsOwner, proc-IsSame,
}

module _ {T : Type 0} (lt : LinuxTimers T) (laws : IsLawful lt) (t w : ℕ) where
  -- The timer is not pending and not periodic.
  pub record IsQuiet (s : Timers T) : Type 0 where
    pub expiry : lt.expiry s.linux w ≡ none
    pub repeat : (s.wrap_timers w).repeat ≡ 0
    pub owner : IsOwner s t w

  -- The timer is pending and periodic.
  pub record IsPeriodic (s : Timers T) : Type 0 where
    pub expiry : is_some (lt.expiry s.linux w) ≡ true
    pub repeat : (s.wrap_timers w).repeat ≢ 0
    pub owner : IsOwner s t w

  IsQuiet-same : (s s' : Timers T) → IsSame lt laws t w s s' → IsQuiet s → IsQuiet s'
  IsQuiet-same s s' same q = record {
    expiry = same.expiry ∙ q.expiry;
    repeat = same.repeat ∙ q.repeat;
    owner = same.owner q.owner;
  }

  IsPeriodic-same : (s s' : Timers T) → IsSame lt laws t w s s' → IsPeriodic s → IsPeriodic s'
  IsPeriodic-same s s' same q = record {
    expiry = rw same.expiry q.expiry;
    repeat = rw same.repeat q.repeat;
    owner = same.owner q.owner;
  }

  fire_quiet : (s : Timers T) → lt.expiry s.linux w ≡ none → fire lt s w ≡ s
  unfolding fire
  fire_quiet s e = rw e

  cancel_IsQuiet : (s : Timers T) → IsOwner s t w → IsQuiet (ke_cancel_timer lt s t).0
  unfolding ke_cancel_timer
  cancel_IsQuiet s o = record {
    expiry = ground (arith, o.has, o.real, laws.del_clears s.linux w);
    repeat = ground (arith, o.has, o.real);
    owner = same-IsOwner lt laws t w s _ (λ q. ground arith) o;
  }

  fire-IsPeriodic : (s : Timers T) → IsPeriodic s → IsPeriodic (fire lt s w)
  unfolding fire timer_proc
  fire-IsPeriodic s q = record {
    expiry = ground (
      arith,
      q.expiry,
      q.repeat,
      laws.mod_sets (lt.expire s.linux w) w ((s.jiffies + (s.wrap_timers w).repeat) % 2 ^ 64),
    );
    repeat = ground (arith, q.repeat);
    owner = proc-IsOwner lt laws t w s w q.owner;
  }

  other : (s : Timers T) (t' : ℕ) → IsOwner s t w → t' ≢ t → (s.nt_timers t').wrap_timer ≢ w
  other s t' o n = o.alone t' n

  tick-IsSame : (s : Timers T) (j : ℕ) → IsSame lt laws t w s (run_event lt s (ticks j))
  unfolding run_event
  tick-IsSame s j = record {
    expiry = refl;
    repeat = refl;
    owner = same-IsOwner lt laws t w s _ λ q. refl;
  }

  cancel_same_or_IsQuiet : (s : Timers T) (t' : ℕ) → IsQuiet s → IsQuiet (ke_cancel_timer lt s t').0
  cancel_same_or_IsQuiet s t' q = elim (Bool-cases (t' == t)) [
    | inl e ↦
        let same : t' ≡ t = ground arith in
        subst (λ u. IsQuiet (ke_cancel_timer lt s u).0) (sym same) (cancel_IsQuiet s q.owner)
    | inr n ↦ IsQuiet-same s _ (cancel-IsSame lt laws t w s t' (q.owner.alone t' (ground arith))) q
  ]

  fire-IsQuiet : (s : Timers T) (w' : ℕ) → IsQuiet s → IsQuiet (fire lt s w')
  fire-IsQuiet s w' q = elim (Bool-cases (w' == w)) [
    | inl e ↦
        let same : w' ≡ w = ground arith in
        subst (λ u. IsQuiet (fire lt s u)) (sym same)
          (subst IsQuiet (sym (fire_quiet s q.expiry)) q)
    | inr n ↦ IsQuiet-same s _ (proc-IsSame lt laws t w s w' (ground arith)) q
  ]

  event_IsQuiet :
      (s : Timers T) (e : TimerEvent) → Leaves t w e → IsQuiet s → IsQuiet (run_event lt s e)
  unfolding run_event
  event_IsQuiet s (initializes t' type wnd w') l q =
      IsQuiet-same s _ (init-IsSame lt laws t w s t' type wnd w' l.0 l.1) q
  event_IsQuiet s (sets t' expires_hz repeat_hz kdpc) l q =
      IsQuiet-same s _ (set-IsSame lt laws t w s t' expires_hz repeat_hz kdpc (q.owner.alone t' l))
        q
  event_IsQuiet s (cancels t') l q = cancel_same_or_IsQuiet s t' q
  event_IsQuiet s (expires w') l q = fire-IsQuiet s w' q
  event_IsQuiet s (ticks j) l q = IsQuiet-same s _ (tick-IsSame s j) q

  fire_any_IsPeriodic : (s : Timers T) (w' : ℕ) → IsPeriodic s → IsPeriodic (fire lt s w')
  fire_any_IsPeriodic s w' q = elim (Bool-cases (w' == w)) [
    | inl e ↦
        let same : w' ≡ w = ground arith in
        subst (λ u. IsPeriodic (fire lt s u)) (sym same) (fire-IsPeriodic s q)
    | inr n ↦ IsPeriodic-same s _ (proc-IsSame lt laws t w s w' (ground arith)) q
  ]

  event_IsPeriodic :
      (s : Timers T) (e : TimerEvent) → Spares t w e → IsPeriodic s → IsPeriodic (run_event lt s e)
  unfolding run_event
  event_IsPeriodic s (initializes t' type wnd w') l q =
      IsPeriodic-same s _ (init-IsSame lt laws t w s t' type wnd w' l.0 l.1) q
  event_IsPeriodic s (sets t' expires_hz repeat_hz kdpc) l q =
      IsPeriodic-same s _
        (set-IsSame lt laws t w s t' expires_hz repeat_hz kdpc (q.owner.alone t' l)) q
  event_IsPeriodic s (cancels t') l q =
      IsPeriodic-same s _ (cancel-IsSame lt laws t w s t' (q.owner.alone t' l)) q
  event_IsPeriodic s (expires w') l q = fire_any_IsPeriodic s w' q
  event_IsPeriodic s (ticks j) l q = IsPeriodic-same s _ (tick-IsSame s j) q

  events_IsQuiet :
      (es : List TimerEvent) (s : Timers T)
      → All (Leaves t w) es
      → IsQuiet s
      → IsQuiet (run_events lt s es)
  unfolding run_events
  events_IsQuiet [] s l q = q
  events_IsQuiet (e ∷ es) s l q = events_IsQuiet es (run_event lt s e) l.1 (event_IsQuiet s e l.0 q)

  events_IsPeriodic :
      (es : List TimerEvent) (s : Timers T)
      → All (Spares t w) es
      → IsPeriodic s
      → IsPeriodic (run_events lt s es)
  unfolding run_events
  events_IsPeriodic [] s l q = q
  events_IsPeriodic (e ∷ es) s l q =
      events_IsPeriodic es (run_event lt s e) l.1 (event_IsPeriodic s e l.0 q)

  -- After KeCancelTimer the timer never expires again, whatever other timers do, the clock shows and
  -- Linux finds due, until it is set or initialised anew. It is assumed that Linux's timers do what
  -- their documentation says, where del_timer_sync takes a timer off only if nothing arms it again, that
  -- no other timer has the same `wrap_timer`, and that the allocator does not hand its memory out again.
  -- KeCancelTimer and each call of timer_proc are one step.
  pub cancelled_timer_stays_quiet :
      (s : Timers T) (es : List TimerEvent)
      → IsOwner s t w
      → All (Leaves t w) es
      → let s' = run_events lt (ke_cancel_timer lt s t).0 es in
        (lt.expiry s'.linux w ≡ none) × (fire lt s' w ≡ s')
  cancelled_timer_stays_quiet s es o l =
      let q = events_IsQuiet es _ l (cancel_IsQuiet s o) in (q.expiry, fire_quiet _ q.expiry)

  set_IsPeriodic :
      (s : Timers T) (expires_hz repeat_hz kdpc : ℕ)
      → repeat_hz ≢ 0
      → IsOwner s t w
      → IsPeriodic (wrap_set_timer lt s t expires_hz repeat_hz kdpc).0
  unfolding wrap_set_timer
  set_IsPeriodic s expires_hz repeat_hz kdpc n o = record {
    expiry = rw o.has (rw (laws.mod_sets s.linux w ((s.jiffies + expires_hz) % 2 ^ 64)) refl);
    repeat = ground (arith, o.has);
    owner = same-IsOwner lt laws t w s _ (λ q. ground arith) o;
  }

  -- A timer that was set with a period stays pending, however often it expires and whatever other
  -- timers do, until it is set, cancelled or initialised again. The assumptions are those of a
  -- cancelled timer.
  pub periodic_timer_stays_armed :
      (s : Timers T) (expires_hz repeat_hz kdpc : ℕ) (es : List TimerEvent)
      → repeat_hz ≢ 0
      → IsOwner s t w
      → All (Spares t w) es
      → is_some
          (lt.expiry (run_events lt (wrap_set_timer lt s t expires_hz repeat_hz kdpc).0 es).linux w)
        ≡ true
  periodic_timer_stays_armed s expires_hz repeat_hz kdpc es n o l =
      (events_IsPeriodic es _ l (set_IsPeriodic s expires_hz repeat_hz kdpc n o)).expiry
