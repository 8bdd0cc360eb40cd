-- ===== src/Power/Cycle.antt =====
-- driver/wrapndis.c: a device that is suspended, or halted instead, and resumed.
use ndiswrapper.Base.{
  ℕ, suc, ◌≡◌, ◌≢◌, refl, ap, ◌∙◌, Bool, true, false, ◌&&◌, not, none, some, List, [], ◌∷◌, ◌++◌,
  ◌==◌, if◌then◌else◌, ◌>>=◌, arith, pos, negsuc, ltb_ℤ,
}
use ndiswrapper.Power.{
  Miniport, Device, Call, sets, mp_set, lock_req, hangcheck_add, hangcheck_del, add_iw_stats_timer,
  del_iw_stats_timer,
}
use ndiswrapper.Power.State.{
  woken, power_up, power_down, ask_suspend, finish_down, stopped, halt_instead, mp_set_power_state,
  wake_suspended,
}
use ndiswrapper.Power.Stuck.{down_open}

-- The driver accepts every change of the power state.
abbrev pub AcceptsPower : Miniport → Type 0
AcceptsPower m = (c : List Call) (v : ℕ) → m.set c 0xFD010101 v ≡ 0

-- The driver is asked twice, and then the device counts as suspended.
ask_yes :
    (m : Miniport) (d : Device) (state : ℕ)
    → AcceptsPower m
    → d.no_halt ≡ true
    → d.req_mutex ≡ false
    → (c : List Call) × (b : Bool) × (ask_suspend m d state
        ≡ some (record d { calls = c; wake_d3 = b; suspended = true }, 0))
unfolding ask_suspend mp_set
ask_yes m d state yes_power n q =
    let c = d.calls ++ sets 0xFD010106 d.wolopts ∷ [] in
    let wake = (m.set d.calls 0xFD010106 d.wolopts == 0) && d.pci in
    (
      c ++ sets 0xFD010101 state ∷ [],
      if wake then not (d.wolopts == 0) else d.wake_d3,
      ground (arith, n, q, yes_power c state),
    )

stopped_open :
    (d : Device) → ((stopped d).no_halt ≡ d.no_halt) × ((stopped d).req_mutex ≡ d.req_mutex)
unfolding stopped hangcheck_del del_iw_stats_timer
stopped_open d = ground arith

-- What the device is after power_down.
abbrev down : Device → List Call → Bool → Device
down d c b = record (stopped (record d { tx_mutex = true })) {
  req_mutex = true;
  calls = c;
  wake_d3 = b;
  suspended = true;
}

down_suspends :
    (m : Miniport) (d : Device) (state : ℕ)
    → AcceptsPower m
    → d.no_halt ≡ true
    → d.req_mutex ≡ false
    → d.tx_mutex ≡ false
    → (c : List Call) × (b : Bool) × (power_down m d state ≡ some (down d c b, 0))
unfolding finish_down halt_instead lock_req
down_suspends m d state yes_power n q t =
    let e = stopped (record d { tx_mutex = true }) in
    let (n', q') = stopped_open (record d { tx_mutex = true }) in
    let (c, b, asked) = ask_yes m e state yes_power (n' ∙ n) (q' ∙ q) in
    (
      c,
      b,
      down_open m d state t
          ∙ ap (λ o. o >>= finish_down m) asked
          ∙ ap (λ r. (if r then none else some (down d c b)) >>= λ x. some (x, 0)) (q' ∙ q),
    )

up_resumes :
    (m : Miniport) (memory : Bool) (d : Device)
    → AcceptsPower m
    → d.suspended ≡ true
    → d.halted ≡ false
    → (c : List Call) × (w : Bool) × (power_up m memory d
        ≡ some (
          add_iw_stats_timer (
              hangcheck_add m (record d {
                req_mutex = false;
                suspended = false;
                calls = c;
                wake_enabled = w;
                tx_mutex = false;
                attached = true;
              })),
          0,
        ))
unfolding power_up wake_suspended woken mp_set
up_resumes m memory d yes_power s h = (
  d.calls ++ sets 0xFD010101 1 ∷ [],
  if d.pci then false else d.wake_enabled,
  ground (arith, s, h, yes_power d.calls 1),
)

down_ring : (d : Device) (c : List Call) (b : Bool) → (down d c b).tx_mutex ≡ true
unfolding stopped hangcheck_del del_iw_stats_timer
down_ring d c b = ground arith

down_lem :
    (d : Device) (c : List Call) (b : Bool)
    → ((down d c b).attached ≡ false)
      × ((down d c b).hangcheck_armed ≡ false)
      × ((down d c b).iw_stats_armed ≡ false)
      × ((down d c b).halted ≡ d.halted)
unfolding stopped hangcheck_del del_iw_stats_timer
down_lem d c b = ground arith

-- What the timers and the other fields are behind the two calls.
resumed_lem :
    (m : Miniport) (d : Device) (c c' : List Call) (b w : Bool) (k : ℕ)
    → d.iw_stats_interval ≡ pos (suc k)
    → let g = add_iw_stats_timer (
        hangcheck_add m (record (down d c b) {
          req_mutex = false;
          suspended = false;
          calls = c';
          wake_enabled = w;
          tx_mutex = false;
          attached = true;
        })) in
      (g.initialized ≡ d.initialized)
      × (g.suspended ≡ false)
      × (g.halted ≡ d.halted)
      × (g.req_mutex ≡ false)
      × (g.tx_mutex ≡ false)
      × (g.attached ≡ true)
      × (g.packet_filter ≡ d.packet_filter)
      × (g.hangcheck_armed ≡ (m.hangcheck && not (ltb_ℤ m.param (pos 0))))
      × (g.iw_stats_armed ≡ d.wireless)
      × (g.iw_stats_interval ≡ (if d.wireless then d.iw_stats_interval else negsuc k))
unfolding add_iw_stats_timer hangcheck_add stopped hangcheck_del del_iw_stats_timer
resumed_lem m d c c' b w k e = (
  ground arith,
  ground arith,
  ground arith,
  ground arith,
  ground arith,
  ground arith,
  ground arith,
  ground arith,
  ground (arith, e),
  ground (arith, e),
)

-- A device has the attribute NO_HALT_ON_SUSPEND and a driver that accepts each power state; it is not
-- halted, both its mutexes are free, and its interval of the wireless statistics is above 0. It is
-- suspended, to a state other than D0, and resumed. Suspended, it is detached, holds both mutexes and has no timers; resumed, it
-- is as before: attached, with both mutexes free and the same filter, the timer of MiniportCheckForHang
-- runs if the driver has that function and the module's parameter allows it, and the timer of the
-- wireless statistics runs again, with its interval, just on a wireless device.
pub suspend_then_resume :
    (m : Miniport) (memory : Bool) (d : Device) (state k : ℕ)
    → AcceptsPower m
    → d.halted ≡ false
    → d.no_halt ≡ true
    → d.req_mutex ≡ false
    → d.tx_mutex ≡ false
    → d.iw_stats_interval ≡ pos (suc k)
    → state ≢ 1
    → (e g : Device) × (mp_set_power_state m memory d state ≡ some (e, 0))
      × (mp_set_power_state m memory e 1 ≡ some (g, 0))
      × ((e.suspended ≡ true)
          × (e.attached ≡ false)
          × (e.req_mutex ≡ true)
          × (e.tx_mutex ≡ true)
          × (e.hangcheck_armed ≡ false)
          × (e.iw_stats_armed ≡ false))
      × ((g.initialized ≡ d.initialized)
          × (g.suspended ≡ false)
          × (g.halted ≡ d.halted)
          × (g.req_mutex ≡ false)
          × (g.tx_mutex ≡ false)
          × (g.attached ≡ true)
          × (g.packet_filter ≡ d.packet_filter)
          × (g.hangcheck_armed ≡ (m.hangcheck && not (ltb_ℤ m.param (pos 0))))
          × (g.iw_stats_armed ≡ d.wireless)
          × (g.iw_stats_interval ≡ (if d.wireless then d.iw_stats_interval else negsuc k)))
unfolding mp_set_power_state
suspend_then_resume m memory d state k yes_power h n q t i s =
    let other : (state == 1) ≡ false = ground (arith, s) in
    let (c, b, suspends) = down_suspends m d state yes_power n q t in
    let (detached, hang, stats, halted) = down_lem d c b in
    let (c', w, resumes) = up_resumes m memory (down d c b) yes_power refl (halted ∙ h) in
    (
      down d c b,
      _,
      rw other suspends,
      resumes,
      (refl, detached, refl, down_ring d c b, hang, stats),
      resumed_lem m d c c' b w k i,
    )
