-- ===== src/Examples/Power.antt =====
-- driver/wrapndis.c: network devices on concrete states: the driver accepts or refuses everything.
use ndiswrapper.Base.{ℕ, ◌≡◌, ◌≢◌, refl, true, false, none, some, [], arith, pos}
use ndiswrapper.Power.{Miniport, Device}
use ndiswrapper.Power.State.{mp_set_power_state}
use ndiswrapper.Power.Filter.{weaker}
use ndiswrapper.Power.Cycle.{suspend_then_resume}
use ndiswrapper.Power.Stuck.{halting_wireless_blocks, failed_resume_sticks}

-- A driver that answers every request with `status`, and every query with the number 5.
abbrev answering : ℕ → Miniport
answering status = record {
  is_ndis = true;
  hangcheck = true;
  pnp_event = true;
  param = pos 0;
  hz = 250;
  init = λ c. status;
  set = λ c oid value. status;
  query = λ c oid old. (status, 5);
}

abbrev card : Device
card = record {
  initialized = true;
  suspended = false;
  halted = false;
  disabled = false;
  req_mutex = false;
  tx_mutex = false;
  attached = true;
  no_halt = true;
  surprise_ok = true;
  wireless = true;
  pci = true;
  usb = false;
  wolopts = 0;
  wake_d3 = false;
  wake_enabled = false;
  hangcheck_interval = pos 500;
  hangcheck_armed = true;
  iw_stats_interval = pos 1500;
  iw_stats_armed = true;
  mp_interrupt = true;
  timers = [];
  packet_filter = 11;
  promisc = false;
  allmulti = false;
  mc_count = 0;
  multicast_size = 32;
  calls = [];
}

abbrev asleep : Device
asleep = record card { suspended = true; tx_mutex = true; req_mutex = true; attached = false }

-- Promiscuous and all multicast are dropped before the driver's refusal of 5 is final.
weaker_test : weaker 0x25 ≡ some 5
unfolding weaker
weaker_test = refl

suspend_then_resume_example :
    (e g : Device) × (mp_set_power_state (answering 0) true card 4 ≡ some (e, 0))
    × (mp_set_power_state (answering 0) true e 1 ≡ some (g, 0))
    × ((e.suspended ≡ true)
        × (e.attached ≡ false)
        × (e.req_mutex ≡ true)
        × (e.tx_mutex ≡ true)
        × (e.hangcheck_armed ≡ false)
        × (e.iw_stats_armed ≡ false))
    × ((g.initialized ≡ true)
        × (g.suspended ≡ false)
        × (g.halted ≡ false)
        × (g.req_mutex ≡ false)
        × (g.tx_mutex ≡ false)
        × (g.attached ≡ true)
        × (g.packet_filter ≡ 11)
        × (g.hangcheck_armed ≡ true)
        × (g.iw_stats_armed ≡ true)
        × (g.iw_stats_interval ≡ pos 1500))
suspend_then_resume_example =
    suspend_then_resume (answering 0) true card 4 1499 (λ c v. refl) refl refl refl refl refl
      (λ e. omega arith)

halting_wireless_blocks_example :
    mp_set_power_state (answering 0) true (record card { no_halt = false }) 4 ≡ none
halting_wireless_blocks_example =
    halting_wireless_blocks (answering 0) true (record card { no_halt = false }) 4 refl refl refl
      refl (λ e. omega arith)

failed_resume_sticks_example :
    (e : Device) × (mp_set_power_state (answering 1) true asleep 1 ≡ some (e, 1))
    × (mp_set_power_state (answering 1) true e 1
        ≡ some (record e { req_mutex = false }, 0xC0000001))
    × ((state : ℕ) → state ≢ 1 → mp_set_power_state (answering 1) true e state ≡ none)
failed_resume_sticks_example =
    failed_resume_sticks (answering 1) true asleep refl refl refl (λ e. omega arith)
