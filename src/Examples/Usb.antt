-- ===== src/Examples/Usb.antt =====
-- driver/usb.c: the requests of USB drivers on concrete states. IRP 3 owns the wrap_urb 10, which Linux
-- has, and IRP 4 owns nothing.
use ndiswrapper.Base.{
  ℕ, ◌+◌, ◌/◌, ◌%◌, ◌≡◌, refl, true, false, ◌&&◌, [], ◌∷◌, ◌++◌, arith, ◌==◌, if◌then◌else◌, has,
  pos, none, update, ◌⊎◌, times,
}
use ndiswrapper.Usb.{
  allocated, submitted, free, WrapUrb, UsbIrp, Urbs, is_submitted, take_urb, wrap_submit_urb,
  wrap_urb_complete, errno, find_free,
}
use ndiswrapper.Usb.Invariant.{IsUrbs}
use ndiswrapper.Usb.Steps.{answered}
use ndiswrapper.Usb.Schedule.{Reach, starts, takes, accepts, in_flight}
use ndiswrapper.Usb.Conserve.{requests_complete_once, cancel_finds_urb}
use ndiswrapper.Usb.Kill.{kill_all_urbs, killed_urb_stays_listed}
use ndiswrapper.Usb.Pipes.{Endpoint, wrap_abort_pipe, select, abort_in_pipe_misses}
use ndiswrapper.Usb.Submit.{
  PipeCoding, Answers, wrap_bulk_or_intr_trans, wrap_vendor_or_class_req, IsSettled,
  transfer_settles,
}

abbrev idle_irp : UsbIrp
idle_irp = record {
  wrap_urb = 0;
  cancel_routine = false;
  cancel = false;
  pending = false;
  status = 0;
  info = 0;
  nt_status = 0;
  buffer = 1 ∷ 2 ∷ [];
  buffer_length = 2;
  dma_needed = true;
}

abbrev idle_urb : WrapUrb
idle_urb = record {
  state = free;
  copy_buffer = false;
  irp = 0;
  pipe = 0;
  transfer_buffer = [];
  transfer_buffer_length = 0;
  setup_packet = none;
  short_not_ok = false;
  status = pos 0;
  actual_length = 0;
}

abbrev empty : Urbs
empty = record {
  urbs = λ _. idle_urb;
  irps = λ _. idle_irp;
  wrap_urb_list = [];
  num_alloc_urbs = 0;
  complete_list = [];
  completed_irps = [];
  unlinked = [];
  released = [];
  hw_disabled = false;
}

-- The IRP 3 takes a new wrap_urb and is accepted.
abbrev holding : Urbs
holding = (take_urb empty 3 10).0

abbrev sent : Urbs
sent = (wrap_submit_urb holding 3 (pos 0)).0

taken-Reach : Reach holding []
taken-Reach = takes empty [] 3 10 refl refl (starts empty refl refl refl refl (λ i. (refl, refl)))

sent-Reach : Reach sent (3 ∷ [])
unfolding take_urb find_free
sent-Reach = accepts holding [] 3 (λ e. omega arith) refl taken-Reach

requests_complete_once_example :
    times 3 (3 ∷ []) ≡ times 3 sent.completed_irps + (if in_flight sent 3 then 1 else 0)
requests_complete_once_example = requests_complete_once sent-Reach 3

taken_cancels : (holding.irps 3).cancel_routine ≡ true
unfolding take_urb find_free
taken_cancels = refl

cancel_finds_urb_example :
    let w = (holding.irps 3).wrap_urb in
    (has w holding.wrap_urb_list ≡ true)
    × ((holding.urbs w).irp ≡ 3)
    × (((holding.urbs w).state ≡ allocated) ⊎ ((holding.urbs w).state ≡ submitted))
cancel_finds_urb_example = cancel_finds_urb taken-Reach 3 taken_cancels

-- Linux's pipes: an endpoint number of four bits, and the direction in the bit 0x80.
abbrev coding : PipeCoding
coding = record {
  rcvbulk = λ a. a % 16 + 128;
  sndbulk = λ a. a % 16;
  rcvint = λ a. a % 16 + 128;
  sndint = λ a. a % 16;
  rcvctrl = 128;
  sndctrl = 0;
  pipein = λ p. (p / 128) % 2 == 1;
}

abbrev answers : Answers
answers = record { fresh = 10; dma = true; setup_memory = false; submit = errno 19 }

abbrev endpoint : Endpoint
endpoint = record { address = 0x81; attributes = 2; max_packet_size = 64; interval = 0 }

transfer_settles_example :
    IsSettled 4 (wrap_bulk_or_intr_trans coding answers empty 4 endpoint true false)
    × IsSettled 4 (wrap_vendor_or_class_req coding answers empty 4 0x17 true false 0 7 8 9)
transfer_settles_example =
    transfer_settles coding answers empty 4 0x17 endpoint true false 0 7 8 9 refl refl

abbrev kill : Urbs → ℕ → Urbs
kill s w = wrap_urb_complete (answered s w (errno 2) 0 []) w

-- A device with one wrap_urb that Linux has.
abbrev busy : Urbs
busy = record empty {
  urbs = update empty.urbs 10 (record idle_urb { state = submitted; irp = 3; pipe = 129 });
  irps = update empty.irps 3 (record idle_irp { wrap_urb = 10; cancel_routine = true });
  wrap_urb_list = 10 ∷ [];
  num_alloc_urbs = 1;
}

busy-IsUrbs : IsUrbs busy
busy-IsUrbs = record {
  distinct = (refl, tt);
  count = refl;
  real = refl;
  listed = λ i. ground arith;
  active = λ i. ground arith;
  back = λ i. ground arith;
  owned = λ w. ground arith;
  queue = λ w. ground arith;
  queue_distinct = tt;
  cancelled = λ i. ground arith;
}

killed_urb_stays_listed_example :
    (has 10 (kill_all_urbs kill true busy).complete_list ≡ true)
    × (has 10 (kill_all_urbs kill true busy).released ≡ true)
killed_urb_stays_listed_example =
    killed_urb_stays_listed kill (λ s w. refl) busy 10 busy-IsUrbs refl refl

abort_in_pipe_misses_example :
    (wrap_abort_pipe (λ p. p % 16) (λ _. errno 115) busy 4 0x81).0.unlinked
    ≡ busy.unlinked
      ++ select
          (λ w. is_submitted (busy.urbs w).state && ((busy.urbs w).pipe % 16 == 0))
          busy.wrap_urb_list
abort_in_pipe_misses_example =
    abort_in_pipe_misses (λ p. p % 16) (λ _. errno 115) busy 4 0x81 (λ p. omega arith) (omega arith)
