-- ===== src/Usb/Transfer.antt =====
-- driver/usb.c: the life of an urb, from wrap_alloc_urb over the submission, the cancelling and the
-- completion by Linux to the worker that completes the IRP. Each part under a lock is one step.
use ndiswrapper.Base.{
  ℕ, zero, suc, ◌+◌, ◌-◌, Bool, true, false, ◌&&◌, ◌||◌, List, [], ◌∷◌, ◌++◌, ◌==◌, if◌then◌else◌,
  ltb, erase, update, ℤ, pos, negsuc, eqb_ℤ, take, drop, status_success, status_pending,
  status_no_memory, status_not_supported, Option, none, some,
}

-- `enum urb_state`.
pub data UrbState : Type 0 where
  invalid allocated submitted completed free suspend int_unlinked : UrbState

-- `struct usb_ctrlrequest`.
pub record ControlRequest : Type 0 where
  pub request_type : ℕ
  pub request : ℕ
  pub value : ℕ
  pub index : ℕ
  pub length : ℕ

-- `struct wrap_urb` with what the code uses of its `struct urb`. `copy_buffer` is the flag
-- WRAP_URB_COPY_BUFFER, and `transfer_buffer` the DMA memory that the flag is about.
pub record WrapUrb : Type 0 where
  pub state : UrbState
  pub copy_buffer : Bool
  pub irp : ℕ
  pub pipe : ℕ
  pub transfer_buffer : List ℕ
  pub transfer_buffer_length : ℕ
  pub setup_packet : Option ControlRequest
  pub short_not_ok : Bool
  pub status : ℤ
  pub actual_length : ℕ

-- The IRP of a transfer with its NT urb. `cancel_routine` says whether wrap_cancel_irp is set, and
-- `pending` whether the IRP is marked so. `buffer` is the driver's memory; `dma_needed` says that it is
-- there and not in memory that the controller can reach.
pub record UsbIrp : Type 0 where
  pub wrap_urb : ℕ
  pub cancel_routine : Bool
  pub cancel : Bool
  pub pending : Bool
  pub status : ℕ
  pub info : ℕ
  pub nt_status : ℕ
  pub buffer : List ℕ
  pub buffer_length : ℕ
  pub dma_needed : Bool

-- The USB part of a device, with the list of the worker. `completed_irps` holds the IRPs that the worker
-- handed to IoCompleteRequest, `unlinked` the urbs that Linux was asked to cancel, and `released` the
-- wrap_urbs whose memory was freed, in order.
pub record Urbs : Type 0 where
  pub urbs : ℕ → WrapUrb
  pub irps : ℕ → UsbIrp
  pub wrap_urb_list : List ℕ
  pub num_alloc_urbs : ℕ
  pub complete_list : List ℕ
  pub completed_irps : List ℕ
  pub unlinked : List ℕ
  pub released : List ℕ
  pub hw_disabled : Bool

abbrev pub max_allocated_urbs : ℕ
max_allocated_urbs = 15

abbrev pub is_free : UrbState → Bool
is_free free = true
is_free _ = false

abbrev pub is_submitted : UrbState → Bool
is_submitted submitted = true
is_submitted _ = false

abbrev pub set_urb : Urbs → ℕ → WrapUrb → Urbs
set_urb s w u = record s { urbs = update s.urbs w u }

abbrev pub set_irp : Urbs → ℕ → UsbIrp → Urbs
set_irp s i r = record s { irps = update s.irps i r }

-- `-ENOENT` is `errno 2`.
abbrev pub errno : ℕ → ℤ
errno n = negsuc (n - 1)

unfoldable pub wrap_urb_status : ℤ → ℕ
wrap_urb_status e =
    if eqb_ℤ e (pos 0)
    then 0
    else if eqb_ℤ e (errno 71)
    then 0xC0006000
    else if eqb_ℤ e (errno 84)
    then 0xC0000001
    else if eqb_ℤ e (errno 32)
    then 0x80000600
    else if eqb_ℤ e (errno 70)
    then 0xC0000008
    else if eqb_ℤ e (errno 63)
    then 0xC0000009
    else if eqb_ℤ e (errno 75)
    then 0xC0000012
    else if eqb_ℤ e (errno 121)
    then 0x80000900
    else if eqb_ℤ e (errno 19) || eqb_ℤ e (errno 108) || eqb_ℤ e (errno 2)
    then 0xC0007000
    else if eqb_ℤ e (errno 12)
    then 0x80000100
    else if eqb_ℤ e (errno 22)
    then 0x80000500
    else 0xC0000E00

unfoldable pub nt_urb_irp_status : ℕ → ℕ
nt_urb_irp_status st =
    if st == 0
    then status_success
    else if st == 0xC0007000
    then 0xC00002B6
    else if st == 0x40000000
    then status_pending
    else if st == 0xC0000E00
    then 0xC0000002
    else if st == 0x80000100
    then status_no_memory
    else if st == 0x80000500
    then status_not_supported
    else 0xC0000001

-- The first wrap_urb of the list that is free, or 0.
unfoldable pub find_free : (ℕ → WrapUrb) → List ℕ → ℕ
find_free urbs [] = 0
find_free urbs (w ∷ ws) = if is_free (urbs w).state then w else find_free urbs ws

-- A cleared urb, with the flags of the wrap_urb left alone.
abbrev pub cleared : WrapUrb → WrapUrb
cleared u = record {
  state = allocated;
  copy_buffer = u.copy_buffer;
  irp = 0;
  pipe = 0;
  transfer_buffer = [];
  transfer_buffer_length = 0;
  setup_packet = none;
  short_not_ok = false;
  status = pos 0;
  actual_length = 0;
}

abbrev pub owned_by : Urbs → ℕ → ℕ → WrapUrb → Urbs
owned_by s w i u =
    set_irp (set_urb s w (record u { irp = i })) i
      (record (s.irps i) { wrap_urb = w; cancel_routine = true })

-- wrap_alloc_urb up to the last IoReleaseCancelSpinLock. `fresh` is a new wrap_urb with its urb, or 0
-- where one of the two could not be allocated. The result is the wrap_urb, or 0.
unfoldable pub take_urb : Urbs → ℕ → ℕ → Urbs × ℕ
unfolding find_free
take_urb s i fresh =
    let w = find_free s.urbs s.wrap_urb_list in
    let grown = record s {
      wrap_urb_list = s.wrap_urb_list ++ fresh ∷ [];
      num_alloc_urbs = s.num_alloc_urbs + 1;
    } in
    let new : WrapUrb = cleared (record (s.urbs fresh) { copy_buffer = false }) in
    if s.hw_disabled
    then (s, 0)
    else if w == 0
    then (if fresh == 0 then (s, 0) else (owned_by grown fresh i new, fresh))
    else (owned_by s w i (cleared (s.urbs w)), w)

-- The rest of wrap_alloc_urb: the buffer. `pipe_out` is usb_pipeout(pipe), and `dma` says whether
-- usb_alloc_coherent returned memory. The result is the wrap_urb, or 0.
unfoldable pub attach_buffer : Urbs → ℕ → Bool → Bool → Urbs × ℕ
attach_buffer s i pipe_out dma =
    let r = s.irps i in
    let w = r.wrap_urb in
    let u = record (s.urbs w) { transfer_buffer_length = r.buffer_length } in
    let back =
      set_irp (set_urb s w (record u { state = free; irp = 0 })) i
        (record r { wrap_urb = 0; cancel_routine = false }) in
    let copied = record u {
      copy_buffer = true;
      transfer_buffer = if pipe_out then take r.buffer_length r.buffer else [];
    } in
    if r.dma_needed
    then (if dma then (set_urb s w copied, w) else (back, 0))
    else (set_urb s w u, w)

unfoldable pub wrap_alloc_urb : Urbs → ℕ → Bool → ℕ → Bool → Urbs × ℕ
wrap_alloc_urb s i pipe_out fresh dma =
    let (s', w) = take_urb s i fresh in if w == 0 then (s', 0) else attach_buffer s' i pipe_out dma

unfoldable pub wrap_free_urb : Urbs → ℕ → Urbs
wrap_free_urb s w =
    let u = s.urbs w in
    let r = record (s.irps u.irp) { cancel_routine = false; wrap_urb = 0 } in
    let s' = set_irp s u.irp r in
    if ltb max_allocated_urbs s.num_alloc_urbs
    then record s' {
      wrap_urb_list = erase w s.wrap_urb_list;
      num_alloc_urbs = s.num_alloc_urbs - 1;
      released = s.released ++ w ∷ [];
    }
    else set_urb s' w (record u { state = free; copy_buffer = false; irp = 0 })

-- `ret` is the result of usb_submit_urb.
unfoldable pub wrap_submit_urb : Urbs → ℕ → ℤ → Urbs × ℕ
unfolding wrap_free_urb wrap_urb_status
wrap_submit_urb s i ret =
    let r = s.irps i in
    let w = r.wrap_urb in
    let going = record r {
      status = status_pending;
      info = 0;
      nt_status = 0x40000000;
      pending = true;
    } in
    let s' = set_urb (set_irp s i going) w (record (s.urbs w) { state = submitted }) in
    let failed = wrap_free_urb s' w in
    let refused = record (failed.irps i) { pending = false; nt_status = wrap_urb_status ret } in
    if eqb_ℤ ret (pos 0) then (s', 0x40000000) else (set_irp failed i refused, wrap_urb_status ret)

-- Linux calls this for an urb that it has finished; the queueing of the worker is left out.
unfoldable pub wrap_urb_complete : Urbs → ℕ → Urbs
wrap_urb_complete s w =
    let u = s.urbs w in
    record s {
      irps = update s.irps u.irp (record (s.irps u.irp) { cancel_routine = false });
      urbs = update s.urbs w (record u { state = completed });
      complete_list = s.complete_list ++ w ∷ [];
    }

-- What the worker writes into the IRP. `pipe_in` is usb_pipein(urb->pipe).
unfoldable pub finish_irp : Bool → WrapUrb → UsbIrp → UsbIrp
unfolding wrap_urb_status nt_urb_irp_status
finish_irp pipe_in u r =
    let bytes = take u.actual_length u.transfer_buffer ++ drop u.actual_length r.buffer in
    let st = wrap_urb_status u.status in
    if eqb_ℤ u.status (pos 0)
    then record r {
      info = u.actual_length;
      buffer_length = u.actual_length;
      buffer = if u.copy_buffer && pipe_in then bytes else r.buffer;
      nt_status = 0;
      status = status_success;
    }
    else if eqb_ℤ u.status (errno 2) || eqb_ℤ u.status (errno 104)
    then record r { info = 0; nt_status = 0; status = 0xC0000120 }
    else record r { info = 0; nt_status = st; status = nt_urb_irp_status st }

-- The worker with one entry of its list.
unfoldable pub complete_one : (ℕ → Bool) → Urbs → ℕ → Urbs
unfolding finish_irp wrap_free_urb
complete_one pipe_in s w =
    let u = s.urbs w in
    let s' = wrap_free_urb (set_irp s u.irp (finish_irp (pipe_in u.pipe) u (s.irps u.irp))) w in
    record s' { completed_irps = s'.completed_irps ++ u.irp ∷ [] }

-- One round of the worker's loop; `none` is the break.
unfoldable pub worker_round : (ℕ → Bool) → Urbs → Option Urbs
unfolding complete_one
worker_round pipe_in s = elim s.complete_list [
  | [] ↦ none
  | w ∷ ws ↦ some (complete_one pipe_in (record s { complete_list = ws }) w)
]

unfoldable pub wrap_urb_complete_worker : (ℕ → Bool) → ℕ → Urbs → Option Urbs
unfolding worker_round
wrap_urb_complete_worker pipe_in zero s = none
wrap_urb_complete_worker pipe_in (suc fuel) s = elim (worker_round pipe_in s) [
  | none ↦ some s
  | some s' ↦ wrap_urb_complete_worker pipe_in fuel s'
]

-- `ret` is the result of usb_unlink_urb.
unfoldable pub wrap_cancel_urb : Urbs → ℕ → ℤ → Urbs × ℤ
wrap_cancel_urb s w ret =
    if is_submitted (s.urbs w).state
    then (
      record s { unlinked = s.unlinked ++ w ∷ [] },
      if eqb_ℤ ret (errno 115) then pos 0 else ret,
    )
    else (s, negsuc 0)

unfoldable pub wrap_cancel_irp : Urbs → ℕ → ℤ → Urbs
unfolding wrap_cancel_urb
wrap_cancel_irp s i ret =
    let (s', res) = wrap_cancel_urb s (s.irps i).wrap_urb ret in
    if eqb_ℤ res (pos 0) then s' else set_irp s' i (record (s'.irps i) { cancel = false })
