-- ===== src/Irp.antt =====
-- driver/ntoskernel_io.c and the IRP macros of driver/winnt_types.h: I/O request packets, that is
-- their stack of locations, the call of the next driver, the completion and the cancellation.
-- A pointer is a number and NULL is 0. The drivers' functions are parameters. What the code does
-- outside of the IRP is a list of effects in the order in which it does them.
mod Packet
pub mod Stack
pub mod Completion
pub mod Build
unfoldable pub use Packet.*
use ndiswrapper.Base.{
  ℕ, zero, suc, ◌+◌, ◌-◌, ◌<◌, ◌≡◌, Bool, true, false, ◌&&◌, ◌||◌, not, Option, none, some, List,
  [], ◌∷◌, ◌++◌, map, ◌==◌, ltb, leb, if◌then◌else◌, update, map_some, status_success,
  status_invalid_parameter, status_not_supported, status_pending,
}

pub io_set_next_irp_stack_location : Irp → Irp
io_set_next_irp_stack_location irp = record irp {
  current_location = irp.current_location - 1;
  csl = irp.csl - 1;
}

pub io_skip_current_irp_stack_location : Irp → Irp
io_skip_current_irp_stack_location irp = record irp {
  current_location = suc irp.current_location;
  csl = suc irp.csl;
}

-- All fields before completion_routine are copied.
pub io_copy_current_irp_stack_location_to_next : Irp → Irp
io_copy_current_irp_stack_location_to_next irp =
    let n = next irp in
    put_location irp (irp.csl - 1) (record (current irp) {
      control = no_control;
      completion_routine = n.completion_routine;
      context = n.context;
    })

pub io_set_completion_routine : Irp → ℕ → ℕ → Bool → Bool → Bool → Irp
io_set_completion_routine irp routine context success error cancel =
    put_location irp (irp.csl - 1) (record (next irp) {
      completion_routine = routine;
      context = context;
      control = record {
        pending = false;
        on_success = success;
        on_error = error;
        on_cancel = cancel;
      };
    })

pub io_mark_irp_pending : Irp → Irp
io_mark_irp_pending irp =
    put_location irp irp.csl
      (record (current irp) { control = record ((current irp).control) { pending = true } })

pub dispatched : Option (Irp → Irp × ℕ) → Irp → Irp × ℕ
dispatched none irp = (irp, status_not_supported)
dispatched (some dispatch) irp = dispatch irp

-- `major_func dev fn` is the dispatch function of the driver of a device, if it has one: it changes
-- the IRP and returns a status.
pub iof_call_driver : (ℕ → ℕ → Option (Irp → Irp × ℕ)) → ℕ → Irp → Irp × ℕ
iof_call_driver major_func dev_obj irp =
    let irp' = io_set_next_irp_stack_location irp in
    let called = put_location irp' irp'.csl (record (current irp') { dev_obj = dev_obj }) in
    let result = dispatched (major_func dev_obj (current called).major_fn) called in
    if irp.current_location == 0 then (irp, status_invalid_parameter) else result

pub io_pass_irp_down : (ℕ → ℕ → Option (Irp → Irp × ℕ)) → ℕ → Irp → Irp × ℕ
io_pass_irp_down major_func dev_obj irp =
    iof_call_driver major_func dev_obj (io_skip_current_irp_stack_location irp)

-- The address of IoIrpSyncComplete is `sync_complete`. `wait event` is what happens to the IRP while
-- the thread waits for the event.
pub io_sync_forward_irp :
    (ℕ → ℕ → Option (Irp → Irp × ℕ)) → ℕ → (ℕ → Irp → Irp) → ℕ → ℕ → Irp → Irp × ℕ
io_sync_forward_irp major_func sync_complete wait event dev_obj irp =
    let copied = io_copy_current_irp_stack_location_to_next irp in
    let set = io_set_completion_routine copied sync_complete event true true true in
    let (irp', status) = iof_call_driver major_func dev_obj set in
    let waited = wait event irp' in
    if status == status_pending then (waited, waited.status) else (irp', status)

-- The completion routine of IoSyncForwardIrp, whose context is the event.
unfoldable pub io_irp_sync_complete : Irp → ℕ → List Effect × ℕ
io_irp_sync_complete irp event =
    (if irp.pending_returned then event_set event ∷ [] else [], status_more_processing_required)

pub io_async_forward_irp : (ℕ → ℕ → Option (Irp → Irp × ℕ)) → ℕ → Irp → Irp × ℕ
io_async_forward_irp major_func dev_obj irp =
    iof_call_driver major_func dev_obj (io_copy_current_irp_stack_location_to_next irp)

-- `cancel` is what the driver's cancel routine does to the IRP. The result is the IRP, the BOOLEAN
-- that the code returns and the calls.
pub io_cancel_irp : (ℕ → ℕ → Irp → Irp) → Irp → Irp × Bool × List Effect
io_cancel_irp cancel irp =
    let marked = record irp { cancel_routine = 0; cancel = true } in
    let dev_obj =
      if ltb irp.current_location irp.stack_count then (current marked).dev_obj else 0 in
    let after = cancel irp.cancel_routine dev_obj marked in
    if irp.cancel_routine == 0 then (marked, false, []) else (
      record after { cancel = true },
      after.cancel,
      cancel_called irp.cancel_routine dev_obj ∷ [],
    )

pub io_queue_thread_irp : ℕ → Irp → Irp × List Effect
io_queue_thread_irp current_thread irp =
    if current_thread == 0 then (record irp { thread = 0 }, []) else (
      record irp { synchronous_api = true; thread = current_thread },
      irp_queued current_thread ∷ [],
    )

abbrev pub io_dequeue_thread_irp : Irp → List Effect
io_dequeue_thread_irp irp = if irp.thread == 0 then [] else irp_dequeued irp.thread ∷ []

-- The IRP is not NULL here.
pub io_free_irp : (ℕ → ℕ → Irp → Irp) → Irp → List Effect
io_free_irp cancel irp =
    (if irp.synchronous_api then io_dequeue_thread_irp irp else [])
    ++ (io_cancel_irp cancel irp).2
    ++ irp_freed ∷ []

-- Whether the location asks for its completion routine to be called.
pub wants_call : Irp → Location → Bool
wants_call irp l =
    not (l.completion_routine == 0)
    && ((irp.status == status_success && l.control.on_success)
        || (not (irp.status == status_success) && l.control.on_error)
        || (irp.cancel && l.control.on_cancel))

-- One round of the loop of IofCompleteRequest up to the call: the IRP and the device for the call.
pub complete_round : Irp → ℕ → Irp × ℕ
complete_round irp irp_sl =
    let l = irp.location irp_sl in
    let seen = if l.control.pending then record irp { pending_returned = true } else irp in
    let skipped = io_skip_current_irp_stack_location seen in
    (
      skipped,
      if ltb skipped.current_location skipped.stack_count then (current skipped).dev_obj else 0,
    )

-- Where no routine is called, the pending bit goes to the next location.
pub propagate : Irp → Irp
propagate irp =
    if irp.pending_returned && ltb irp.current_location irp.stack_count
    then io_mark_irp_pending irp
    else irp

abbrev pub called_first :
    Effect → Option (Irp × Bool × List Effect) → Option (Irp × Bool × List Effect)
called_first e none = none
called_first e (some (irp, finished, es)) = some (irp, finished, e ∷ es)

-- The loop. `call routine dev context` is the driver's completion routine. The Boolean is false if a
-- routine returned STATUS_MORE_PROCESSING_REQUIRED. `none` means that the fuel ran out.
pub complete_loop : (ℕ → ℕ → ℕ → Irp → Irp × ℕ) → ℕ → ℕ → Irp → Option (Irp × Bool × List Effect)
complete_loop call zero irp_sl irp = none
complete_loop call (suc fuel) irp_sl irp =
    let l = irp.location irp_sl in
    let (skipped, dev_obj) = complete_round irp irp_sl in
    let (irp', status) = call l.completion_routine dev_obj l.context skipped in
    let wanted = wants_call skipped l in
    let rest = complete_loop call fuel (suc irp_sl) (if wanted then irp' else propagate skipped) in
    let called =
      if status == status_more_processing_required then some (irp', false, []) else rest in
    if ltb irp.current_location irp.stack_count
    then (if wanted
        then called_first (completion_called l.completion_routine dev_obj l.context) called
        else rest)
    else some (irp, true, [])

-- What follows the loop.
pub complete_end : (ℕ → ℕ → Irp → Irp) → Irp → List Effect
complete_end cancel irp =
    (if irp.user_status == 0
      then []
      else user_status_written irp.user_status irp.status irp.info ∷ [])
    ++ (if irp.user_event == 0 then [] else event_set irp.user_event ∷ [])
    ++ (if not (irp.system_buffer == 0) && irp.deallocate_buffer
        then pool_freed irp.system_buffer ∷ []
        else map mdl_freed irp.mdls)
    ++ io_free_irp cancel irp

abbrev pub ended : (ℕ → ℕ → Irp → Irp) → Irp × Bool × List Effect → List Effect
ended cancel (irp, finished, es) = es ++ (if finished then complete_end cancel irp else [])

pub iof_complete_request :
    (ℕ → ℕ → ℕ → Irp → Irp × ℕ) → (ℕ → ℕ → Irp → Irp) → ℕ → Irp → Option (List Effect)
iof_complete_request call cancel fuel irp =
    map_some (ended cancel) (complete_loop call fuel irp.csl irp)
