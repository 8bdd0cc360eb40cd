-- ===== src/Irp/Packet.antt =====
-- driver/winnt_types.h and driver/ntoskernel_io.c: an I/O request packet with its stack of locations, and
-- its initialization and allocation.
use ndiswrapper.Base.{ℕ, suc, ◌-◌, Bool, false, Option, none, some, List, [], if◌then◌else◌, update}

abbrev pub status_more_processing_required : ℕ
status_more_processing_required = 0xC0000016

-- The bits of `control`: SL_PENDING_RETURNED, SL_INVOKE_ON_SUCCESS, SL_INVOKE_ON_ERROR and
-- SL_INVOKE_ON_CANCEL.
pub record Control : Type 0 where
  pub pending : Bool
  pub on_success : Bool
  pub on_error : Bool
  pub on_cancel : Bool

abbrev pub no_control : Control
no_control = record { pending = false; on_success = false; on_error = false; on_cancel = false }

-- The parts of the union `params` that the code here writes.
pub data Params : Type 0 where
  no_params : Params
  transfer : ℕ → ℕ → Params
  dev_ioctl : ℕ → ℕ → ℕ → ℕ → Params

-- `struct io_stack_location`.
pub record Location : Type 0 where
  pub major_fn : ℕ
  pub minor_fn : ℕ
  pub flags : ℕ
  pub control : Control
  pub params : Params
  pub dev_obj : ℕ
  pub file_obj : ℕ
  pub completion_routine : ℕ
  pub context : ℕ

abbrev pub no_location : Location
no_location = record {
  major_fn = 0;
  minor_fn = 0;
  flags = 0;
  control = no_control;
  params = no_params;
  dev_obj = 0;
  file_obj = 0;
  completion_routine = 0;
  context = 0;
}

-- `struct irp`. The flags are the bits IRP_BUFFERED_IO, IRP_DEALLOCATE_BUFFER, IRP_INPUT_OPERATION
-- and IRP_SYNCHRONOUS_API; `csl` is the index of the current location that the pointer names.
pub record Irp : Type 0 where
  pub mdls : List ℕ
  pub buffered_io : Bool
  pub deallocate_buffer : Bool
  pub input_operation : Bool
  pub synchronous_api : Bool
  pub system_buffer : ℕ
  pub status : ℕ
  pub info : ℕ
  pub pending_returned : Bool
  pub stack_count : ℕ
  pub current_location : ℕ
  pub cancel : Bool
  pub user_status : ℕ
  pub user_event : ℕ
  pub cancel_routine : ℕ
  pub user_buf : ℕ
  pub thread : ℕ
  pub csl : ℕ
  pub location : ℕ → Location

pub data Effect : Type 0 where
  completion_called : ℕ → ℕ → ℕ → Effect
  cancel_called : ℕ → ℕ → Effect
  user_status_written : ℕ → ℕ → ℕ → Effect
  event_set : ℕ → Effect
  pool_allocated : ℕ → Effect
  pool_freed : ℕ → Effect
  mdl_freed : ℕ → Effect
  irp_queued : ℕ → Effect
  irp_dequeued : ℕ → Effect
  irp_freed : Effect

unfoldable pub io_initialize_irp : ℕ → Irp
io_initialize_irp stack_count = record {
  mdls = [];
  buffered_io = false;
  deallocate_buffer = false;
  input_operation = false;
  synchronous_api = false;
  system_buffer = 0;
  status = 0;
  info = 0;
  pending_returned = false;
  stack_count = stack_count;
  current_location = stack_count;
  cancel = false;
  user_status = 0;
  user_event = 0;
  cancel_routine = 0;
  user_buf = 0;
  thread = 0;
  csl = stack_count;
  location = λ _. no_location;
}

unfoldable pub io_reuse_irp : Irp → ℕ → Irp
io_reuse_irp irp status = record (io_initialize_irp irp.stack_count) { status = status }

-- `memory` tells whether kmalloc succeeds; one location more than asked for is allocated.
unfoldable pub io_allocate_irp : ℕ → Bool → Option Irp
io_allocate_irp stack_count memory =
    if memory then some (io_initialize_irp (suc stack_count)) else none

abbrev pub current : Irp → Location
current irp = irp.location irp.csl

abbrev pub next : Irp → Location
next irp = irp.location (irp.csl - 1)

abbrev pub put_location : Irp → ℕ → Location → Irp
put_location irp i l = record irp { location = update irp.location i l }
