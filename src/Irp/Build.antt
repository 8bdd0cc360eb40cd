-- ===== src/Irp/Build.antt =====
-- driver/ntoskernel_io.c: the functions that allocate an IRP and fill it in for a request. The
-- results of allocations are parameters: `memory` for kmalloc, and the address of a pool block or of
-- an MDL, which is 0 if there is none.
pub mod Requests
use ndiswrapper.Base.{
  ℕ, zero, suc, ◌+◌, ◌-◌, ◌%◌, ◌≡◌, ◌≢◌, ◌⊎◌, inl, inr, refl, Bool, true, false, ◌&&◌, ◌||◌, not,
  Option, none, some, List, [], ◌∷◌, ◌++◌, arith, max, ◌==◌, if◌then◌else◌, update, is_some,
}
use ndiswrapper.Irp.{
  Irp, Location, Effect, pool_allocated, pool_freed, irp_queued, irp_dequeued, irp_freed,
  no_control, Params, no_params, transfer, dev_ioctl, next, put_location, io_allocate_irp,
  io_queue_thread_irp, io_free_irp, io_initialize_irp, io_cancel_irp,
}

-- The fields of `struct device_object` that are read here.
pub record Device : Type 0 where
  pub address : ℕ
  pub stack_count : ℕ
  pub direct_io : Bool
  pub buffered_io : Bool

abbrev pub irp_mj_read : ℕ
irp_mj_read = 3

abbrev pub irp_mj_write : ℕ
irp_mj_write = 4

abbrev pub irp_mj_device_control : ℕ
irp_mj_device_control = 14

abbrev pub irp_mj_internal_device_control : ℕ
irp_mj_internal_device_control = 15

-- A request that could not be built: the IRP is freed, and no cancel routine is set in it.
abbrev pub give_up : Irp → Option Irp × List Effect
give_up irp = (none, io_free_irp (λ _ _ i. i) irp)

-- The location that both build functions fill in.
pub fsd_location : ℕ → ℕ → ℕ → ℕ → Location
fsd_location major_fn dev length offset = record {
  major_fn = major_fn;
  minor_fn = 0;
  flags = 0;
  control = no_control;
  params =
      if major_fn == irp_mj_read || major_fn == irp_mj_write
      then transfer length offset
      else no_params;
  dev_obj = dev;
  file_obj = 0;
  completion_routine = 0;
  context = 0;
}

pub io_build_asynchronous_fsd_request :
    Bool → ℕ → ℕ → Option Device → ℕ → ℕ → ℕ → ℕ → Option Irp × List Effect
io_build_asynchronous_fsd_request memory mdl major_fn none buffer length offset user_status =
    (none, [])
io_build_asynchronous_fsd_request memory mdl major_fn (some dev) buffer length offset user_status =
    elim (io_allocate_irp dev.stack_count memory) [
      | none ↦ (none, [])
      | some fresh ↦
          let irp =
            put_location fresh (fresh.csl - 1) (fsd_location major_fn dev.address length offset) in
          let ready = record irp { user_status = user_status } in
          if dev.direct_io
          then (if mdl == 0 then give_up irp else (some (record ready { mdls = mdl ∷ [] }), []))
          else if dev.buffered_io
          then (some (record ready { system_buffer = buffer; buffered_io = true; mdls = [] }), [])
          else (some ready, [])
    ]

abbrev queue_built : ℕ → ℕ → Option Irp × List Effect → Option Irp × List Effect
queue_built thread event (none, es) = (none, es)
queue_built thread event (some irp, es) =
    let (queued, more) = io_queue_thread_irp thread (record irp { user_event = event }) in
    (some queued, es ++ more)

pub io_build_synchronous_fsd_request :
    ℕ → Bool → ℕ → ℕ → Option Device → ℕ → ℕ → ℕ → ℕ → ℕ → Option Irp × List Effect
io_build_synchronous_fsd_request thread memory mdl major_fn dev buffer length offset event
      user_status =
    queue_built thread event
      (io_build_asynchronous_fsd_request memory mdl major_fn dev buffer length offset user_status)

-- The arguments of IoBuildDeviceIoControlRequest. `first` and `second` are what the two pool
-- allocations return.
pub record Ioctl : Type 0 where
  pub code : ℕ
  pub input_buf : ℕ
  pub input_buf_len : ℕ
  pub output_buf : ℕ
  pub output_buf_len : ℕ
  pub internal : Bool
  pub event : ℕ
  pub io_status : ℕ
  pub first : ℕ
  pub second : ℕ

-- METHOD_BUFFERED, as the code stands: the address of the allocated buffer is overwritten, and so
-- are the flags if there is an output buffer.
pub method_buffered : Ioctl → Irp → Option Irp × List Effect
method_buffered a irp =
    let filled = record irp {
      system_buffer = a.input_buf;
      buffered_io = a.output_buf == 0;
      deallocate_buffer = a.output_buf == 0;
      input_operation = not (a.output_buf == 0);
      user_buf = a.output_buf;
    } in
    if max a.input_buf_len a.output_buf_len == 0
    then (some (record irp { user_buf = 0 }), [])
    else if a.first == 0
    then give_up irp
    else (some filled, pool_allocated a.first ∷ [])

abbrev pub owning : Irp → ℕ → Irp
owning irp p = record irp {
  system_buffer = p;
  buffered_io = true;
  deallocate_buffer = true;
  input_operation = false;
}

-- The second `if` of METHOD_IN_DIRECT and METHOD_OUT_DIRECT.
pub direct_output : Ioctl → Irp → List Effect → Option Irp × List Effect
direct_output a irp es =
    if a.output_buf == 0
    then (some irp, es)
    else if a.second == 0
    then (none, es ++ io_free_irp (λ _ _ i. i) (record irp { system_buffer = 0 }))
    else (some (owning irp a.second), es ++ pool_allocated a.second ∷ [])

pub method_direct : Ioctl → Irp → Option Irp × List Effect
method_direct a irp =
    if a.input_buf == 0
    then direct_output a irp []
    else if a.first == 0
    then give_up irp
    else direct_output a (owning irp a.first) (pool_allocated a.first ∷ [])

abbrev pub ioctl_location : Ioctl → ℕ → Location → Location
ioctl_location a type3_input_buf l = record l {
  params = dev_ioctl a.code a.input_buf_len a.output_buf_len type3_input_buf;
  major_fn = if a.internal then irp_mj_internal_device_control else irp_mj_device_control;
}

unfoldable pub build_ioctl : Ioctl → Irp → Option Irp × List Effect
build_ioctl a irp =
    let plain = put_location irp (irp.csl - 1) (ioctl_location a 0 (next irp)) in
    let neither = put_location irp (irp.csl - 1) (ioctl_location a a.input_buf (next irp)) in
    let method = a.code % 4 in
    if method == 0
    then method_buffered a plain
    else if method == 3
    then (some (record neither { user_buf = a.output_buf }), [])
    else method_direct a plain

abbrev complete_ioctl : ℕ → Ioctl → Option Irp × List Effect → Option Irp × List Effect
complete_ioctl thread a (none, es) = (none, es)
complete_ioctl thread a (some irp, es) =
    let (queued, more) =
      io_queue_thread_irp thread (record irp { user_status = a.io_status; user_event = a.event }) in
    (some queued, es ++ more)

pub io_build_device_io_control_request : ℕ → Bool → Option Device → Ioctl → Option Irp × List Effect
io_build_device_io_control_request thread memory none a = (none, [])
io_build_device_io_control_request thread memory (some dev) a =
    elim (io_allocate_irp dev.stack_count memory) [
      | none ↦ (none, [])
      | some irp ↦ complete_ioctl thread a (build_ioctl a irp)
    ]
