-- ===== src/Examples/Irp.antt =====
-- driver/ntoskernel_io.c: IRPs on their way down and up.
use ndiswrapper.Base.{ℕ, ◌≡◌, refl, true, false, Option, none, some, List, [], ◌∷◌, arith}
use ndiswrapper.Irp.{
  Irp, Effect, completion_called, no_location, io_initialize_irp, io_sync_forward_irp,
  io_irp_sync_complete, dispatched, iof_complete_request, status_more_processing_required,
}
use ndiswrapper.Irp.Stack.{awaited, sync_forward_completes}
use ndiswrapper.Irp.Completion.{frees, complete_request_frees_once}
use ndiswrapper.Irp.Build.{Ioctl, build_ioctl}

-- An IRP for a stack of three, at its location 1, with device 40 there.
abbrev passing : Irp
passing = record {
  mdls = [];
  buffered_io = false;
  deallocate_buffer = false;
  input_operation = false;
  synchronous_api = false;
  system_buffer = 0;
  status = 0;
  info = 0;
  pending_returned = false;
  stack_count = 3;
  current_location = 1;
  cancel = false;
  user_status = 0;
  user_event = 0;
  cancel_routine = 0;
  user_buf = 0;
  thread = 0;
  csl = 1;
  location = λ _. record no_location { dev_obj = 40; major_fn = 14 };
}

abbrev major : ℕ → ℕ → Option (Irp → Irp × ℕ)
major dev fn = some (λ irp. (irp, 0))

abbrev routine : ℕ → ℕ → ℕ → Irp → Irp × ℕ
routine _ _ _ irp = (irp, status_more_processing_required)

answers :
    (dev context : ℕ) (i : Irp)
    → status_more_processing_required ≡ (io_irp_sync_complete i context).1
unfolding io_irp_sync_complete
answers dev context i = refl

sync_forward_completes_example :
    (i : Irp) × ((major_func : ℕ → ℕ → Option (Irp → Irp × ℕ))
      → io_sync_forward_irp major_func 77 (λ _ irp. irp) 88 50 passing
        ≡ awaited (λ _ irp. irp) 88 (dispatched (major_func 50 14) i))
    × ((status : ℕ)
        → iof_complete_request routine (λ _ _ irp. irp) 1 (record i { status = status })
          ≡ some (completion_called 77 40 88 ∷ []))
sync_forward_completes_example =
    sync_forward_completes routine (λ _ _ irp. irp) (λ _ irp. irp) 77 88 50 0 0 passing refl refl
      (omega arith) (λ e. omega arith) answers

complete_request_frees_once_example :
    (es : List Effect) × (iof_complete_request (λ _ _ _ irp. (irp, 0)) (λ _ _ irp. irp) 3 passing
      ≡ some es)
    × (frees es ≡ 1)
complete_request_frees_once_example =
    complete_request_frees_once (λ _ _ _ irp. (irp, 0)) (λ _ _ irp. irp) 3 passing
      (λ _ _ _ _. (refl, refl)) (λ _ _ _ _ e. absurd (omega arith)) (omega arith)

-- METHOD_OUT_DIRECT with both buffers, of which the second cannot be allocated.
abbrev direct : Ioctl
direct = record {
  code = 0x222002;
  input_buf = 1000;
  input_buf_len = 8;
  output_buf = 2000;
  output_buf_len = 16;
  internal = true;
  event = 0;
  io_status = 0;
  first = 3000;
  second = 0;
}

abbrev neither : Ioctl
neither = record direct { code = 0x222003 }

abbrev built : Irp
built = (elim (build_ioctl neither (io_initialize_irp 2)).0 [ none ↦ passing | some irp ↦ irp ])

built-some : build_ioctl neither (io_initialize_irp 2) ≡ (some built, [])
unfolding build_ioctl
built-some = refl
