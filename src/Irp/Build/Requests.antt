-- ===== src/Irp/Build/Requests.antt =====
-- driver/ntoskernel_io.c: what a built request holds, and which buffers it owns.
use ndiswrapper.Base.{
  ℕ, suc, ◌-◌, ◌%◌, ◌≡◌, ◌≢◌, ◌⊎◌, inl, inr, refl, ◌∙◌, true, false, none, some, List, [], ◌∷◌,
  arith, ◌==◌, if◌then◌else◌,
}
use ndiswrapper.Irp.{
  Irp, Effect, pool_allocated, irp_freed, dev_ioctl, next, put_location, io_free_irp,
  io_initialize_irp, io_cancel_irp,
}
use ndiswrapper.Irp.Build.{
  Ioctl, irp_mj_device_control, irp_mj_internal_device_control, method_buffered, direct_output,
  method_direct, build_ioctl, ioctl_location, owning,
}

-- A built IRP as `IoCallDriver` expects it: above its stack, with the request in the next location.
abbrev pub IsIoctl : Ioctl → ℕ → Irp → Type 0
IsIoctl a stack_count irp =
    (irp.current_location ≡ suc stack_count)
    × (irp.stack_count ≡ suc stack_count)
    × (irp.csl ≡ suc stack_count)
    × ((irp.location stack_count).major_fn
        ≡ (if a.internal then irp_mj_internal_device_control else irp_mj_device_control))
    × ((irp.location stack_count).params
        ≡ dev_ioctl a.code a.input_buf_len a.output_buf_len
            (if a.code % 4 == 3 then a.input_buf else 0))

-- Every device control request that could be built, of any method, starts above the stack of its
-- device, and its next location holds the major function, the control code and the lengths.
pub build_ioctl_fills :
    (a : Ioctl) (stack_count : ℕ) (irp : Irp) (es : List Effect)
    → build_ioctl a (io_initialize_irp (suc stack_count)) ≡ (some irp, es)
    → IsIoctl a stack_count irp
unfolding build_ioctl method_buffered method_direct direct_output io_initialize_irp
build_ioctl_fills a stack_count irp es h = ground arith

direct_build :
    (a : Ioctl) (irp : Irp)
    → (a.code % 4 ≡ 1) ⊎ (a.code % 4 ≡ 2)
    → build_ioctl a irp
      ≡ method_direct a (put_location irp (irp.csl - 1) (ioctl_location a 0 (next irp)))
unfolding build_ioctl
direct_build a irp (inl m) = rw m
direct_build a irp (inr m) = rw m

-- A fresh IRP is freed with no other effect.
free_plain :
    (irp : Irp)
    → irp.synchronous_api ≡ false
    → irp.cancel_routine ≡ 0
    → io_free_irp (λ _ _ i. i) irp ≡ irp_freed ∷ []
unfolding io_free_irp io_cancel_irp
free_plain irp s c = rw (s, c)

direct_fails :
    (a : Ioctl) (irp : Irp)
    → irp.synchronous_api ≡ false
    → irp.cancel_routine ≡ 0
    → a.input_buf ≢ 0
    → a.output_buf ≢ 0
    → a.first ≢ 0
    → a.second ≡ 0
    → method_direct a irp ≡ (none, pool_allocated a.first ∷ irp_freed ∷ [])
unfolding method_direct direct_output
direct_fails a irp s c i o f z =
    let i' : (a.input_buf == 0) ≡ false = ground arith in
    let o' : (a.output_buf == 0) ≡ false = ground arith in
    let f' : (a.first == 0) ≡ false = ground arith in
    let z' : (a.second == 0) ≡ true = ground arith in
    rw (i', o', f', z', free_plain (record (owning irp a.first) { system_buffer = 0 }) s c)

fresh_plain :
    (stack_count : ℕ)
    → ((io_initialize_irp stack_count).synchronous_api ≡ false)
      × ((io_initialize_irp stack_count).cancel_routine ≡ 0)
unfolding io_initialize_irp
fresh_plain stack_count = (refl, refl)

-- A direct request with an input and an output buffer, whose second allocation fails, is given up:
-- the IRP is freed, and the pool buffer that was allocated for the input is not.
direct_request_leaks_input :
    (a : Ioctl) (stack_count : ℕ)
    → (a.code % 4 ≡ 1) ⊎ (a.code % 4 ≡ 2)
    → a.input_buf ≢ 0
    → a.output_buf ≢ 0
    → a.first ≢ 0
    → a.second ≡ 0
    → build_ioctl a (io_initialize_irp stack_count)
      ≡ (none, pool_allocated a.first ∷ irp_freed ∷ [])
direct_request_leaks_input a stack_count m i o f z =
    direct_build a (io_initialize_irp stack_count) m
    ∙ direct_fails a _ (fresh_plain stack_count).0 (fresh_plain stack_count).1 i o f z
