-- ===== src/Irp/Stack.antt =====
-- driver/ntoskernel_io.c: the stack locations as an IRP is sent down and comes back up.
use ndiswrapper.Base.{
  ℕ, suc, ◌-◌, ◌<◌, ◌≡◌, ◌≢◌, refl, sym, ap, ◌∙◌, true, false, Option, some, [], ◌∷◌, arith, ◌==◌,
  ltb, map_some, if◌then◌else◌, status_pending, status_invalid_parameter,
}
use ndiswrapper.Irp.{
  Irp, dispatched, completion_called, current, put_location, wants_call,
  io_set_next_irp_stack_location, io_skip_current_irp_stack_location,
  io_copy_current_irp_stack_location_to_next, io_set_completion_routine, iof_call_driver,
  io_pass_irp_down, io_sync_forward_irp, io_irp_sync_complete, complete_round, complete_loop,
  iof_complete_request, ended, status_more_processing_required,
}

skip_then_set :
    (irp : Irp) → io_set_next_irp_stack_location (io_skip_current_irp_stack_location irp) ≡ irp
unfolding io_skip_current_irp_stack_location io_set_next_irp_stack_location
skip_then_set irp =
    let l : suc irp.current_location - 1 ≡ irp.current_location = omega arith in
    let c : suc irp.csl - 1 ≡ irp.csl = omega arith in rw (l, c)

skip_nonzero :
    (irp : Irp) → ((io_skip_current_irp_stack_location irp).current_location == 0) ≡ false
unfolding io_skip_current_irp_stack_location
skip_nonzero irp = ground arith

-- A driver that passes the IRP down gives the next driver its own stack location, with the device
-- replaced, whatever the location is; the next driver's status is returned.
pub pass_down_keeps_location :
    (major_func : ℕ → ℕ → Option (Irp → Irp × ℕ)) (dev_obj : ℕ) (irp : Irp)
    → io_pass_irp_down major_func dev_obj irp
      ≡ dispatched
          (major_func dev_obj (current irp).major_fn)
          (put_location irp irp.csl (record (current irp) { dev_obj = dev_obj }))
unfolding io_pass_irp_down iof_call_driver
pass_down_keeps_location major_func dev_obj irp = rw (skip_nonzero irp, skip_then_set irp, kept_fn)
  where
    kept_fn :
        (current (put_location irp irp.csl (record (current irp) { dev_obj = dev_obj }))).major_fn
        ≡ (current irp).major_fn
    kept_fn = ground arith

-- An IRP as IoSyncForwardIrp and IofCallDriver hand it to the lower device's driver.
sent_down : ℕ → ℕ → ℕ → Irp → Irp
unfolding io_set_next_irp_stack_location io_copy_current_irp_stack_location_to_next
    io_set_completion_routine
sent_down sync_complete event dev_obj irp =
    let set =
      io_set_completion_routine (io_copy_current_irp_stack_location_to_next irp) sync_complete event
        true true true in
    let down = io_set_next_irp_stack_location set in
    put_location down down.csl (record (current down) { dev_obj = dev_obj })

module _ (sync_complete event dev_obj n : ℕ) (irp : Irp) (c : irp.csl ≡ suc n) where
  sent_csl : (sent_down sync_complete event dev_obj irp).csl ≡ n
  unfolding sent_down io_set_next_irp_stack_location io_copy_current_irp_stack_location_to_next
      io_set_completion_routine
  sent_csl = rw c (omega arith)

  sent_above : (sent_down sync_complete event dev_obj irp).location (suc n) ≡ irp.location (suc n)
  unfolding sent_down io_set_next_irp_stack_location io_copy_current_irp_stack_location_to_next
      io_set_completion_routine
  sent_above = rw c (ground arith)

  sent_control :
      ((sent_down sync_complete event dev_obj irp).location n).control
      ≡ record { pending = false; on_success = true; on_error = true; on_cancel = true }
  unfolding sent_down io_set_next_irp_stack_location io_copy_current_irp_stack_location_to_next
      io_set_completion_routine
  sent_control = rw c (ground arith)

  sent_routine :
      (((sent_down sync_complete event dev_obj irp).location n).completion_routine ≡ sync_complete)
      × (((sent_down sync_complete event dev_obj irp).location n).context ≡ event)
  unfolding sent_down io_set_next_irp_stack_location io_copy_current_irp_stack_location_to_next
      io_set_completion_routine
  sent_routine = rw c (ground arith)

sent_current :
    (sync_complete event dev_obj n : ℕ) (irp : Irp)
    → irp.current_location ≡ suc n
    → (sent_down sync_complete event dev_obj irp).current_location ≡ n
unfolding sent_down io_set_next_irp_stack_location io_copy_current_irp_stack_location_to_next
    io_set_completion_routine
sent_current sync_complete event dev_obj n irp l = rw l (omega arith)

sent_count :
    (sync_complete event dev_obj : ℕ) (irp : Irp)
    → (sent_down sync_complete event dev_obj irp).stack_count ≡ irp.stack_count
unfolding sent_down io_set_next_irp_stack_location io_copy_current_irp_stack_location_to_next
    io_set_completion_routine
sent_count sync_complete event dev_obj irp = refl

round_device :
    (i : Irp) (n : ℕ)
    → i.csl ≡ n
    → i.current_location ≡ n
    → suc n < i.stack_count
    → (complete_round i n).1 ≡ (i.location (suc n)).dev_obj
unfolding complete_round io_skip_current_irp_stack_location
round_device i n c l s = ground arith

round_wants :
    (i : Irp) (n : ℕ)
    → (i.location n).control
      ≡ record { pending = false; on_success = true; on_error = true; on_cancel = true }
    → (i.location n).completion_routine ≢ 0
    → wants_call (complete_round i n).0 (i.location n) ≡ true
unfolding complete_round io_skip_current_irp_stack_location wants_call
round_wants i n c r = rw c (ground arith)

-- The completion of an IRP whose current location has a routine that asks for more processing.
loop_stops :
    (call : ℕ → ℕ → ℕ → Irp → Irp × ℕ) (cancel : ℕ → ℕ → Irp → Irp) (fuel n : ℕ) (i : Irp)
    → i.csl ≡ n
    → i.current_location < i.stack_count
    → wants_call (complete_round i n).0 (i.location n) ≡ true
    → ((dev context : ℕ) (j : Irp)
        → (call (i.location n).completion_routine dev context j).1
          ≡ status_more_processing_required)
    → iof_complete_request call cancel (suc fuel) i
      ≡ some (
          completion_called
            (i.location n).completion_routine
            (complete_round i n).1
            (i.location n).context
          ∷ [])
unfolding iof_complete_request complete_loop
loop_stops call cancel fuel n i c l w more =
    let inside : ltb i.current_location i.stack_count ≡ true = ground arith in
    ap (λ m. map_some (ended cancel) (complete_loop call (suc fuel) m i)) c
    ∙ rw (inside, w, more (complete_round i n).1 (i.location n).context (complete_round i n).0)

-- The completion of that IRP.
sent_completes :
    (call : ℕ → ℕ → ℕ → Irp → Irp × ℕ) (cancel : ℕ → ℕ → Irp → Irp)
    (sync_complete event dev_obj fuel n status : ℕ) (irp : Irp)
    → irp.csl ≡ suc n
    → irp.current_location ≡ suc n
    → suc n < irp.stack_count
    → sync_complete ≢ 0
    → ((dev context : ℕ) (i : Irp)
        → (call sync_complete dev context i).1 ≡ status_more_processing_required)
    → iof_complete_request call cancel
        (suc fuel)
        (record (sent_down sync_complete event dev_obj irp) { status = status })
      ≡ some (completion_called sync_complete (irp.location (suc n)).dev_obj event ∷ [])
sent_completes call cancel sync_complete event dev_obj fuel n status irp c l s nz more =
    let i : Irp = record (sent_down sync_complete event dev_obj irp) { status = status } in
    let (r, x) = sent_routine sync_complete event dev_obj n irp c in
    let csl : i.csl ≡ n = sent_csl sync_complete event dev_obj n irp c in
    let at : i.current_location ≡ n = sent_current sync_complete event dev_obj n irp l in
    let count : i.stack_count ≡ irp.stack_count = sent_count sync_complete event dev_obj irp in
    let more' : (d y : ℕ) (j : Irp)
        → (call (i.location n).completion_routine d y j).1 ≡ status_more_processing_required =
      (λ d y j. ap (λ t. (call t d y j).1) r ∙ more d y j) in
    let nz' : (i.location n).completion_routine ≢ 0 = λ e. nz (sym r ∙ e) in
    let w = round_wants i n (sent_control sync_complete event dev_obj n irp c) nz' in
    let dev : (complete_round i n).1 ≡ (irp.location (suc n)).dev_obj =
      round_device i n csl at (rw count s)
      ∙ ap (λ y. y.dev_obj) (sent_above sync_complete event dev_obj n irp c) in
    loop_stops call cancel fuel n i csl (omega (arith, at, count, s)) w more' ∙ rw (r, x, dev)

sent_fn :
    (sync_complete event dev_obj n : ℕ) (irp : Irp)
    → irp.csl ≡ suc n
    → (current (sent_down sync_complete event dev_obj irp)).major_fn
      ≡ (irp.location (suc n)).major_fn
unfolding sent_down io_set_next_irp_stack_location io_copy_current_irp_stack_location_to_next
    io_set_completion_routine
sent_fn sync_complete event dev_obj n irp c = rw c (ground arith)

-- What IoSyncForwardIrp does behind the call of the lower driver.
abbrev pub awaited : (ℕ → Irp → Irp) → ℕ → Irp × ℕ → Irp × ℕ
awaited wait event r =
    if r.1 == status_pending then (wait event r.0, (wait event r.0).status) else r

called : ℕ → Irp → Irp
unfolding io_set_next_irp_stack_location
called dev_obj irp =
    let down = io_set_next_irp_stack_location irp in
    put_location down down.csl (record (current down) { dev_obj = dev_obj })

call_dispatches :
    (major_func : ℕ → ℕ → Option (Irp → Irp × ℕ)) (dev_obj n : ℕ) (irp : Irp)
    → irp.current_location ≡ suc n
    → iof_call_driver major_func dev_obj irp
      ≡ dispatched (major_func dev_obj (current (called dev_obj irp)).major_fn) (called dev_obj irp)
unfolding iof_call_driver called
call_dispatches major_func dev_obj n irp l =
    let some_left : (irp.current_location == 0) ≡ false = ground (arith, l) in
    ap
      (λ b.
        if b
        then (irp, status_invalid_parameter)
        else dispatched (major_func dev_obj (current (called dev_obj irp)).major_fn)
            (called dev_obj irp))
      some_left

forward_sends :
    (major_func : ℕ → ℕ → Option (Irp → Irp × ℕ)) (wait : ℕ → Irp → Irp)
    (sync_complete event dev_obj n : ℕ) (irp : Irp)
    → irp.current_location ≡ suc n
    → let i = sent_down sync_complete event dev_obj irp in
      io_sync_forward_irp major_func sync_complete wait event dev_obj irp
      ≡ awaited wait event (dispatched (major_func dev_obj (current i).major_fn) i)
unfolding io_sync_forward_irp sent_down called io_copy_current_irp_stack_location_to_next
    io_set_completion_routine
forward_sends major_func wait sync_complete event dev_obj n irp l =
    let copied = io_copy_current_irp_stack_location_to_next irp in
    let set = io_set_completion_routine copied sync_complete event true true true in
    ap (awaited wait event) (call_dispatches major_func dev_obj n set l)

-- IoSyncForwardIrp of an IRP with at least two locations left hands an IRP to the lower device's
-- dispatch function for the IRP's major function, and returns what that returns, or, if that is
-- STATUS_PENDING, waits and returns the status of the IRP. When the lower driver completes the IRP that
-- it got, whatever the status, IoIrpSyncComplete is called with the forwarding driver's device and the
-- event, and since it asks for more processing, the completion stops and does not free the IRP.
pub sync_forward_completes :
    (call : ℕ → ℕ → ℕ → Irp → Irp × ℕ) (cancel : ℕ → ℕ → Irp → Irp) (wait : ℕ → Irp → Irp)
    (sync_complete event dev_obj fuel n : ℕ) (irp : Irp)
    → irp.csl ≡ suc n
    → irp.current_location ≡ suc n
    → suc n < irp.stack_count
    → sync_complete ≢ 0
    → ((dev context : ℕ) (i : Irp)
        → (call sync_complete dev context i).1 ≡ (io_irp_sync_complete i context).1)
    → (i : Irp) × ((major_func : ℕ → ℕ → Option (Irp → Irp × ℕ))
        → io_sync_forward_irp major_func sync_complete wait event dev_obj irp
          ≡ awaited wait event (dispatched (major_func dev_obj (irp.location (suc n)).major_fn) i))
      × ((status : ℕ)
          → iof_complete_request call cancel (suc fuel) (record i { status = status })
            ≡ some (completion_called sync_complete (irp.location (suc n)).dev_obj event ∷ []))
unfolding io_irp_sync_complete
sync_forward_completes call cancel wait sync_complete event dev_obj fuel n irp c l s nz more =
    let i = sent_down sync_complete event dev_obj irp in
    (
      i,
      λ major_func.
          forward_sends major_func wait sync_complete event dev_obj n irp l
          ∙ ap (λ fn. awaited wait event (dispatched (major_func dev_obj fn) i))
              (sent_fn sync_complete event dev_obj n irp c),
      λ status.
          sent_completes call cancel sync_complete event dev_obj fuel n status irp c l s nz more,
    )
