-- ===== src/Dispatcher/Wait/Single.antt =====
-- driver/ntoskernel.c: a wait for one object, from KeWaitForSingleObject to the wakeup.
use ndiswrapper.Base.{
  status_success, status_invalid_parameter, ℕ, ◌≡◌, refl, ◌∙◌, ◌≢◌, Bool, true, false, Option, none,
  some, List, [], ◌∷◌, ◌++◌, leb, arith, if◌then◌else◌, update, ℤ, pos, ap, is_some, sym, inl,
}
use ndiswrapper.Dispatcher.{
  Object, Kernel, synchronization_object, grab_object, ke_set_event, accept, offer, signal_loop,
  object_signaled, set_state, remove_entry,
}
use ndiswrapper.Dispatcher.Wait.{
  wait_any, is_poll, check_objects, after_scan, wait_begin, wait_enqueue, enqueue_wait,
  enqueue_waits, wait_round, settle, unlink_rest, returned, sleeping, ke_wait_for_single_object,
  Outcome,
}
use ndiswrapper.Dispatcher.Counting.{accept_object, grab_one, signal_loop_unsignaled, set_state_at}
use ndiswrapper.Dispatcher.Wait.Poll.{check_any_blocked}

-- The kernel in which the thread has queued its wait block `b` on the object.
abbrev pub queued_wait : Kernel → ℕ → ℕ → ℕ → ℕ → Kernel
queued_wait k current wait_done dh b = record k {
  objects =
      update k.objects dh
        (record (k.objects dh) { wait_blocks = (k.objects dh).wait_blocks ++ b ∷ [] });
  blocks = update k.blocks b (record { thread = current; object = none; wait_done = wait_done });
  done = update k.done wait_done false;
}

if_pair :
    (b : Bool) (k : Kernel) (x y : Outcome)
    → ◌≡◌ {A = Kernel × Outcome} (if b then (k, x) else (k, y)) (k, if b then x else y)
if_pair true k x y = refl
if_pair false k x y = refl

enqueue_blocked :
    (k : Kernel) (current wait_done dh b : ℕ)
    → (grab_object (k.objects dh) current true) ≡ (k.objects dh, false)
    → enqueue_wait (record k { done = update k.done wait_done false }) current wait_done dh b
      ≡ queued_wait k current wait_done dh b
unfolding enqueue_wait
enqueue_blocked k current wait_done dh b h = rw h

-- If the object cannot be taken and the call is no poll, the thread queues one wait block behind the
-- others. Below DISPATCH_LEVEL it then sleeps; at DISPATCH_LEVEL or above the call returns
-- STATUS_INVALID_PARAMETER, but the wait block stays queued on the object.
single_wait_queues :
    (k : Kernel) (current dh : ℕ) (wb : ℕ → ℕ) (wait_done irql : ℕ) (timeout : Option ℤ)
    → (grab_object (k.objects dh) current true) ≡ (k.objects dh, false)
    → is_poll timeout ≡ false
    → ke_wait_for_single_object k current dh wb wait_done irql timeout ≡ (
      queued_wait k current wait_done dh (wb 0),
      if leb 2 irql then returned status_invalid_parameter else sleeping 1,
    )
unfolding ke_wait_for_single_object wait_begin after_scan wait_enqueue enqueue_waits check_objects
single_wait_queues k current dh wb wait_done irql timeout h p =
    rw
      (
        check_any_blocked dh [] k current 0 0 (ap (λ r. r.1) h),
        p,
        enqueue_blocked k current wait_done dh (wb 0) h,
      )
      (if_pair (leb 2 irql) (queued_wait k current wait_done dh (wb 0)) _ _)

-- A signalled synchronization event with a waiter: the first waiter is taken off, and no other.
loop_first :
    (k : Kernel) (dh b : ℕ) (bs : List ℕ)
    → (k.objects dh).kind ≡ synchronization_object
    → (k.objects dh).signal_state ≡ pos 1
    → (k.objects dh).wait_blocks ≡ b ∷ bs
    → signal_loop k dh (b ∷ bs) ≡ accept k dh b (record (k.objects dh) { signal_state = pos 0 })
unfolding signal_loop offer
loop_first k dh b bs c e w =
    let o : Object = record (k.objects dh) { signal_state = pos 0 } in
    let obj = accept_object k dh b bs o w in
    rw (
      grab_one (k.objects dh) (k.blocks b).thread (inl c) 0 e,
      signal_loop_unsignaled dh bs (accept k dh b o) (rw obj (inl c)) (rw obj),
    )

signal_first :
    (k : Kernel) (dh b : ℕ) (bs : List ℕ)
    → (k.objects dh).kind ≡ synchronization_object
    → (k.objects dh).signal_state ≡ pos 1
    → (k.objects dh).wait_blocks ≡ b ∷ bs
    → object_signaled k dh ≡ accept k dh b (record (k.objects dh) { signal_state = pos 0 })
unfolding object_signaled
signal_first k dh b bs c e w = ap (signal_loop k dh) w ∙ loop_first k dh b bs c e w

accept_block :
    (k : Kernel) (dh b : ℕ) (o : Object)
    → (accept k dh b o).blocks b ≡ record (k.blocks b) { object = some dh }
unfolding accept remove_entry
accept_block k dh b o = ground arith

accept_done :
    (k : Kernel) (dh b : ℕ) (o : Object) → (accept k dh b o).done (k.blocks b).wait_done ≡ true
unfolding accept remove_entry
accept_done k dh b o = ground arith

round_wakes :
    (k : Kernel) (dh : ℕ) (wb : ℕ → ℕ) (wait_done : ℕ) (res : ℤ)
    → k.done wait_done ≡ true
    → (k.blocks (wb 0)).thread ≢ 0
    → is_some (k.blocks (wb 0)).object ≡ true
    → wait_round k wait_any (dh ∷ []) wb wait_done 1 res ≡ (k, returned status_success)
unfolding wait_round settle unlink_rest
round_wakes k dh wb wait_done res h t o = rw (h, settle) (ground arith)

reset_same : (o : Object) → o.signal_state ≡ pos 0 → o ≡ record o { signal_state = pos 0 }
reset_same o e = rw (sym e)

set_event_signals :
    (k : Kernel) (event : ℕ)
    → (k.objects event).signal_state ≡ pos 0
    → (ke_set_event k event).0 ≡ object_signaled (set_state k event (pos 1)) event
unfolding ke_set_event
set_event_signals k event e = rw e

set_event_first :
    (k : Kernel) (event b : ℕ) (bs : List ℕ)
    → (k.objects event).kind ≡ synchronization_object
    → (k.objects event).signal_state ≡ pos 0
    → (k.objects event).wait_blocks ≡ b ∷ bs
    → (ke_set_event k event).0 ≡ accept (set_state k event (pos 1)) event b (k.objects event)
set_event_first k event b bs c e w =
    let obj = set_state_at k event (pos 1) in
    set_event_signals k event e
    ∙ signal_first (set_state k event (pos 1)) event b bs (rw obj c) (rw obj) (rw obj w)
    ∙ ap (accept (set_state k event (pos 1)) event b)
        (rw obj (sym (reset_same (k.objects event) e)))

-- A thread that sleeps in KeWaitForSingleObject for a synchronization event, with its wait block
-- first in the queue: after KeSetEvent its next round returns STATUS_SUCCESS, the block is off the
-- queue, the others still stand in it, and the event is not signalled.
pub sleeper_wakes :
    (k : Kernel) (event : ℕ) (wb : ℕ → ℕ) (wait_done : ℕ) (bs : List ℕ) (res : ℤ)
    → (k.objects event).kind ≡ synchronization_object
    → (k.objects event).signal_state ≡ pos 0
    → (k.objects event).wait_blocks ≡ wb 0 ∷ bs
    → (k.blocks (wb 0)).thread ≢ 0
    → (k.blocks (wb 0)).wait_done ≡ wait_done
    → let r = wait_round (ke_set_event k event).0 wait_any (event ∷ []) wb wait_done 1 res in
      (r.1 ≡ returned status_success)
      × ((r.0.objects event).signal_state ≡ pos 0)
      × ((r.0.objects event).wait_blocks ≡ bs)
sleeper_wakes k event wb wait_done bs res c e w t d =
    let k1 = set_state k event (pos 1) in
    let k2 : Kernel = accept k1 event (wb 0) (k.objects event) in
    let blk = accept_block k1 event (wb 0) (k.objects event) in
    let obj = accept_object k1 event (wb 0) bs (k.objects event) w in
    rw
      (
        set_event_first k event (wb 0) bs c e w,
        round_wakes k2 event wb wait_done res
            (ap k2.done (sym d) ∙ accept_done k1 event (wb 0) (k.objects event)) (rw blk t)
            (rw blk),
      )
      (refl, rw obj e, rw obj)
