-- ===== src/Dispatcher/Wait.antt =====
-- driver/ntoskernel.c, KeWaitForMultipleObjects. A wait is split where the thread sleeps: `wait_begin`
-- is the code up to the first sleep, and `wait_round` is one pass of the loop after it. Between two
-- of these other threads run. `res` is what wait_condition returned, and `wb i` is the address of the
-- i-th wait block.
pub mod Poll
pub mod Reachable
pub mod Recount
pub mod Single
use ndiswrapper.Base.{
  ℕ, suc, ◌+◌, ◌-◌, Bool, true, false, ◌&&◌, ◌||◌, Option, none, some, List, [], ◌∷◌, ◌++◌, ◌==◌,
  ltb, leb, length, is_some, if◌then◌else◌, update, ℤ, pos, eqb_ℤ, ltb_ℤ, not, status_success,
  status_alerted, status_timeout, status_invalid_parameter,
}
use ndiswrapper.Dispatcher.{Object, WaitBlock, Kernel, grab_object, remove_entry}

pub data WaitType : Type 0 where
  wait_all wait_any : WaitType

abbrev pub is_any : WaitType → Bool
is_any wait_all = false
is_any wait_any = true

abbrev pub dispatch_level : ℕ
dispatch_level = 2

-- The wait is over, or the thread sleeps with this wait_count.
pub data Outcome : Type 0 where
  returned : ℕ → Outcome
  sleeping : ℕ → Outcome

pub data Scan : Type 0 where
  grabbed : Kernel → ℕ → Scan
  counted : Kernel → ℕ → Scan

-- The first loop: under WaitAny it takes the first object that it can take, under WaitAll it only
-- counts those that it could not take.
pub check_objects : Kernel → ℕ → WaitType → List ℕ → ℕ → ℕ → Scan
check_objects k current ty [] i n = counted k n
check_objects k current ty (dh ∷ dhs) i n =
    let (o, got) = grab_object (k.objects dh) current (is_any ty) in
    let k' = record k { objects = update k.objects dh o } in
    let rest = check_objects k' current ty dhs (suc i) (if got then n else suc n) in
    if got && is_any ty then grabbed k' i else rest

-- The body of the second loop: take the object, or queue a wait block on it.
pub enqueue_wait : Kernel → ℕ → ℕ → ℕ → ℕ → Kernel
enqueue_wait k current wait_done dh b =
    let wb = record (k.blocks b) { object = none } in
    let (o, got) = grab_object (k.objects dh) current true in
    if got
    then record k {
      objects = update k.objects dh o;
      blocks = update k.blocks b (record wb { thread = 0 });
    }
    else record k {
      objects = update k.objects dh (record o { wait_blocks = o.wait_blocks ++ b ∷ [] });
      blocks = update k.blocks b (record wb { wait_done = wait_done; thread = current });
    }

pub enqueue_waits : Kernel → ℕ → ℕ → List ℕ → (ℕ → ℕ) → ℕ → Kernel
enqueue_waits k current wait_done [] wb i = k
enqueue_waits k current wait_done (dh ∷ dhs) wb i =
    enqueue_waits (enqueue_wait k current wait_done dh (wb i)) current wait_done dhs wb (suc i)

abbrev pub is_poll : Option ℤ → Bool
is_poll none = false
is_poll (some t) = eqb_ℤ t (pos 0)

-- From the start of the second loop to the first sleep.
pub wait_enqueue : Kernel → ℕ → List ℕ → (ℕ → ℕ) → ℕ → ℕ → ℕ → Kernel × Outcome
wait_enqueue k current objects wb wait_done irql wait_count =
    let k' =
      enqueue_waits (record k { done = update k.done wait_done false }) current wait_done objects wb
        0 in
    if wait_count == 0
    then (k', returned status_success)
    else if leb dispatch_level irql
    then (k', returned status_invalid_parameter)
    else (k', sleeping wait_count)

pub after_scan : ℕ → List ℕ → (ℕ → ℕ) → ℕ → ℕ → Option ℤ → Scan → Kernel × Outcome
after_scan current objects wb wait_done irql timeout (grabbed k i) = (k, returned i)
after_scan current objects wb wait_done irql timeout (counted k wait_count) =
    if is_poll timeout && not (wait_count == 0)
    then (k, returned status_timeout)
    else wait_enqueue k current objects wb wait_done irql wait_count

-- `array` tells whether the caller passed wait_block_array.
pub wait_begin :
    Kernel → ℕ → WaitType → List ℕ → Bool → (ℕ → ℕ) → ℕ → ℕ → Option ℤ → Kernel × Outcome
wait_begin k current ty objects array wb wait_done irql timeout =
    if ltb 64 (length objects) || (ltb 3 (length objects) && not array)
    then (k, returned status_invalid_parameter)
    else after_scan current objects wb wait_done irql timeout
        (check_objects k current ty objects 0 0)

-- The wait timed out or was interrupted: unlink every block that was queued.
pub unlink_waits : Kernel → (ℕ → ℕ) → List ℕ → ℕ → Kernel
unlink_waits k wb [] i = k
unlink_waits k wb (dh ∷ dhs) i =
    unlink_waits (if (k.blocks (wb i)).thread == 0 then k else remove_entry k dh (wb i)) wb dhs
      (suc i)

abbrev pub is_waiting : WaitBlock → Bool
is_waiting b = not (b.thread == 0) && not (is_some b.object)

abbrev pub is_satisfied : WaitBlock → Bool
is_satisfied b = not (b.thread == 0) && is_some b.object

-- One object was enough: unlink the blocks behind it that still wait.
pub unlink_rest : Kernel → (ℕ → ℕ) → List ℕ → ℕ → Kernel
unlink_rest k wb [] j = k
unlink_rest k wb (dh ∷ dhs) j =
    unlink_rest (if is_waiting (k.blocks (wb j)) then remove_entry k dh (wb j) else k) wb dhs
      (suc j)

-- The loop over the blocks once the thread was woken, and what follows it.
pub settle : Kernel → WaitType → (ℕ → ℕ) → ℕ → List ℕ → ℕ → ℕ → Kernel × Outcome
settle k ty wb wait_done [] i n =
    let k' = record k { done = update k.done wait_done false } in
    (k', if n == 0 then returned status_success else sleeping n)
settle k ty wb wait_done (dh ∷ dhs) i n =
    let satisfied = not (n == 0) && is_satisfied (k.blocks (wb i)) in
    let rest = settle k ty wb wait_done dhs (suc i) (if satisfied then n - 1 else n) in
    if satisfied && is_any ty then (unlink_rest k wb dhs (suc i), returned i) else rest

pub wait_round : Kernel → WaitType → List ℕ → (ℕ → ℕ) → ℕ → ℕ → ℤ → Kernel × Outcome
wait_round k ty objects wb wait_done wait_count res =
    if k.done wait_done then settle k ty wb wait_done objects 0 wait_count else (
      unlink_waits k wb objects 0,
      returned (if ltb_ℤ res (pos 0) then status_alerted else status_timeout),
    )

pub ke_wait_for_single_object : Kernel → ℕ → ℕ → (ℕ → ℕ) → ℕ → ℕ → Option ℤ → Kernel × Outcome
ke_wait_for_single_object k current object wb wait_done irql timeout =
    wait_begin k current wait_any (object ∷ []) false wb wait_done irql timeout
