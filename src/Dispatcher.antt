-- ===== src/Dispatcher.antt =====
-- driver/ntoskernel.c: dispatcher objects, that is events, mutexes and semaphores, with the threads
-- that wait for them (`grab_object`, `object_signaled`, KeSetEvent, KeReleaseMutex, ...). A
-- function that runs with `dispatcher_lock` held is one step on the kernel's state. KeClearEvent,
-- KeResetEvent and KeReadStateEvent do not take the lock; each is a single access to `signal_state`. A
-- pointer is a number and NULL is 0.
pub mod Counting
pub mod Events
pub mod Mutex
pub mod Wait
use ndiswrapper.Base.{
  ℕ, ◌≡◌, Bool, true, false, ◌&&◌, ◌||◌, Option, none, some, List, [], ◌∷◌, ◌++◌, ◌==◌,
  if◌then◌else◌, erase, update, ℤ, pos, eqb_ℤ, ltb_ℤ, leb_ℤ, long_dec, long_inc, wrap_long, ◌+ℤ◌,
  not, has,
}

pub data DhType : Type 0 where
  notification_object synchronization_object mutex_object semaphore_object thread_object : DhType

-- `struct dispatcher_header`, with the fields that nt_mutex and nt_semaphore add to it.
pub record Object : Type 0 where
  pub kind : DhType
  pub signal_state : ℤ
  pub wait_blocks : List ℕ
  pub owner_thread : ℕ
  pub limit : ℤ

pub record WaitBlock : Type 0 where
  pub thread : ℕ
  pub object : Option ℕ
  pub wait_done : ℕ

-- `done` holds the variables that `wait_done` points at, `woken` the calls of wake_up_process in
-- order. `corrupt` is set when an entry is unlinked that is not on its list.
pub record Kernel : Type 0 where
  pub objects : ℕ → Object
  pub blocks : ℕ → WaitBlock
  pub done : ℕ → Bool
  pub woken : List ℕ
  pub corrupt : Bool

abbrev pub is_mutex_object : Object → Bool
is_mutex_object o = elim o.kind [ mutex_object ↦ true | _ ↦ false ]

abbrev pub is_synch_object : Object → Bool
is_synch_object o = elim o.kind [ synchronization_object ↦ true | _ ↦ false ]

abbrev pub is_semaphore_object : Object → Bool
is_semaphore_object o = elim o.kind [ semaphore_object ↦ true | _ ↦ false ]

unfoldable pub initialize_object : DhType → ℤ → Object
initialize_object kind state = record {
  kind = kind;
  signal_state = state;
  wait_blocks = [];
  owner_thread = 0;
  limit = pos 0;
}

-- Whether `thread` can take the object and, under `grab`, the object taken. The two assertions for a
-- mutex, of which one fails each time, only print a message in a debug build and are left out.
unfoldable pub grab_object : Object → ℕ → Bool → Object × Bool
grab_object o thread grab =
    if is_mutex_object o
    then (if (eqb_ℤ o.signal_state (pos 1) && o.owner_thread == 0) || o.owner_thread == thread
        then (
          if grab
              then record o { signal_state = long_dec o.signal_state; owner_thread = thread }
              else o,
          true,
        )
        else (o, false))
    else if ltb_ℤ (pos 0) o.signal_state
    then (
      if grab && (is_synch_object o || is_semaphore_object o)
          then record o { signal_state = long_dec o.signal_state }
          else o,
      true,
    )
    else (o, false)

-- RemoveEntryList of a wait block of object `dh`.
pub remove_entry : Kernel → ℕ → ℕ → Kernel
remove_entry k dh b = record k {
  objects =
      update k.objects dh
        (record (k.objects dh) { wait_blocks = erase b (k.objects dh).wait_blocks });
  corrupt = k.corrupt || not (has b (k.objects dh).wait_blocks);
}

-- The rest of the body of the loop of `object_signaled`, once the object is taken and is `o`.
pub accept : Kernel → ℕ → ℕ → Object → Kernel
unfolding remove_entry
accept k dh b o =
    let wb = k.blocks b in
    let k' = remove_entry (record k { objects = update k.objects dh o }) dh b in
    record k' {
      blocks = update k'.blocks b (record wb { object = some dh });
      done = update k'.done wb.wait_done true;
      woken = k'.woken ++ wb.thread ∷ [];
    }

-- The body of that loop for one wait block.
pub offer : Kernel → ℕ → ℕ → Kernel
offer k dh b =
    let (o, got) = grab_object (k.objects dh) (k.blocks b).thread true in
    if got then accept k dh b o else k

pub signal_loop : Kernel → ℕ → List ℕ → Kernel
signal_loop k dh [] = k
signal_loop k dh (b ∷ bs) = signal_loop (offer k dh b) dh bs

pub object_signaled : Kernel → ℕ → Kernel
object_signaled k dh = signal_loop k dh (k.objects dh).wait_blocks

abbrev pub set_state : Kernel → ℕ → ℤ → Kernel
set_state k dh v = record k {
  objects = update k.objects dh (record (k.objects dh) { signal_state = v });
}

pub ke_initialize_event : Kernel → ℕ → DhType → ℤ → Kernel
unfolding initialize_object
ke_initialize_event k event kind state = record k {
  objects = update k.objects event (initialize_object kind state);
}

-- Each operation returns the kernel and the LONG that the code returns.
pub ke_set_event : Kernel → ℕ → Kernel × ℤ
ke_set_event k event =
    let old_state = (k.objects event).signal_state in
    let k' = set_state k event (pos 1) in
    (if eqb_ℤ old_state (pos 0) then object_signaled k' event else k', old_state)

-- A write without dispatcher_lock, which may fall into the midst of a locked part of another thread;
-- here it is a step between those parts.
unfoldable pub ke_clear_event : Kernel → ℕ → Kernel
ke_clear_event k event = set_state k event (pos 0)

-- An xchg without the lock, on the same terms.
pub ke_reset_event : Kernel → ℕ → Kernel × ℤ
ke_reset_event k event = (set_state k event (pos 0), (k.objects event).signal_state)

pub ke_read_state_event : Kernel → ℕ → ℤ
ke_read_state_event k event = (k.objects event).signal_state

pub ke_initialize_mutex : Kernel → ℕ → Kernel
unfolding initialize_object
ke_initialize_mutex k m = record k {
  objects =
      update k.objects m (record (initialize_object mutex_object (pos 1)) { owner_thread = 0 });
}

abbrev pub status_mutant_not_owned : ℤ
status_mutant_not_owned = wrap_long (pos 0xC0000046)

pub ke_release_mutex : Kernel → ℕ → ℕ → Kernel × ℤ
ke_release_mutex k m current =
    let o = k.objects m in
    let ret = o.signal_state in
    let k' = set_state k m (long_inc ret) in
    let free = record k' {
      objects = update k'.objects m (record (k'.objects m) { owner_thread = 0 });
    } in
    if o.owner_thread == current && leb_ℤ ret (pos 0)
    then (if eqb_ℤ ret (pos 0) then object_signaled free m else k', ret)
    else (k, status_mutant_not_owned)

pub ke_initialize_semaphore : Kernel → ℕ → ℤ → ℤ → Kernel
unfolding initialize_object
ke_initialize_semaphore k s count limit = record k {
  objects =
      update k.objects s (record (initialize_object semaphore_object count) { limit = limit });
}

-- The count after a release, at most the limit.
pub raised_state : Object → ℤ → ℤ
unfolding ◌+ℤ◌ wrap_long
raised_state o adjustment =
    let sum = wrap_long (o.signal_state +ℤ adjustment) in if leb_ℤ sum o.limit then sum else o.limit

pub ke_release_semaphore : Kernel → ℕ → ℤ → Kernel × ℤ
ke_release_semaphore k s adjustment =
    let state = raised_state (k.objects s) adjustment in
    let k' = set_state k s state in
    (if ltb_ℤ (pos 0) state then object_signaled k' s else k', (k.objects s).signal_state)
