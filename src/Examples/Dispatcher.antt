-- ===== src/Examples/Dispatcher.antt =====
-- driver/ntoskernel.c: events, semaphores and mutexes on concrete kernels.
use ndiswrapper.Base.{ℕ, ◌+◌, ◌≡◌, refl, false, none, List, [], ◌∷◌, ℤ, pos, inr, arith, min, ◌++◌}
use ndiswrapper.Dispatcher.{
  DhType, notification_object, synchronization_object, mutex_object, semaphore_object, Object,
  Kernel, object_signaled, ke_release_mutex, ke_release_semaphore,
}
use ndiswrapper.Dispatcher.Counting.{Wakes, object_signaled-Wakes}
use ndiswrapper.Dispatcher.Events.{release_semaphore}
use ndiswrapper.Dispatcher.Mutex.{IsHeld, release_hands_over}

-- Every object of this kernel is alike; the thread of wait block b is b + 10.
abbrev pub kernel_of : Object → Kernel
kernel_of o = record {
  objects = λ _. o;
  blocks = λ b. record { thread = b + 10; object = none; wait_done = 5 };
  done = λ _. false;
  woken = [];
  corrupt = false;
}

abbrev pub object_of : DhType → ℤ → List ℕ → ℕ → Object
object_of kind state waiters owner = record {
  kind = kind;
  signal_state = state;
  wait_blocks = waiters;
  owner_thread = owner;
  limit = pos 4;
}

abbrev pub waiters : List ℕ
waiters = 1 ∷ 2 ∷ 3 ∷ []

abbrev semaphore : Kernel
semaphore = kernel_of (object_of semaphore_object (pos 2) waiters 0)

object_signaled-Wakes_example :
    Wakes (λ b. (semaphore.blocks b).thread) semaphore 7 waiters 2 (object_signaled semaphore 7)
object_signaled-Wakes_example = object_signaled-Wakes semaphore 7 2 (inr refl) refl

release_semaphore_example :
    Wakes
      (λ b. (semaphore.blocks b).thread)
      semaphore
      7
      waiters
      (min (2 + 3) 4)
      (ke_release_semaphore semaphore 7 (pos 3)).0
    × ((ke_release_semaphore semaphore 7 (pos 3)).1 ≡ pos 2)
release_semaphore_example = release_semaphore semaphore 7 2 4 3 refl refl refl (omega arith)

abbrev pub event : Kernel
event = kernel_of (object_of synchronization_object (pos 0) waiters 0)

abbrev notification : Kernel
notification = kernel_of (object_of notification_object (pos 0) waiters 0)

abbrev held_mutex : Kernel
held_mutex = kernel_of (object_of mutex_object (pos 0) (1 ∷ 2 ∷ []) 9)

IsHeld-once : IsHeld (held_mutex.objects 7) 9 1
IsHeld-once = record { kind = refl; owner = refl; state = refl; bound = omega arith }

abbrev free_mutex : Object
free_mutex = object_of mutex_object (pos 1) [] 0

release_hands_over_example :
    IsHeld ((ke_release_mutex held_mutex 7 9).0.objects 7) 11 1
    × (((ke_release_mutex held_mutex 7 9).0.objects 7).wait_blocks ≡ 2 ∷ [])
    × ((ke_release_mutex held_mutex 7 9).0.woken ≡ held_mutex.woken ++ 11 ∷ [])
release_hands_over_example =
    release_hands_over held_mutex 7 9 11 1 (2 ∷ []) IsHeld-once (λ e. absurd (omega arith)) refl
      refl (λ e. absurd (omega arith), tt)

abbrev quiet_mutex : Kernel
quiet_mutex = kernel_of (object_of mutex_object (pos 0) [] 9)
