-- ===== src/Examples/Wait.antt =====
-- driver/ntoskernel.c: waits on concrete kernels.
use ndiswrapper.Base.{
  ℕ, ◌+◌, ◌≡◌, refl, true, false, none, some, [], ◌∷◌, pos, arith, leb, if◌then◌else◌, update,
  status_success,
}
use ndiswrapper.Dispatcher.{
  Kernel, synchronization_object, ke_set_event, ke_initialize_event, grab_object,
}
use ndiswrapper.Dispatcher.Wait.{enqueue_wait, wait_any, wait_round, returned}
use ndiswrapper.Dispatcher.Wait.Poll.{blocked}
use ndiswrapper.Dispatcher.Wait.Reachable.{
  IsEvent, initialized, after, wait, set, Reachable-IsEvent,
}
use ndiswrapper.Dispatcher.Wait.Single.{sleeper_wakes}
use ndiswrapper.Examples.Dispatcher.{object_of, event}

abbrev wb : ℕ → ℕ
wb i = i + 1

sleeper_wakes_example :
    ((wait_round (ke_set_event event 7).0 wait_any (7 ∷ []) wb 5 1 (pos 0)).1
      ≡ returned status_success)
    × (((wait_round (ke_set_event event 7).0 wait_any (7 ∷ []) wb 5 1 (pos 0)).0.objects
          7).signal_state
        ≡ pos 0)
    × (((wait_round (ke_set_event event 7).0 wait_any (7 ∷ []) wb 5 1 (pos 0)).0.objects
          7).wait_blocks
        ≡ 2 ∷ 3 ∷ [])
sleeper_wakes_example =
    sleeper_wakes event 7 wb 5 (2 ∷ 3 ∷ []) (pos 0) refl refl refl (λ e. absurd (omega arith)) refl

cannot_grab : (grab_object (event.objects 7) 20 true) ≡ (event.objects 7, false)
unfolding grab_object
cannot_grab = refl

blocked_three : blocked event 20 (7 ∷ 8 ∷ []) ≡ 2
unfolding grab_object
blocked_three = refl

-- Object 8 is signalled, the others are not.
abbrev second_ready : Kernel
second_ready = record event {
  objects = update event.objects 8 (object_of synchronization_object (pos 1) [] 0);
}

first_blocked : blocked second_ready 20 (7 ∷ []) ≡ 1
unfolding grab_object
first_blocked = refl

second_grabbed : (grab_object (second_ready.objects 8) 20 true).1 ≡ true
unfolding grab_object
second_grabbed = refl

-- Of the blocks 1 to 3 those up to `n` are satisfied, and the thread was woken.
abbrev progress : ℕ → Kernel
progress n = record event {
  blocks = λ b. record { thread = 20; object = if leb b n then some 7 else none; wait_done = 5 };
  done = λ _. true;
}

-- A thread queued for the event, which is then set.
abbrev waited : Kernel
waited = enqueue_wait (ke_initialize_event event 7 synchronization_object (pos 0)) 20 6 7 4

Reachable-IsEvent_example : IsEvent (ke_set_event waited 7).0 7
Reachable-IsEvent_example =
    Reachable-IsEvent
      (after waited _ (after _ waited (initialized event) (wait _ 20 6 4)) (set waited))
