-- ===== src/Examples/Workqueue.antt =====
-- driver/workqueue.c: a work queue with two works on thread 0.
use ndiswrapper.Base.{
  ℕ, ◌≡◌, ◌==◌, if◌then◌else◌, refl, true, none, some, List, [], ◌∷◌, arith, pos, has,
}
use ndiswrapper.Workqueue.{Workqueue, draining, worker_step}
use ndiswrapper.Workqueue.Consistent.{IsConsistent, here, after, works, Reach-IsConsistent}
use ndiswrapper.Workqueue.Drain.{worker_steps, worker_calls_in_order}

abbrev queue : List ℕ → Workqueue
queue l = record {
  threads = λ t. record {
    pid = 42;
    pending = pos 1;
    work_list = if t == 0 then l else [];
    completion = 0;
  };
  point = λ _. draining;
  owner = λ w. if has w l then some 0 else none;
  calls = [];
  completed = [];
  singlethread = true;
  qon = 0;
  num_cpus = 1;
}

abbrev two : Workqueue
two = queue (5 ∷ 6 ∷ [])

two-IsConsistent : IsConsistent two
two-IsConsistent = record { linked = λ w t. ground arith; distinct = λ t. ground arith }

Reach-IsConsistent_example : IsConsistent (worker_step two 0)
Reach-IsConsistent_example =
    Reach-IsConsistent (λ _. 0) two (worker_step two 0)
      (after two (worker_step two 0) here (works two 0)) two-IsConsistent

worker_calls_in_order_example :
    ((worker_steps 2 two 0).calls ≡ 5 ∷ 6 ∷ [])
    × (((worker_steps 2 two 0).threads 0).work_list ≡ [])
    × ((worker_steps 2 two 0).point 0 ≡ draining)
worker_calls_in_order_example = worker_calls_in_order (5 ∷ 6 ∷ []) two 0 two-IsConsistent refl refl
