-- ===== src/Examples/Kdpc.antt =====
-- driver/ntoskernel.c: the queue of deferred procedure calls on concrete states.
use ndiswrapper.Base.{◌==◌, ◌||◌, ◌≡◌, refl, some, [], ◌∷◌, arith}
use ndiswrapper.Kdpc.{low_importance, Dpcs, kdpc_worker}
use ndiswrapper.Kdpc.Queue.{IsConsistent}
use ndiswrapper.Kdpc.Drain.{worker_runs_in_order}

-- The kdpcs 3 and 4 are queued.
abbrev two_queued : Dpcs
two_queued = record {
  kdpc = λ p. record {
    importance = low_importance;
    func = p;
    ctx = 0;
    arg1 = 0;
    arg2 = 0;
    queued = p == 3 || p == 4;
  };
  kdpc_list = 3 ∷ 4 ∷ [];
  scheduled = 2;
}

two_queued-IsConsistent : IsConsistent two_queued
two_queued-IsConsistent = record { flags = λ p. ground arith; distinct = (refl, (refl, tt)) }

worker_runs_in_order_example :
    (s' : Dpcs) × (kdpc_worker (λ _ _ t. t) 3 two_queued ≡ some (3 ∷ 4 ∷ [], s'))
    × (s'.kdpc_list ≡ [])
worker_runs_in_order_example =
    worker_runs_in_order (λ _ _ t. t) 3 two_queued (3 ∷ 4 ∷ []) (λ _ _ _. refl) refl (omega arith)

-- What the worker leaves of `two_queued` where the functions do nothing.
after : Dpcs
after =
    (worker_runs_in_order (λ _ _ t. t) 3 two_queued (3 ∷ 4 ∷ []) (λ _ _ _. refl) refl
      (omega arith)).0

after_run : kdpc_worker (λ _ _ t. t) 3 two_queued ≡ some (3 ∷ 4 ∷ [], after)
unfolding after
after_run =
    (worker_runs_in_order (λ _ _ t. t) 3 two_queued (3 ∷ 4 ∷ []) (λ _ _ _. refl) refl
      (omega arith)).1
