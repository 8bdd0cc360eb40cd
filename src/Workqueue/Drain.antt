-- ===== src/Workqueue/Drain.antt =====
-- driver/workqueue.c: a worker calls the works of its list in order, each once.
use mathlib.Core.List.{append_assoc, append-nil}
use ndiswrapper.Base.{
  ℕ, zero, suc, ◌≡◌, refl, sym, ap, ◌∙◌, List, [], ◌∷◌, ◌++◌, arith, length, erase,
}
use ndiswrapper.Workqueue.{Workqueue, draining, worker_step}
use ndiswrapper.Workqueue.Consistent.{
  IsConsistent, took, step_takes, first_named, named, worker_step-IsConsistent, erase_first,
}

-- `n` steps of one worker.
pub worker_steps : ℕ → Workqueue → ℕ → Workqueue
worker_steps zero q t = q
worker_steps (suc n) q t = worker_steps n (worker_step q t) t

took_list :
    (q : Workqueue) (w t : ℕ) → ((took q w t).threads t).work_list ≡ erase w (q.threads t).work_list
unfolding took
took_list q w t = ground arith

took_point : (q : Workqueue) (w t : ℕ) → (took q w t).point ≡ q.point
unfolding took
took_point q w t = refl

-- A worker that nobody disturbs calls the functions of the works on its list, each once and in the
-- order in which they were queued, and its list is empty after as many steps as it had works.
pub worker_calls_in_order :
    (works : List ℕ) (q : Workqueue) (t : ℕ)
    → IsConsistent q
    → q.point t ≡ draining
    → (q.threads t).work_list ≡ works
    → let q' = worker_steps (length works) q t in
      (q'.calls ≡ q.calls ++ works) × ((q'.threads t).work_list ≡ []) × (q'.point t ≡ draining)
unfolding worker_steps
worker_calls_in_order [] q t c p l = (sym (append-nil q.calls), l, p)
worker_calls_in_order (w ∷ ws) q t c p l =
    let owner = named (q.owner w) t (first_named q t w ws l c) in
    let step = step_takes q t w ws p l owner in
    let q1 : Workqueue = worker_step q t in
    let list : (q1.threads t).work_list ≡ ws =
      ap (λ x. (x.threads t).work_list) step
      ∙ took_list q w t
      ∙ ap (erase w) l
      ∙ erase_first w ws in
    let at : q1.point t ≡ draining =
      ap (λ x. x.point t) step ∙ ap (λ f. f t) (took_point q w t) ∙ p in
    let called : q1.calls ≡ q.calls ++ w ∷ [] = ap (λ x. x.calls) step in
    let (calls, empty, drains) =
      worker_calls_in_order ws q1 t (worker_step-IsConsistent q t c) at list in
    (calls ∙ ap (λ x. x ++ ws) called ∙ append_assoc q.calls (w ∷ []) ws, empty, drains)
