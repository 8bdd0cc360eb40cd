-- ===== src/Workqueue/Races.antt =====
-- driver/workqueue.c: two orders of steps that wrap_cancel_work and wrap_destroy_wq_on allow, since
-- they write to `thread` and `pending` without the lock of the thread.
use ndiswrapper.Base.{
  ℕ, suc, ◌≡◌, ◌≢◌, refl, sym, ap, ◌∙◌, true, false, some, List, [], ◌∷◌, arith, has, Distinct,
  times, times-append, update, update_self, pos, ltb_ℤ,
}
use ndiswrapper.Workqueue.Consistent.{names, IsConsistent}
use ndiswrapper.Workqueue.{
  Workqueue, waiting, draining, settling, wrap_queue_work_on, cancel_xchg, worker_step,
  wrap_destroy_wq_on,
}

times_none : (w : ℕ) (xs : List ℕ) → has w xs ≡ false → times w xs ≡ 0
times_none w [] h = refl
times_none w (x ∷ xs) h = ground (arith, times_none w xs)

times_once : (w : ℕ) (xs : List ℕ) → Distinct xs → has w xs ≡ true → times w xs ≡ 1
times_once w [] d h = absurd (ground arith)
times_once w (x ∷ xs) d h = ground (arith, times_once w xs d.1, times_none w xs, d.0)

requeue :
    (q : Workqueue) (work t : ℕ)
    → let q' = wrap_queue_work_on (cancel_xchg q work).0 work t in
      (times work (q'.0.threads t).work_list ≡ suc (times work (q.threads t).work_list))
      × (q'.1 ≡ 1)
unfolding wrap_queue_work_on cancel_xchg
requeue q work t =
    (ground (arith, times-append work (q.threads t).work_list (work ∷ [])), ground arith)

-- In a consistent queue, a work is queued on a thread. After the xchg of wrap_cancel_work, and before
-- its list_del, it is queued on the same thread again: now the work is linked into the list twice,
-- and the call has returned 1 as for a work that was not queued.
cancelled_work_is_linked_twice :
    (q : Workqueue) (work t : ℕ)
    → IsConsistent q
    → q.owner work ≡ some t
    → let q' = wrap_queue_work_on (cancel_xchg q work).0 work t in
      (times work (q'.0.threads t).work_list ≡ 2) × (q'.1 ≡ 1)
cancelled_work_is_linked_twice q work t c o =
    let same : names (some t) t ≡ true = ground arith in
    let on : has work (q.threads t).work_list ≡ true =
      c.linked work t ∙ ap (λ x. names x t) o ∙ same in
    let once = times_once work (q.threads t).work_list (c.distinct t) on in
    let (twice, one) = requeue q work t in (twice ∙ ap suc once, one)

step_decides :
    (q : Workqueue) (t : ℕ)
    → q.point t ≡ draining
    → (q.threads t).work_list ≡ []
    → ltb_ℤ (q.threads t).pending (pos 0) ≡ false
    → worker_step q t ≡ record q { point = update q.point t settling }
unfolding worker_step
step_decides q t e l p = rw (worker_step, e, l) (rw p refl)

destroy_asks :
    (q : Workqueue) (t : ℕ)
    → ((wrap_destroy_wq_on q t).point ≡ q.point)
      × (((wrap_destroy_wq_on q t).threads t).pid ≡ (q.threads t).pid)
unfolding wrap_destroy_wq_on
destroy_asks q t = (ground arith, ground arith)

step_settles :
    (q : Workqueue) (t : ℕ)
    → q.point t ≡ settling
    → (((worker_step q t).threads t).pid ≡ (q.threads t).pid)
      × ((worker_step q t).point t ≡ waiting)
      × (((worker_step q t).threads t).pending ≡ pos 0)
unfolding worker_step
step_settles q t e = rw (worker_step, e) (ground arith, ground arith, ground arith)

step_waits :
    (q : Workqueue) (t : ℕ)
    → q.point t ≡ waiting
    → (q.threads t).pending ≡ pos 0
    → worker_step q t ≡ q
unfolding worker_step
step_waits q t e p = rw (worker_step, e) (ground arith)

-- A worker with an empty list has tested that it need not quit. Then wrap_destroy_wq_on asks it to quit,
-- and then the worker resets `pending`: the worker waits, its `pid` is not 0, which wrap_destroy_wq_on
-- waits for, and no step of its own changes anything any more.
quit_is_lost :
    (q : Workqueue) (t : ℕ)
    → q.point t ≡ draining
    → (q.threads t).work_list ≡ []
    → ltb_ℤ (q.threads t).pending (pos 0) ≡ false
    → (q.threads t).pid ≢ 0
    → let q' = worker_step (wrap_destroy_wq_on (worker_step q t) t) t in
      ((q'.threads t).pid ≢ 0) × (q'.point t ≡ waiting) × (worker_step q' t ≡ q')
quit_is_lost q t e l p n =
    let q1 : Workqueue = worker_step q t in
    let q2 : Workqueue = wrap_destroy_wq_on q1 t in
    let decided = step_decides q t e l p in
    let (point, pid) = destroy_asks q1 t in
    let at : q2.point t ≡ settling =
      ap (λ f. f t) point ∙ ap (λ x. x.point t) decided ∙ update_self q.point t settling in
    let (pid', waits, reset) = step_settles q2 t at in
    let same : (q1.threads t).pid ≡ (q.threads t).pid = ap (λ x. (x.threads t).pid) decided in
    (λ z. n (sym (pid' ∙ pid ∙ same) ∙ z), waits, step_waits (worker_step q2 t) t waits reset)
