-- ===== src/Workqueue.antt =====
-- driver/workqueue.c: the driver's own work queues. Every part that runs under the lock of a thread is
-- one step on the state of the queue; a worker thread is between its steps at a point that `point`
-- names. Works, threads and completions are named by numbers, and NULL is `none` or 0.
pub mod Consistent
pub mod Drain
pub mod Races
use ndiswrapper.Base.{
  ℕ, zero, suc, ◌+◌, ◌%◌, Bool, true, false, ◌||◌, Option, none, some, List, [], ◌∷◌, ◌++◌, ◌==◌,
  if◌then◌else◌, is_some, erase, update, ℤ, pos, negsuc, ltb_ℤ, eqb_ℤ, not,
}

-- Where the loop of workq_thread is: in wait_condition, at the lock of the inner loop, or behind the
-- test for `pending` of a thread with an empty list; or the thread has ended.
pub data Point : Type 0 where
  waiting draining settling ended : Point

-- `struct workqueue_thread`.
pub record Thread : Type 0 where
  pub pid : ℕ
  pub pending : ℤ
  pub work_list : List ℕ
  pub completion : ℕ

-- `owner` is the field `thread` of a work; `calls` holds the works whose function was called, and
-- `completed` the completions that were completed, in order.
pub record Workqueue : Type 0 where
  pub threads : ℕ → Thread
  pub point : ℕ → Point
  pub owner : ℕ → Option ℕ
  pub calls : List ℕ
  pub completed : List ℕ
  pub singlethread : Bool
  pub qon : ℕ
  pub num_cpus : ℕ

abbrev pub set_thread : Workqueue → ℕ → Thread → Workqueue
set_thread q t v = record q { threads = update q.threads t v }

-- Under the lock of the thread alone: two calls for the same work on different threads may both find no
-- owner, and are not one step each.
pub wrap_queue_work_on : Workqueue → ℕ → ℕ → Workqueue × ℕ
wrap_queue_work_on q work cpu =
    let thread = q.threads cpu in
    if is_some (q.owner work) then (q, 0) else (
      record (set_thread q cpu
          (record thread { work_list = thread.work_list ++ work ∷ []; pending = pos 1 })) {
            owner = update q.owner work (some cpu);
          },
      1,
    )

-- The search for a thread that runs: `none` where the fuel ran out. `qon` has 8 bits.
pub next_thread : ℕ → Workqueue → Option (Workqueue × ℕ)
next_thread zero q = none
next_thread (suc fuel) q =
    let cpu = q.qon % q.num_cpus in
    let q' = record q { qon = (q.qon + 1) % 256 } in
    let rest = next_thread fuel q' in if (q.threads cpu).pid == 0 then rest else some (q', cpu)

abbrev pub queue_next : ℕ → Option (Workqueue × ℕ) → Option (Workqueue × ℕ)
queue_next work none = none
queue_next work (some (q, cpu)) = some (wrap_queue_work_on q work cpu)

-- `online` is num_online_cpus().
pub wrap_queue_work : ℕ → ℕ → Workqueue → ℕ → Option (Workqueue × ℕ)
wrap_queue_work fuel online q work =
    if online == 1 || q.singlethread
    then some (wrap_queue_work_on q work 0)
    else queue_next work (next_thread fuel q)

-- The two steps of wrap_cancel_work: the xchg without the lock, and list_del under it.
pub cancel_xchg : Workqueue → ℕ → Workqueue × Option ℕ
cancel_xchg q work = (record q { owner = update q.owner work none }, q.owner work)

pub cancel_unlink : Workqueue → ℕ → ℕ → Workqueue
cancel_unlink q work t =
    set_thread q t (record (q.threads t) { work_list = erase work (q.threads t).work_list })

pub wrap_cancel_work : Workqueue → ℕ → Workqueue
wrap_cancel_work q work = elim (q.owner work) [
  | none ↦ (cancel_xchg q work).0
  | some t ↦ cancel_unlink (cancel_xchg q work).0 work t
]

abbrev pub move : Workqueue → ℕ → Point → Workqueue
move q t p = record q { point = update q.point t p }

-- One step of thread `t` in workq_thread.
pub worker_step : Workqueue → ℕ → Workqueue
worker_step q t =
    let thread = q.threads t in
    elim (q.point t) [
      | waiting ↦ if eqb_ℤ thread.pending (pos 0) then q else move q t draining
      | draining ↦ elim thread.work_list [
        | [] ↦
            if ltb_ℤ thread.pending (pos 0)
            then move (set_thread q t (record thread { pid = 0 })) t ended
            else move q t settling
        | work ∷ works ↦
            if is_some (q.owner work)
            then record (set_thread q t (record thread { work_list = works })) {
              owner = update q.owner work none;
              calls = q.calls ++ work ∷ [];
            }
            else q
      ]
      | settling ↦
          let q' = set_thread q t (record thread { pending = pos 0; completion = 0 }) in
          move
            (record q' {
              completed =
                  if thread.completion == 0
                  then q.completed
                  else q.completed ++ thread.completion ∷ [];
            })
            t waiting
      | ended ↦ q
    ]

-- What wrap_flush_wq_on does before it waits for `done`.
pub wrap_flush_wq_on : Workqueue → ℕ → ℕ → Workqueue
wrap_flush_wq_on q t done =
    set_thread q t (record (q.threads t) { completion = done; pending = pos 1 })

-- What wrap_destroy_wq_on does before it waits until `pid` is 0.
pub wrap_destroy_wq_on : Workqueue → ℕ → Workqueue
wrap_destroy_wq_on q t =
    if (q.threads t).pid == 0
    then q
    else set_thread q t (record (q.threads t) { pending = negsuc 0 })
