-- ===== src/Workqueue/Consistent.antt =====
-- driver/workqueue.c: a work stands on the list of a thread just while its `thread` field names it.
use ndiswrapper.Base.{
  ℕ, ◌≡◌, ◌≢◌, refl, sym, ap, ◌∙◌, Bool, true, false, Option, none, some, List, [], ◌∷◌, ◌++◌,
  arith, ◌==◌, has, Distinct, has-append, has-erase, erase, erase-Distinct, append-Distinct, update,
  Option-cases, List-cases, inl, inr, ◌⊎◌,
}
use ndiswrapper.Workqueue.{
  Workqueue, Point, waiting, draining, settling, ended, wrap_queue_work_on, cancel_xchg,
  cancel_unlink, wrap_cancel_work, worker_step, wrap_flush_wq_on, wrap_destroy_wq_on,
}

abbrev pub names : Option ℕ → ℕ → Bool
names none t = false
names (some u) t = u == t

pub record IsConsistent (q : Workqueue) : Type 0 where
  pub linked : (w t : ℕ) → has w (q.threads t).work_list ≡ names (q.owner w) t
  pub distinct : (t : ℕ) → Distinct (q.threads t).work_list

-- Only the lists and the owners matter.
same_lists :
    (q q' : Workqueue)
    → ((t : ℕ) → (q'.threads t).work_list ≡ (q.threads t).work_list)
    → ((w : ℕ) → q'.owner w ≡ q.owner w)
    → IsConsistent q
    → IsConsistent q'
same_lists q q' lists owners c = record {
  linked = λ w t. rw (lists t, owners w) (c.linked w t);
  distinct = λ t. rw (lists t) (c.distinct t);
}

queue_linked :
    (q : Workqueue) (work cpu w t : ℕ)
    → IsConsistent q
    → has w ((wrap_queue_work_on q work cpu).0.threads t).work_list
      ≡ names ((wrap_queue_work_on q work cpu).0.owner w) t
unfolding wrap_queue_work_on
queue_linked q work cpu w t c = ground (
  arith,
  c.linked w t,
  c.linked w cpu,
  c.linked work t,
  has-append w (q.threads cpu).work_list (work ∷ []),
)

queue-Distinct :
    (q : Workqueue) (work cpu t : ℕ)
    → IsConsistent q
    → Distinct ((wrap_queue_work_on q work cpu).0.threads t).work_list
unfolding wrap_queue_work_on
queue-Distinct q work cpu t c = ground (
  arith,
  c.distinct t,
  append-Distinct work (q.threads cpu).work_list (c.distinct cpu),
  c.linked work cpu,
)

-- A work and its thread are taken apart, as the cancelling of a work and the taking of a worker do.
unfoldable pub took : Workqueue → ℕ → ℕ → Workqueue
took q work t = record q {
  threads =
      update q.threads t (record (q.threads t) { work_list = erase work (q.threads t).work_list });
  owner = update q.owner work none;
}

took_linked :
    (q : Workqueue) (work u w t : ℕ)
    → IsConsistent q
    → q.owner work ≡ some u
    → has w ((took q work u).threads t).work_list ≡ names ((took q work u).owner w) t
unfolding took
took_linked q work u w t c e = ground (
  arith,
  c.linked w t,
  c.linked w u,
  c.linked work t,
  c.linked work u,
  has-erase w work (q.threads u).work_list (c.distinct u),
)

took-Distinct :
    (q : Workqueue) (work u t : ℕ) → IsConsistent q → Distinct ((took q work u).threads t).work_list
unfolding took
took-Distinct q work u t c =
    ground (arith, c.distinct t, erase-Distinct work (q.threads u).work_list (c.distinct u))

took-IsConsistent :
    (q : Workqueue) (work u : ℕ)
    → q.owner work ≡ some u
    → IsConsistent q
    → IsConsistent (took q work u)
took-IsConsistent q work u e c = record {
  linked = λ w t. took_linked q work u w t c e;
  distinct = λ t. took-Distinct q work u t c;
}

cancel_took :
    (q : Workqueue) (work u : ℕ) → q.owner work ≡ some u → wrap_cancel_work q work ≡ took q work u
unfolding wrap_cancel_work cancel_xchg cancel_unlink took
cancel_took q work u e = rw (wrap_cancel_work, e) refl

cancel_none :
    (q : Workqueue) (work : ℕ)
    → q.owner work ≡ none
    → wrap_cancel_work q work ≡ record q { owner = update q.owner work none }
unfolding wrap_cancel_work cancel_xchg
cancel_none q work e = rw (wrap_cancel_work, e) refl

pub wrap_cancel_work-IsConsistent :
    (q : Workqueue) (work : ℕ) → IsConsistent q → IsConsistent (wrap_cancel_work q work)
wrap_cancel_work-IsConsistent q work c = elim (Option-cases (q.owner work)) [
  | inl e ↦ rw (cancel_none q work e) (same_lists q _ (λ t. refl) (λ w. ground arith) c)
  | inr (u, e) ↦ rw (cancel_took q work u e) (took-IsConsistent q work u e c)
]

Point-cases : (p : Point) → (p ≡ draining) ⊎ (p ≢ draining)
Point-cases waiting = inr (λ e. ground arith)
Point-cases draining = inl refl
Point-cases settling = inr (λ e. ground arith)
Point-cases ended = inr (λ e. ground arith)

pub erase_first : (w : ℕ) (ws : List ℕ) → erase w (w ∷ ws) ≡ ws
erase_first w ws = ground arith

-- The worker takes the first work of its list, which names the worker's thread.
pub step_takes :
    (q : Workqueue) (t w : ℕ) (ws : List ℕ)
    → q.point t ≡ draining
    → (q.threads t).work_list ≡ w ∷ ws
    → q.owner w ≡ some t
    → worker_step q t ≡ record (took q w t) { calls = q.calls ++ w ∷ [] }
unfolding took worker_step
step_takes q t w ws e l o =
    let rest : erase w (q.threads t).work_list ≡ ws = ap (erase w) l ∙ erase_first w ws in
    rw rest (rw (worker_step, e, l) (rw o refl))

-- Lists and owners stay.
abbrev Stays : Workqueue → Workqueue → Type 0
Stays q q' =
    ((u : ℕ) → (q'.threads u).work_list ≡ (q.threads u).work_list)
    × ((w : ℕ) → q'.owner w ≡ q.owner w)

step_empty :
    (q : Workqueue) (t : ℕ)
    → q.point t ≡ draining
    → (q.threads t).work_list ≡ []
    → Stays q (worker_step q t)
unfolding worker_step
step_empty q t e l =
    (λ u. rw (worker_step, e, l) (ground arith), λ w. rw (worker_step, e, l) (ground arith))

step_other :
    (q : Workqueue) (t : ℕ) (p : Point) → q.point t ≡ p → p ≢ draining → Stays q (worker_step q t)
unfolding worker_step
step_other q t waiting e n =
    (λ u. rw (worker_step, e) (ground arith), λ w. rw (worker_step, e) (ground arith))
step_other q t draining e n = absurd (n refl)
step_other q t settling e n =
    (λ u. rw (worker_step, e) (ground arith), λ w. rw (worker_step, e) (ground arith))
step_other q t ended e n =
    (λ u. rw (worker_step, e) (ground arith), λ w. rw (worker_step, e) (ground arith))

pub first_named :
    (q : Workqueue) (t w : ℕ) (ws : List ℕ)
    → (q.threads t).work_list ≡ w ∷ ws
    → IsConsistent q
    → names (q.owner w) t ≡ true
first_named q t w ws l c =
    let first : has w (w ∷ ws) ≡ true = ground arith in sym (c.linked w t) ∙ ap (has w) l ∙ first

pub named : (o : Option ℕ) (t : ℕ) → names o t ≡ true → o ≡ some t
named none t e = absurd (ground arith)
named (some u) t e = ap some (ground arith)

pub worker_step-IsConsistent :
    (q : Workqueue) (t : ℕ) → IsConsistent q → IsConsistent (worker_step q t)
worker_step-IsConsistent q t c = elim (Point-cases (q.point t)) [
  | inr n ↦ let (ls, os) = step_other q t (q.point t) refl n in same_lists q _ ls os c
  | inl e ↦ elim (List-cases (q.threads t).work_list) [
    | inl l ↦ let (ls, os) = step_empty q t e l in same_lists q _ ls os c
    | inr (w, ws, l) ↦
        let owner : q.owner w ≡ some t = named (q.owner w) t (first_named q t w ws l c) in
        rw (step_takes q t w ws e l owner)
          (same_lists (took q w t) _ (λ u. refl) (λ v. refl) (took-IsConsistent q w t owner c))
  ]
]

queue-IsConsistent :
    (q : Workqueue) (work cpu : ℕ) → IsConsistent q → IsConsistent (wrap_queue_work_on q work cpu).0
queue-IsConsistent q work cpu c = record {
  linked = λ w t. queue_linked q work cpu w t c;
  distinct = λ t. queue-Distinct q work cpu t c;
}

flush-IsConsistent :
    (q : Workqueue) (t done : ℕ) → IsConsistent q → IsConsistent (wrap_flush_wq_on q t done)
unfolding wrap_flush_wq_on
flush-IsConsistent q t done = same_lists q _ (λ u. ground arith) (λ w. refl)

destroy-IsConsistent :
    (q : Workqueue) (t : ℕ) → IsConsistent q → IsConsistent (wrap_destroy_wq_on q t)
unfolding wrap_destroy_wq_on
destroy-IsConsistent q t = same_lists q _ (λ u. ground arith) (λ w. ground arith)

-- One step of any thread of the kernel, where nothing comes between the two parts of wrap_cancel_work.
-- The work is always queued on the thread `home work`, so that the lock of that thread makes the test
-- and the writes of wrap_queue_work_on one step.
pub data Step (home : ℕ → ℕ) : Workqueue → Workqueue → Type 0 where
  queues : (q : Workqueue) (work : ℕ) → Step home q (wrap_queue_work_on q work (home work)).0
  cancels : (q : Workqueue) (work : ℕ) → Step home q (wrap_cancel_work q work)
  works : (q : Workqueue) (t : ℕ) → Step home q (worker_step q t)
  flushes : (q : Workqueue) (t done : ℕ) → Step home q (wrap_flush_wq_on q t done)
  destroys : (q : Workqueue) (t : ℕ) → Step home q (wrap_destroy_wq_on q t)

-- The states that steps lead to from `q`.
pub data Reach (home : ℕ → ℕ) (q : Workqueue) : Workqueue → Type 0 where
  here : Reach home q q
  after : (q1 q2 : Workqueue) → Reach home q q1 → Step home q1 q2 → Reach home q q2

step-IsConsistent :
    (home : ℕ → ℕ) (q q' : Workqueue) → Step home q q' → IsConsistent q → IsConsistent q'
step-IsConsistent home q q' (queues q0 work) c = queue-IsConsistent q work (home work) c
step-IsConsistent home q q' (cancels q0 work) c = wrap_cancel_work-IsConsistent q work c
step-IsConsistent home q q' (works q0 t) c = worker_step-IsConsistent q t c
step-IsConsistent home q q' (flushes q0 t done) c = flush-IsConsistent q t done c
step-IsConsistent home q q' (destroys q0 t) c = destroy-IsConsistent q t c

-- Each work is always queued on the same thread, as in the single-threaded queues that the driver makes.
-- Then over any interleaving of the steps of the workers with queueing, flushing, destroying and
-- undisturbed cancelling of works: a work stands on the list of a thread just while its `thread` field
-- names that thread, so on at most one list, and it stands there once.
pub Reach-IsConsistent :
    (home : ℕ → ℕ) (q q' : Workqueue) → Reach home q q' → IsConsistent q → IsConsistent q'
Reach-IsConsistent home q q' here c = c
Reach-IsConsistent home q q' (after q1 q2 r s) c =
    step-IsConsistent home q1 q' s (Reach-IsConsistent home q q1 r c)
