-- ===== src/Usb/Conserve.antt =====
-- driver/usb.c: the worker completes the IRPs that Linux accepted.
use ndiswrapper.Base.{
  ℕ, ◌+◌, ◌≡◌, ◌≢◌, refl, Bool, true, false, List, [], ◌∷◌, ◌++◌, arith, if◌then◌else◌, has, ℤ, pos,
  inl, inr, ◌⊎◌, eqb_ℤ, times, times-append,
}
use ndiswrapper.Usb.{UrbState, allocated, submitted, Urbs, wrap_submit_urb, complete_one}
use ndiswrapper.Usb.Invariant.{IsUrbs, is_active, is_completed, take_IsUrbs}
use ndiswrapper.Usb.Steps.{
  drop_IsUrbs, attach_IsUrbs, finish_IsUrbs, submit_IsUrbs, cancel_IsUrbs, work_IsUrbs,
  refuse_IsUrbs,
}
use ndiswrapper.Usb.Schedule.{
  Reach, starts, takes, attaches, drops, accepts, refuses, finishes, works, cancels, in_flight,
}
use ndiswrapper.Usb.Flight.{
  take_flight, attach_flight, free_flight, accept_flight, finish_flight, cancel_flight,
  refuse_flight, work_flight, take_completed, attach_completed, free_completed, cancel_completed,
  submit_completed, refuse_completed, work_completed, finish_completed,
}

-- Every IRP was completed by the worker as often as it was accepted, but once less while it is in flight.
pub record IsBalanced (s : Urbs) (acc : List ℕ) : Type 0 where
  pub urbs : IsUrbs s
  pub once : (i : ℕ) → times i acc ≡ times i s.completed_irps + (if in_flight s i then 1 else 0)

-- A step that completes nothing.
quiet :
    {s t : Urbs} {acc : List ℕ}
    → IsUrbs t
    → t.completed_irps ≡ s.completed_irps
    → ((j : ℕ) → in_flight t j ≡ in_flight s j)
    → IsBalanced s acc
    → IsBalanced t acc
quiet {s} {t} v c f b = record { urbs = v; once = λ j. rw (c, f j) (b.once j) }

start_IsUrbs :
    (s : Urbs)
    → s.wrap_urb_list ≡ []
    → s.complete_list ≡ []
    → s.num_alloc_urbs ≡ 0
    → ((i : ℕ) → ((s.irps i).wrap_urb ≡ 0) × ((s.irps i).cancel_routine ≡ false))
    → IsUrbs s
start_IsUrbs s l q n idle = record {
  distinct = ground (arith, l);
  count = ground (arith, l, n);
  real = ground (arith, l);
  listed = λ i h. absurd (h (idle i).0);
  active = λ i h. absurd (h (idle i).0);
  back = λ i h. absurd (h (idle i).0);
  owned = λ w h. ground (arith, l);
  queue = λ w. ground (arith, l, q);
  queue_distinct = ground (arith, q);
  cancelled = λ i h. ground (arith, idle i);
}

accept_IsBalanced :
    (s : Urbs) (acc : List ℕ) (i : ℕ)
    → (s.irps i).wrap_urb ≢ 0
    → (s.urbs (s.irps i).wrap_urb).state ≡ allocated
    → IsBalanced s acc
    → IsBalanced (wrap_submit_urb s i (pos 0)).0 (acc ++ i ∷ [])
accept_IsBalanced s acc i own st b = record {
  urbs = submit_IsUrbs s b.urbs i own st;
  once = λ j. ground (
    arith,
    b.once j,
    times-append j acc (i ∷ []),
    accept_flight s b.urbs i j own st,
    submit_completed s i,
  );
}

refuse_IsBalanced :
    (s : Urbs) (acc : List ℕ) (i : ℕ) (ret : ℤ)
    → eqb_ℤ ret (pos 0) ≡ false
    → (s.irps i).wrap_urb ≢ 0
    → (s.urbs (s.irps i).wrap_urb).state ≡ allocated
    → IsBalanced s acc
    → IsBalanced (wrap_submit_urb s i ret).0 acc
refuse_IsBalanced s acc i ret err own st b =
    quiet (refuse_IsUrbs s b.urbs i ret err own st) (refuse_completed s i ret)
      (λ j. refuse_flight s b.urbs i j ret err own st) b

work_IsBalanced :
    (s : Urbs) (acc : List ℕ) (pipe_in : ℕ → Bool) (w : ℕ) (ws : List ℕ)
    → s.complete_list ≡ w ∷ ws
    → IsBalanced s acc
    → IsBalanced (complete_one pipe_in (record s { complete_list = ws }) w) acc
work_IsBalanced s acc pipe_in w ws e b = record {
  urbs = work_IsUrbs s b.urbs pipe_in w ws e;
  once = λ j. ground (
    arith,
    b.once j,
    work_flight s b.urbs pipe_in w ws j e,
    work_completed s pipe_in w ws,
    times-append j s.completed_irps ((s.urbs w).irp ∷ []),
  );
}

Reach-IsBalanced : {s : Urbs} {acc : List ℕ} → Reach s acc → IsBalanced s acc
Reach-IsBalanced (starts s l q d n idle) = record {
  urbs = start_IsUrbs s l q n idle;
  once = λ i. ground (arith, d, idle i);
}
Reach-IsBalanced (takes s acc i fresh idle off r) =
    let b = Reach-IsBalanced r in
    quiet (take_IsUrbs s b.urbs i fresh idle off) (take_completed s i fresh)
      (λ j. take_flight s b.urbs i fresh j idle off) b
Reach-IsBalanced (attaches s acc i pipe_out dma own st r) =
    let b = Reach-IsBalanced r in
    quiet (attach_IsUrbs s b.urbs i pipe_out dma own st) (attach_completed s i pipe_out dma)
      (λ j. attach_flight s b.urbs i j pipe_out dma own st) b
Reach-IsBalanced (drops s acc w on st r) =
    let b = Reach-IsBalanced r in
    quiet (drop_IsUrbs s b.urbs w on (ground (arith, st)) (ground (arith, st))) (free_completed s w)
      (λ j. ground (arith, free_flight s b.urbs w j, b.urbs.owned w, st)) b
Reach-IsBalanced (accepts s acc i own st r) = accept_IsBalanced s acc i own st (Reach-IsBalanced r)
Reach-IsBalanced (refuses s acc i ret err own st r) =
    refuse_IsBalanced s acc i ret err own st (Reach-IsBalanced r)
Reach-IsBalanced (finishes s acc w status actual bytes on st r) =
    let b = Reach-IsBalanced r in
    quiet (finish_IsUrbs s b.urbs w status actual bytes on st)
      (finish_completed s w status actual bytes)
      (λ j. finish_flight s b.urbs w j status actual bytes st) b
Reach-IsBalanced (works s acc pipe_in w ws e r) =
    work_IsBalanced s acc pipe_in w ws e (Reach-IsBalanced r)
Reach-IsBalanced (cancels s acc i ret set r) =
    let b = Reach-IsBalanced r in
    quiet (cancel_IsUrbs s b.urbs i ret) (cancel_completed s i ret)
      (λ j. cancel_flight s b.urbs i j ret) b

active_cases :
    (st : UrbState)
    → is_active st ≡ true
    → is_completed st ≡ false
    → (st ≡ allocated) ⊎ (st ≡ submitted)
active_cases allocated h k = inl refl
active_cases submitted h k = inr refl
active_cases st h k = ground arith

-- As long as kill_all_urbs does not run, and each function of the schedule is one step, whatever the
-- order of the drivers, Linux and the worker, however requests are cancelled, and whichever allocations
-- and submissions fail: the worker has completed an IRP as often as Linux accepted it, but once less
-- just while Linux or the worker has its urb. IRPs that were refused, which pdoDispatchDeviceControl
-- completes, are not counted.
pub requests_complete_once :
    {s : Urbs} {acc : List ℕ}
    → Reach s acc
    → (i : ℕ) → times i acc ≡ times i s.completed_irps + (if in_flight s i then 1 else 0)
requests_complete_once r i = (Reach-IsBalanced r).once i

-- As long as kill_all_urbs does not run, and each function of the schedule is one step, so that
-- wrap_free_urb and the cancelling of its IRP do not overlap: whenever the cancel routine of an IRP is set, the IRP has a wrap_urb of the device's list, which
-- names the IRP and which Linux has not finished; so wrap_cancel_irp finds the right urb.
pub cancel_finds_urb :
    {s : Urbs} {acc : List ℕ}
    → Reach s acc
    → (i : ℕ) → (s.irps i).cancel_routine ≡ true
    → let w = (s.irps i).wrap_urb in
      (has w s.wrap_urb_list ≡ true)
      × ((s.urbs w).irp ≡ i)
      × (((s.urbs w).state ≡ allocated) ⊎ ((s.urbs w).state ≡ submitted))
cancel_finds_urb {s} r i set =
    let u = (Reach-IsBalanced r).urbs in
    let (own, open_urb) = u.cancelled i set in
    (
      u.listed i own,
      u.back i own,
      active_cases (s.urbs (s.irps i).wrap_urb).state (u.active i own) open_urb,
    )
