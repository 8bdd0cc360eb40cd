-- ===== src/Usb/Flight.antt =====
-- driver/usb.c: how each part of the life of an urb changes which IRPs are in flight and completed.
use ndiswrapper.Base.{
  ℕ, ◌≡◌, ◌≢◌, refl, sym, ◌∙◌, Bool, true, false, ◌&&◌, List, [], ◌∷◌, ◌++◌, arith, ◌==◌,
  if◌then◌else◌, has, ℤ, pos, eqb_ℤ,
}
use ndiswrapper.Usb.{
  allocated, submitted, Urbs, take_urb, attach_buffer, wrap_free_urb, wrap_submit_urb,
  wrap_urb_complete, finish_irp, complete_one, wrap_cancel_irp, set_irp, wrap_cancel_urb,
}
use ndiswrapper.Usb.Invariant.{find_free-free, IsUrbs, is_active, is_completed}
use ndiswrapper.Usb.Steps.{finish_keeps, answered, cancelling, submit_IsUrbs}
use ndiswrapper.Usb.Schedule.{in_flight}

-- An IRP of no or of a free wrap_urb is not in flight, so taking a wrap_urb changes nothing.
module _ (s : Urbs) (u : IsUrbs s) where
  pub take_flight :
      (i fresh j : ℕ)
      → (s.irps i).wrap_urb ≡ 0
      → has fresh s.wrap_urb_list ≡ false
      → in_flight (take_urb s i fresh).0 j ≡ in_flight s j
  unfolding take_urb
  take_flight i fresh j idle off =
      ground (arith, u.active j, u.listed j, find_free-free s.urbs s.wrap_urb_list)

  pub attach_flight :
      (i j : ℕ) (pipe_out dma : Bool)
      → (s.irps i).wrap_urb ≢ 0
      → (s.urbs (s.irps i).wrap_urb).state ≡ allocated
      → in_flight (attach_buffer s i pipe_out dma).0 j ≡ in_flight s j
  unfolding attach_buffer
  attach_flight i j pipe_out dma own st = ground (arith, u.back i, u.back j)

  pub free_flight :
      (w j : ℕ)
      → has w s.wrap_urb_list ≡ true
      → is_active (s.urbs w).state ≡ true
      → in_flight (wrap_free_urb s w) j ≡ (if (s.urbs w).irp == j then false else in_flight s j)
  unfolding wrap_free_urb
  free_flight w j on act = ground (arith, u.back j, u.owned w)

  pub accept_flight :
      (i j : ℕ)
      → (s.irps i).wrap_urb ≢ 0
      → (s.urbs (s.irps i).wrap_urb).state ≡ allocated
      → (in_flight (wrap_submit_urb s i (pos 0)).0 j ≡ (if i == j then true else in_flight s j))
        × (in_flight s i ≡ false)
  unfolding wrap_submit_urb
  accept_flight i j own st = ground (arith, u.back i, u.back j)

  pub finish_flight :
      (w j : ℕ) (status : ℤ) (actual : ℕ) (bytes : List ℕ)
      → (s.urbs w).state ≡ submitted
      → in_flight (wrap_urb_complete (answered s w status actual bytes) w) j ≡ in_flight s j
  unfolding wrap_urb_complete
  finish_flight w j status actual bytes st = ground (arith, st)

  pub cancel_flight :
      (i j : ℕ) (ret : ℤ) → in_flight (wrap_cancel_irp (cancelling s i) i ret) j ≡ in_flight s j
  unfolding wrap_cancel_irp wrap_cancel_urb
  cancel_flight i j ret = ground arith

pub take_completed :
    (s : Urbs) (i fresh : ℕ) → (take_urb s i fresh).0.completed_irps ≡ s.completed_irps
unfolding take_urb
take_completed s i fresh = ground arith

pub attach_completed :
    (s : Urbs) (i : ℕ) (pipe_out dma : Bool)
    → (attach_buffer s i pipe_out dma).0.completed_irps ≡ s.completed_irps
unfolding attach_buffer
attach_completed s i pipe_out dma = ground arith

pub free_completed : (s : Urbs) (w : ℕ) → (wrap_free_urb s w).completed_irps ≡ s.completed_irps
unfolding wrap_free_urb
free_completed s w = ground arith

pub cancel_completed :
    (s : Urbs) (i : ℕ) (ret : ℤ)
    → (wrap_cancel_irp (cancelling s i) i ret).completed_irps ≡ s.completed_irps
unfolding wrap_cancel_irp wrap_cancel_urb
cancel_completed s i ret = ground arith

pub submit_completed :
    (s : Urbs) (i : ℕ) → (wrap_submit_urb s i (pos 0)).0.completed_irps ≡ s.completed_irps
unfolding wrap_submit_urb
submit_completed s i = refl

pub refuse_completed :
    (s : Urbs) (i : ℕ) (ret : ℤ) → (wrap_submit_urb s i ret).0.completed_irps ≡ s.completed_irps
unfolding wrap_submit_urb wrap_free_urb
refuse_completed s i ret = ground arith

pub refuse_flight :
    (s : Urbs) (u : IsUrbs s) (i j : ℕ) (ret : ℤ)
    → eqb_ℤ ret (pos 0) ≡ false
    → (s.irps i).wrap_urb ≢ 0
    → (s.urbs (s.irps i).wrap_urb).state ≡ allocated
    → in_flight (wrap_submit_urb s i ret).0 j ≡ in_flight s j
unfolding wrap_submit_urb
refuse_flight s u i j ret err own st =
    let w = (s.irps i).wrap_urb in
    let t = (wrap_submit_urb s i (pos 0)).0 in
    let v : IsUrbs t = submit_IsUrbs s u i own st in
    let freed = free_flight t v w j (u.listed i own) (ground arith) in
    let (sent, before) = accept_flight s u i j own st in
    let after : in_flight (wrap_submit_urb s i ret).0 j ≡ in_flight (wrap_free_urb t w) j =
      rw err (ground arith) in
    after ∙ ground (arith, freed, sent, before, u.back i own)

pub work_completed :
    (s : Urbs) (pipe_in : ℕ → Bool) (w : ℕ) (ws : List ℕ)
    → (complete_one pipe_in (record s { complete_list = ws }) w).completed_irps
      ≡ s.completed_irps ++ (s.urbs w).irp ∷ []
unfolding complete_one
work_completed s pipe_in w ws = ground (
  arith,
  free_completed
      (set_irp (record s { complete_list = ws }) (s.urbs w).irp
        (finish_irp (pipe_in (s.urbs w).pipe) (s.urbs w) (s.irps (s.urbs w).irp)))
      w,
)

-- The IRP of the worker's first entry is in flight, and afterwards it is not.
pub work_flight :
    (s : Urbs) (u : IsUrbs s) (pipe_in : ℕ → Bool) (w : ℕ) (ws : List ℕ) (j : ℕ)
    → s.complete_list ≡ w ∷ ws
    → (in_flight (complete_one pipe_in (record s { complete_list = ws }) w) j
        ≡ (if (s.urbs w).irp == j then false else in_flight s j))
      × (in_flight s (s.urbs w).irp ≡ true)
unfolding complete_one wrap_free_urb
work_flight s u pipe_in w ws j e =
    let waits : has w s.complete_list ≡ true = rw e (ground arith) in
    let here : (has w s.wrap_urb_list && is_completed (s.urbs w).state) ≡ true =
      sym (u.queue w) ∙ waits in
    let keeps = finish_keeps (pipe_in (s.urbs w).pipe) (s.urbs w) (s.irps (s.urbs w).irp) in
    (ground (arith, here, keeps, u.owned w, u.back j), ground (arith, here, u.owned w, u.real))

pub finish_completed :
    (s : Urbs) (w : ℕ) (status : ℤ) (actual : ℕ) (bytes : List ℕ)
    → (wrap_urb_complete (answered s w status actual bytes) w).completed_irps ≡ s.completed_irps
unfolding wrap_urb_complete
finish_completed s w status actual bytes = refl
