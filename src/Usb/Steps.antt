-- ===== src/Usb/Steps.antt =====
-- driver/usb.c: each part of the life of an urb keeps the order of IRPs and wrap_urbs.
use ndiswrapper.Base.{
  ℕ, ◌≡◌, ◌≢◌, refl, sym, ◌∙◌, Bool, true, false, ◌&&◌, List, [], ◌∷◌, arith, has, erase, ℤ, pos,
  eqb_ℤ, subst,
}
use ndiswrapper.Usb.{
  allocated, submitted, Urbs, UsbIrp, WrapUrb, attach_buffer, wrap_free_urb, wrap_submit_urb,
  wrap_urb_complete, finish_irp, complete_one, wrap_cancel_irp, set_irp, set_urb, wrap_cancel_urb,
}
use ndiswrapper.Usb.Invariant.{
  IsUrbs, is_active, is_completed, free_IsUrbs, complete_IsUrbs, frame_IsUrbs,
}

-- What Linux writes into an urb that it has finished.
abbrev pub answered : Urbs → ℕ → ℤ → ℕ → List ℕ → Urbs
answered s w status actual bytes =
    set_urb s w
      (record (s.urbs w) { status = status; actual_length = actual; transfer_buffer = bytes })

-- IoCancelIrp takes the cancel routine of an IRP off before it calls it.
abbrev pub cancelling : Urbs → ℕ → Urbs
cancelling s i = set_irp s i (record (s.irps i) { cancel = true; cancel_routine = false })

erase_absent : (a : ℕ) (xs : List ℕ) → has a xs ≡ false → erase a xs ≡ xs
erase_absent a [] h = refl
erase_absent a (x ∷ xs) h = ground (arith, erase_absent a xs)

pub finish_keeps :
    (pipe_in : Bool) (u : WrapUrb) (r : UsbIrp)
    → ((finish_irp pipe_in u r).wrap_urb ≡ r.wrap_urb)
      × ((finish_irp pipe_in u r).cancel_routine ≡ r.cancel_routine)
unfolding finish_irp
finish_keeps pipe_in u r = ground arith

module _ (s : Urbs) (u : IsUrbs s) where
  -- A wrap_urb that is not on the worker's list is freed.
  pub drop_IsUrbs :
      (w : ℕ)
      → has w s.wrap_urb_list ≡ true
      → is_active (s.urbs w).state ≡ true
      → is_completed (s.urbs w).state ≡ false
      → IsUrbs (wrap_free_urb s w)
  drop_IsUrbs w on act un =
      let off : has w s.complete_list ≡ false = u.queue w ∙ rw un (ground arith) in
      subst (λ l. IsUrbs (wrap_free_urb (record s { complete_list = l }) w))
        (erase_absent w s.complete_list off) (free_IsUrbs s u w on act)

  pub attach_IsUrbs :
      (i : ℕ) (pipe_out dma : Bool)
      → (s.irps i).wrap_urb ≢ 0
      → (s.urbs (s.irps i).wrap_urb).state ≡ allocated
      → IsUrbs (attach_buffer s i pipe_out dma).0
  unfolding attach_buffer
  attach_IsUrbs i pipe_out dma has_urb st = record {
    distinct = ground (arith, u.distinct);
    count = ground (arith, u.count);
    real = ground (arith, u.real);
    listed = λ j. ground (arith, u.listed j);
    active = λ j. ground (arith, u.active j, u.back j, u.back i);
    back = λ j. ground (arith, u.back j, u.back i);
    owned = λ v. ground (arith, u.owned v, u.back i);
    queue = λ v. ground (arith, u.queue v);
    queue_distinct = ground (arith, u.queue_distinct);
    cancelled = λ j. ground (arith, u.cancelled j, u.back j, u.back i);
  }

  pub finish_IsUrbs :
      (w : ℕ) (status : ℤ) (actual : ℕ) (bytes : List ℕ)
      → has w s.wrap_urb_list ≡ true
      → (s.urbs w).state ≡ submitted
      → IsUrbs (wrap_urb_complete (answered s w status actual bytes) w)
  finish_IsUrbs w status actual bytes on st =
      complete_IsUrbs (answered s w status actual bytes)
        (frame_IsUrbs s u (answered s w status actual bytes) refl refl refl (λ i. refl) (λ i. refl)
          (λ v. ground arith) (λ v. ground arith) (λ v. ground arith))
        w on (ground (arith, st))

  pub submit_IsUrbs :
      (i : ℕ)
      → (s.irps i).wrap_urb ≢ 0
      → (s.urbs (s.irps i).wrap_urb).state ≡ allocated
      → IsUrbs (wrap_submit_urb s i (pos 0)).0
  unfolding wrap_submit_urb
  submit_IsUrbs i own st =
      frame_IsUrbs s u (wrap_submit_urb s i (pos 0)).0 refl refl refl (λ j. ground arith)
        (λ j. ground arith) (λ v. ground arith) (λ v. ground (arith, st)) (λ v. ground (arith, st))

  pub cancel_IsUrbs : (i : ℕ) (ret : ℤ) → IsUrbs (wrap_cancel_irp (cancelling s i) i ret)
  unfolding wrap_cancel_irp wrap_cancel_urb
  cancel_IsUrbs i ret = record {
    distinct = ground (arith, u.distinct);
    count = ground (arith, u.count);
    real = ground (arith, u.real);
    listed = λ j. ground (arith, u.listed j);
    active = λ j. ground (arith, u.active j);
    back = λ j. ground (arith, u.back j);
    owned = λ v. ground (arith, u.owned v);
    queue = λ v. ground (arith, u.queue v);
    queue_distinct = ground (arith, u.queue_distinct);
    cancelled = λ j. ground (arith, u.cancelled j);
  }

  pub work_IsUrbs :
      (pipe_in : ℕ → Bool) (w : ℕ) (ws : List ℕ)
      → s.complete_list ≡ w ∷ ws
      → IsUrbs (complete_one pipe_in (record s { complete_list = ws }) w)
  unfolding complete_one
  work_IsUrbs pipe_in w ws e =
      let v = s.urbs w in
      let r = finish_irp (pipe_in v.pipe) v (s.irps v.irp) in
      let t = set_irp s v.irp r in
      let (own, cancel) = finish_keeps (pipe_in v.pipe) v (s.irps v.irp) in
      let waits : has w s.complete_list ≡ true = rw e (ground arith) in
      let here : (has w s.wrap_urb_list && is_completed (s.urbs w).state) ≡ true =
        sym (u.queue w) ∙ waits in
      let done : IsUrbs t =
        frame_IsUrbs s u t refl refl refl (λ j. ground (arith, own)) (λ j. ground (arith, cancel))
          (λ x. refl) (λ x. refl) (λ x. refl) in
      let rest : erase w s.complete_list ≡ ws = rw e (ground arith) in
      let freed : IsUrbs (wrap_free_urb (record t { complete_list = ws }) w) =
        subst (λ l. IsUrbs (wrap_free_urb (record t { complete_list = l }) w)) rest
          (free_IsUrbs t done w (ground (arith, here)) (ground (arith, here))) in
      frame_IsUrbs (wrap_free_urb (record t { complete_list = ws }) w) freed
        (complete_one pipe_in (record s { complete_list = ws }) w) refl refl refl (λ j. refl)
        (λ j. refl) (λ x. refl) (λ x. refl) (λ x. refl)

pub refuse_IsUrbs :
    (s : Urbs) (u : IsUrbs s) (i : ℕ) (ret : ℤ)
    → eqb_ℤ ret (pos 0) ≡ false
    → (s.irps i).wrap_urb ≢ 0
    → (s.urbs (s.irps i).wrap_urb).state ≡ allocated
    → IsUrbs (wrap_submit_urb s i ret).0
unfolding wrap_submit_urb
refuse_IsUrbs s u i ret err own st =
    let w = (s.irps i).wrap_urb in
    let t = (wrap_submit_urb s i (pos 0)).0 in
    let failed : IsUrbs (wrap_free_urb t w) =
      drop_IsUrbs t (submit_IsUrbs s u i own st) w (u.listed i own) (ground arith) (ground arith) in
    rw err (
      frame_IsUrbs (wrap_free_urb t w) failed _ refl refl refl (λ j. ground arith)
        (λ j. ground arith) (λ x. refl) (λ x. refl) (λ x. refl))
