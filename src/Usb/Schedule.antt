-- ===== src/Usb/Schedule.antt =====
-- driver/usb.c: the schedules of the parts of the life of urbs. kill_all_urbs, which runs where the device
-- is removed or loses its configuration, is not one of them, and the completion of refused IRPs (pnp.c)
-- is not shown.
use ndiswrapper.Base.{
  ℕ, ◌≡◌, ◌≢◌, Bool, true, false, ◌&&◌, not, List, [], ◌∷◌, ◌++◌, ◌==◌, has, ℤ, pos, eqb_ℤ,
}
use ndiswrapper.Usb.{
  UrbState, allocated, submitted, completed, Urbs, take_urb, attach_buffer, wrap_free_urb,
  wrap_submit_urb, wrap_urb_complete, complete_one, wrap_cancel_irp,
}
use ndiswrapper.Usb.Steps.{answered, cancelling}

-- The states of a device's urbs, with the IRPs that Linux has accepted, in order. An IRP that owns a
-- wrap_urb is not submitted again, kmalloc gives NULL or memory that is not in use, an urb that was
-- taken is given a buffer, dropped or submitted, Linux finishes urbs that were submitted, and the
-- cancel routine is called while it is set. Each function is one step, though wrap_free_urb clears the
-- cancel routine without the lock.
pub data Reach : Urbs → List ℕ → Type 0 where
  starts :
      (s : Urbs)
      → s.wrap_urb_list ≡ []
      → s.complete_list ≡ []
      → s.completed_irps ≡ []
      → s.num_alloc_urbs ≡ 0
      → ((i : ℕ) → ((s.irps i).wrap_urb ≡ 0) × ((s.irps i).cancel_routine ≡ false))
      → Reach s []
  takes :
      (s : Urbs) (acc : List ℕ) (i fresh : ℕ)
      → (s.irps i).wrap_urb ≡ 0
      → has fresh s.wrap_urb_list ≡ false
      → Reach s acc
      → Reach (take_urb s i fresh).0 acc
  attaches :
      (s : Urbs) (acc : List ℕ) (i : ℕ) (pipe_out dma : Bool)
      → (s.irps i).wrap_urb ≢ 0
      → (s.urbs (s.irps i).wrap_urb).state ≡ allocated
      → Reach s acc
      → Reach (attach_buffer s i pipe_out dma).0 acc
  drops :
      (s : Urbs) (acc : List ℕ) (w : ℕ)
      → has w s.wrap_urb_list ≡ true
      → (s.urbs w).state ≡ allocated
      → Reach s acc
      → Reach (wrap_free_urb s w) acc
  accepts :
      (s : Urbs) (acc : List ℕ) (i : ℕ)
      → (s.irps i).wrap_urb ≢ 0
      → (s.urbs (s.irps i).wrap_urb).state ≡ allocated
      → Reach s acc
      → Reach (wrap_submit_urb s i (pos 0)).0 (acc ++ i ∷ [])
  refuses :
      (s : Urbs) (acc : List ℕ) (i : ℕ) (ret : ℤ)
      → eqb_ℤ ret (pos 0) ≡ false
      → (s.irps i).wrap_urb ≢ 0
      → (s.urbs (s.irps i).wrap_urb).state ≡ allocated
      → Reach s acc
      → Reach (wrap_submit_urb s i ret).0 acc
  finishes :
      (s : Urbs) (acc : List ℕ) (w : ℕ) (status : ℤ) (actual : ℕ) (bytes : List ℕ)
      → has w s.wrap_urb_list ≡ true
      → (s.urbs w).state ≡ submitted
      → Reach s acc
      → Reach (wrap_urb_complete (answered s w status actual bytes) w) acc
  works :
      (s : Urbs) (acc : List ℕ) (pipe_in : ℕ → Bool) (w : ℕ) (ws : List ℕ)
      → s.complete_list ≡ w ∷ ws
      → Reach s acc
      → Reach (complete_one pipe_in (record s { complete_list = ws }) w) acc
  cancels :
      (s : Urbs) (acc : List ℕ) (i : ℕ) (ret : ℤ)
      → (s.irps i).cancel_routine ≡ true
      → Reach s acc
      → Reach (wrap_cancel_irp (cancelling s i) i ret) acc

-- Linux has the urb of the IRP, or has finished it and the worker has not seen it.
abbrev pub is_sent : UrbState → Bool
is_sent submitted = true
is_sent completed = true
is_sent _ = false

abbrev pub in_flight : Urbs → ℕ → Bool
in_flight s i = not ((s.irps i).wrap_urb == 0) && is_sent (s.urbs (s.irps i).wrap_urb).state
