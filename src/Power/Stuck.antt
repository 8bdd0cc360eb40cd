-- ===== src/Power/Stuck.antt =====
-- driver/wrapndis.c: where the power states of a device leave a mutex locked.
use ndiswrapper.Base.{
  ℕ, ◌≡◌, ◌≢◌, refl, ap, ◌∙◌, Bool, true, false, none, some, [], ◌∷◌, ◌++◌, ◌==◌, if◌then◌else◌,
  ◌>>=◌, arith, Bool-cases, inl, inr,
}
use ndiswrapper.Power.{
  Miniport, Device, sets, mp_set, mp_halt, halt_disassociate, lock_req, lock_tx, hangcheck_del,
  del_iw_stats_timer,
}
use ndiswrapper.Power.State.{
  woken, power_up, power_down, ask_suspend, finish_down, stopped, halt_instead, mp_set_power_state,
  ndis_reinit, wake_suspended,
}

-- mp_halt leaves the mutex locked behind a wireless PCI device, whether or not it was locked before.
halt_blocks :
    (m : Miniport) (d : Device) (status : ℕ)
    → d.initialized ≡ true
    → d.wireless ≡ true
    → d.pci ≡ true
    → (status == 0) ≡ false
    → finish_down m (d, status) ≡ none
unfolding finish_down halt_instead mp_halt halt_disassociate lock_req mp_set hangcheck_del
    del_iw_stats_timer
halt_blocks m d status i w p f = ground (arith, i, w, p, f)

-- Where the ring is free, the rest runs on the device that is stopped.
pub down_open :
    (m : Miniport) (d : Device) (state : ℕ)
    → d.tx_mutex ≡ false
    → power_down m d state
      ≡ (ask_suspend m (stopped (record d { tx_mutex = true })) state >>= finish_down m)
unfolding power_down lock_tx
down_open m d state t =
    ap
      (λ b. (if b then none else some (record d { tx_mutex = true })) >>= λ e.
        (ask_suspend m (stopped e) state >>= finish_down m))
      t

down_locked :
    (m : Miniport) (d : Device) (state : ℕ) → d.tx_mutex ≡ true → power_down m d state ≡ none
unfolding power_down lock_tx
down_locked m d state t =
    ap
      (λ b. (if b then none else some (record d { tx_mutex = true })) >>= λ e.
        (ask_suspend m (stopped e) state >>= finish_down m))
      t

pub ask_no :
    (m : Miniport) (d : Device) (state : ℕ)
    → d.no_halt ≡ false
    → ask_suspend m d state ≡ some (d, 0xC00000BB)
unfolding ask_suspend
ask_no m d state n = ground (arith, n)

pub stopped_lem :
    (d : Device)
    → ((stopped d).initialized ≡ d.initialized)
      × ((stopped d).wireless ≡ d.wireless)
      × ((stopped d).pci ≡ d.pci)
      × ((stopped d).no_halt ≡ d.no_halt)
unfolding stopped hangcheck_del del_iw_stats_timer
stopped_lem d = ground arith

-- A wireless PCI device is initialised, and its driver cannot suspend. Then mp_set_power_state for any
-- state but D0 does not return: either the ring's mutex is locked before, or it waits for the mutex of
-- requests, which mp_halt has locked.
pub halting_wireless_blocks :
    (m : Miniport) (memory : Bool) (d : Device) (state : ℕ)
    → d.initialized ≡ true
    → d.wireless ≡ true
    → d.pci ≡ true
    → d.no_halt ≡ false
    → state ≢ 1
    → mp_set_power_state m memory d state ≡ none
unfolding mp_set_power_state
halting_wireless_blocks m memory d state i w p n s =
    let other : (state == 1) ≡ false = ground (arith, s) in
    rw other (elim (Bool-cases d.tx_mutex) [
      | inl locked ↦ down_locked m d state locked
      | inr free ↦
          let e = stopped (record d { tx_mutex = true }) in
          let (i', w', p', n') = stopped_lem (record d { tx_mutex = true }) in
          down_open m d state free
          ∙ ap (λ o. o >>= finish_down m) (ask_no m e state (n' ∙ n))
          ∙ halt_blocks m e 0xC00000BB (i' ∙ i) (w' ∙ w) (p' ∙ p) refl
    ])

-- ndis_reinit, which sets a new hardware address, never returns for such a device, whatever its driver
-- can do.
reinit_wireless_blocks :
    (m : Miniport) (memory : Bool) (d : Device)
    → d.initialized ≡ true
    → d.wireless ≡ true
    → d.pci ≡ true
    → ndis_reinit m memory d ≡ none
unfolding ndis_reinit
reinit_wireless_blocks m memory d i w p =
    let blocks =
      halting_wireless_blocks m memory (record d { no_halt = false }) 4 i w p refl
        (λ e. omega arith) in
    rw blocks refl

-- The driver refuses to resume a device that was suspended. Then the ring's mutex stays locked, the
-- device counts as neither suspended nor halted, a second try to resume fails without a call of the
-- driver, and no attempt to suspend the device returns any more.
pub failed_resume_sticks :
    (m : Miniport) (memory : Bool) (d : Device)
    → d.tx_mutex ≡ true
    → d.suspended ≡ true
    → d.halted ≡ false
    → m.set d.calls 0xFD010101 1 ≢ 0
    → (e : Device) × (mp_set_power_state m memory d 1 ≡ some (e, m.set d.calls 0xFD010101 1))
      × (mp_set_power_state m memory e 1 ≡ some (record e { req_mutex = false }, 0xC0000001))
      × ((state : ℕ) → state ≢ 1 → mp_set_power_state m memory e state ≡ none)
unfolding mp_set_power_state power_up wake_suspended woken mp_set
failed_resume_sticks m memory d t s h refused =
    let e : Device = record d {
      req_mutex = false;
      suspended = false;
      calls = d.calls ++ sets 0xFD010101 1 ∷ [];
      wake_enabled = if d.pci then false else d.wake_enabled;
    } in
    (
      e,
      ground (arith, s, h, refused),
      ground (arith, h),
      λ state n.
          let other : (state == 1) ≡ false = ground (arith, n) in
          rw other (down_locked m e state t),
    )
