-- ===== src/Dispatcher/Counting.antt =====
-- driver/ntoskernel.c: how many waiters a signalled event or semaphore wakes, and in what order.
use ndiswrapper.Base.{
  ℕ, zero, suc, ◌-◌, ◌≡◌, refl, ◌⊎◌, true, false, List, [], ◌∷◌, ◌++◌, map, arith, length, take,
  drop, ℤ, pos, ◌∙◌, ap, sym,
}
use mathlib.Core.List.{append_assoc, append-nil}
use ndiswrapper.Dispatcher.{
  DhType, synchronization_object, semaphore_object, Object, Kernel, grab_object, remove_entry,
  accept, offer, signal_loop, object_signaled, set_state,
}

-- Each wait that is satisfied takes one from the signal state.
abbrev pub IsCounting : DhType → Type 0
IsCounting d = (d ≡ synchronization_object) ⊎ (d ≡ semaphore_object)

-- `k'` is `k` after the object `dh`, whose wait list was `ws` and whose signal state was `n`, woke
-- its first `n` waiters in order; `th` names the thread of each wait block.
pub record Wakes (th : ℕ → ℕ) (k : Kernel) (dh : ℕ) (ws : List ℕ) (n : ℕ) (k' : Kernel)
    : Type 0 where
  pub state : (k'.objects dh).signal_state ≡ pos (n - length ws)
  pub waiting : (k'.objects dh).wait_blocks ≡ drop n ws
  pub woken : k'.woken ≡ k.woken ++ map th (take n ws)
  pub intact : k'.corrupt ≡ k.corrupt

module _ (o : Object) (t : ℕ) (c : IsCounting o.kind) where
  grab_none : o.signal_state ≡ pos 0 → (grab_object o t true).1 ≡ false
  unfolding grab_object
  grab_none e = ground arith

  pub grab_one :
      (n : ℕ)
      → o.signal_state ≡ pos (suc n)
      → grab_object o t true ≡ (record o { signal_state = pos n }, true)
  unfolding grab_object
  grab_one n e = ground arith

module _ (k : Kernel) (dh b : ℕ) (bs : List ℕ) (o : Object) (w : o.wait_blocks ≡ b ∷ bs) where
  pub accept_object : (accept k dh b o).objects dh ≡ record o { wait_blocks = bs }
  unfolding accept remove_entry
  accept_object = ground arith

  pub accept_intact : (accept k dh b o).corrupt ≡ k.corrupt
  unfolding accept remove_entry
  accept_intact = ground arith

  pub accept_woken : (accept k dh b o).woken ≡ k.woken ++ (k.blocks b).thread ∷ []
  unfolding accept remove_entry
  accept_woken = refl

pub accept_thread :
    (k : Kernel) (dh b : ℕ) (o : Object) (x : ℕ)
    → ((accept k dh b o).blocks x).thread ≡ (k.blocks x).thread
unfolding accept remove_entry
accept_thread k dh b o x = ground arith

module _ (dh : ℕ) where
  -- An object with nothing left wakes nobody.
  pub signal_loop_unsignaled :
      (bs : List ℕ) (k : Kernel)
      → IsCounting (k.objects dh).kind
      → (k.objects dh).signal_state ≡ pos 0
      → signal_loop k dh bs ≡ k
  unfolding signal_loop offer
  signal_loop_unsignaled [] k c e = refl
  signal_loop_unsignaled (b ∷ bs) k c e =
      rw (grab_none (k.objects dh) (k.blocks b).thread c e) (signal_loop_unsignaled bs k c e)

module _ (dh : ℕ) (th : ℕ → ℕ) where
  loop_Wakes :
      (bs : List ℕ) (k : Kernel) (n : ℕ)
      → IsCounting (k.objects dh).kind
      → (k.objects dh).signal_state ≡ pos n
      → (k.objects dh).wait_blocks ≡ bs
      → ((b : ℕ) → (k.blocks b).thread ≡ th b)
      → Wakes th k dh bs n (signal_loop k dh bs)
  unfolding signal_loop offer
  loop_Wakes [] k zero c e w t = record {
    state = e ∙ ap pos (omega arith);
    waiting = w;
    woken = sym (append-nil k.woken);
    intact = refl;
  }
  loop_Wakes [] k (suc n) c e w t = record {
    state = e ∙ ap pos (omega arith);
    waiting = w;
    woken = sym (append-nil k.woken);
    intact = refl;
  }
  loop_Wakes (b ∷ bs) k zero c e w t =
      rw (grab_none (k.objects dh) (k.blocks b).thread c e, signal_loop_unsignaled dh bs k c e)
        (record {
          state = e ∙ ap pos (omega arith);
          waiting = w;
          woken = sym (append-nil k.woken);
          intact = refl;
        })
  loop_Wakes (b ∷ bs) k (suc n) c e w t =
      let o : Object = record (k.objects dh) { signal_state = pos n } in
      let k' : Kernel = accept k dh b o in
      let obj : k'.objects dh ≡ record o { wait_blocks = bs } = accept_object k dh b bs o w in
      let rest : Wakes th k' dh bs n (signal_loop k' dh bs) =
        loop_Wakes bs k' n (rw obj c) (rw obj) (rw obj) (λ x. accept_thread k dh b o x ∙ t x) in
      rw (grab_one (k.objects dh) (k.blocks b).thread c n e) (record {
        state = rest.state ∙ ap pos (omega arith);
        waiting = rest.waiting;
        woken =
            rest.woken
            ∙ rw (accept_woken k dh b bs o w, t b)
                (append_assoc k.woken (th b ∷ []) (map th (take n bs)));
        intact = rest.intact ∙ accept_intact k dh b bs o w;
      })

-- Signalling a synchronization event or a semaphore whose state is `n` wakes exactly the first `n`
-- threads that wait for it, in the order in which they queued, takes one from the state for each of
-- them, leaves the rest of the queue as it was, and unlinks no wait block twice.
pub object_signaled-Wakes :
    (k : Kernel) (dh n : ℕ)
    → IsCounting (k.objects dh).kind
    → (k.objects dh).signal_state ≡ pos n
    → Wakes (λ b. (k.blocks b).thread) k dh (k.objects dh).wait_blocks n (object_signaled k dh)
unfolding object_signaled
object_signaled-Wakes k dh n c e =
    loop_Wakes dh (λ b. (k.blocks b).thread) (k.objects dh).wait_blocks k n c e refl (λ b. refl)

-- The same for the kernel in which the state has just been set.
pub set_state_at :
    (k : Kernel) (dh : ℕ) (v : ℤ)
    → (set_state k dh v).objects dh ≡ record (k.objects dh) { signal_state = v }
set_state_at k dh v = ground arith

pub raise_Wakes :
    (k : Kernel) (dh n : ℕ)
    → IsCounting (k.objects dh).kind
    → Wakes
        (λ b. (k.blocks b).thread)
        k
        dh
        (k.objects dh).wait_blocks
        n
        (object_signaled (set_state k dh (pos n)) dh)
unfolding object_signaled
raise_Wakes k dh n c =
    let k' : Kernel = set_state k dh (pos n) in
    let obj = set_state_at k dh (pos n) in
    let w =
      loop_Wakes dh (λ b. (k.blocks b).thread) (k.objects dh).wait_blocks k' n (rw obj c) (rw obj)
        (rw obj) (λ b. refl) in
    rw obj (record { state = w.state; waiting = w.waiting; woken = w.woken; intact = w.intact })
