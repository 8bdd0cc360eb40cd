-- ===== src/Dispatcher/Events.antt =====
-- driver/ntoskernel.c: what KeSetEvent and KeReleaseSemaphore promise, from what signalling does.
use mathlib.Core.List.{append_assoc, append-nil}
use ndiswrapper.Base.{
  ℕ, zero, suc, ◌+◌, ◌-◌, ◌≤◌, ◌<◌, ◌^◌, ◌≡◌, refl, sym, ap, ◌∙◌, ◌⊎◌, inl, inr, true, List, [],
  ◌∷◌, ◌++◌, map, arith, length, drop, min, pos, ltb_ℤ, if◌then◌else◌, Bool-cases,
}
use ndiswrapper.Dispatcher.{
  notification_object, synchronization_object, semaphore_object, Object, Kernel, grab_object,
  accept, offer, signal_loop, object_signaled, set_state, raised_state, ke_set_event,
  ke_release_semaphore,
}
use ndiswrapper.Dispatcher.Counting.{
  IsCounting, Wakes, raise_Wakes, set_state_at, accept_object, accept_intact, accept_woken,
  accept_thread,
}

-- Nobody waits for an object that could be taken.
abbrev pub IsServed : Kernel → ℕ → Type 0
IsServed k dh = ((k.objects dh).signal_state ≡ pos 0) ⊎ ((k.objects dh).wait_blocks ≡ [])

drop_all : (n : ℕ) (ws : List ℕ) → length ws ≤ n → drop n ws ≡ []
drop_all zero [] h = refl
drop_all zero (w ∷ ws) h = absurd (omega arith)
drop_all (suc n) [] h = refl
drop_all (suc n) (w ∷ ws) h = drop_all n ws (omega arith)

served_cases : (n : ℕ) (ws : List ℕ) → (n - length ws ≡ 0) ⊎ (length ws ≤ n)
served_cases n ws = omega arith

Wakes-IsServed :
    {th : ℕ → ℕ} {k k' : Kernel} {dh n : ℕ} {ws : List ℕ} → Wakes th k dh ws n k' → IsServed k' dh
Wakes-IsServed {n} {ws} w = elim (served_cases n ws) [
  | inl none_left ↦ inl (w.state ∙ ap pos none_left)
  | inr all_woken ↦ inr (w.waiting ∙ drop_all n ws all_woken)
]

-- KeSetEvent on an unsignalled synchronization event wakes the thread that waits longest and leaves
-- the event unsignalled; if nobody waits, it wakes nobody and leaves the event signalled. It returns
-- the old state.
pub set_synchronization_event :
    (k : Kernel) (event : ℕ)
    → (k.objects event).kind ≡ synchronization_object
    → (k.objects event).signal_state ≡ pos 0
    → Wakes
        (λ b. (k.blocks b).thread)
        k
        event
        (k.objects event).wait_blocks
        1
        (ke_set_event k event).0
      × ((ke_set_event k event).1 ≡ pos 0)
unfolding ke_set_event
set_synchronization_event k event c e = rw e (raise_Wakes k event 1 (inl c), refl)

raised_state-min :
    (o : Object) (count limit adjustment : ℕ)
    → o.signal_state ≡ pos count
    → o.limit ≡ pos limit
    → count + adjustment < 2 ^ 31
    → raised_state o (pos adjustment) ≡ pos (min (count + adjustment) limit)
unfolding raised_state
raised_state-min o count limit adjustment e l fits = rw (e, l) (ground arith)

set_state-Wakes :
    (k : Kernel) (dh n : ℕ)
    → n ≡ 0
    → Wakes (λ b. (k.blocks b).thread) k dh (k.objects dh).wait_blocks n (set_state k dh (pos n))
set_state-Wakes k dh n z = rw z (record {
  state = ground arith;
  waiting = ground arith;
  woken = sym (append-nil k.woken);
  intact = refl;
})

-- The code's test whether to signal at all makes no difference.
signal_if_Wakes :
    (k : Kernel) (dh n : ℕ)
    → IsCounting (k.objects dh).kind
    → Wakes
        (λ b. (k.blocks b).thread)
        k
        dh
        (k.objects dh).wait_blocks
        n
        (if ltb_ℤ (pos 0) (pos n)
          then object_signaled (set_state k dh (pos n)) dh
          else set_state k dh (pos n))
signal_if_Wakes k dh n c = elim (Bool-cases (ltb_ℤ (pos 0) (pos n))) [
  | inl some_left ↦ rw some_left (raise_Wakes k dh n c)
  | inr none_left ↦ rw none_left (set_state-Wakes k dh n (ground arith))
]

grab_notification :
    (o : Object) (t : ℕ)
    → o.kind ≡ notification_object
    → o.signal_state ≡ pos 1
    → grab_object o t true ≡ (o, true)
unfolding grab_object
grab_notification o t c e = ground arith

-- KeReleaseSemaphore, while the count stays below 2 ^ 31: the count rises by the adjustment, at most
-- to the limit; that many waiters are woken, oldest first, and each takes one. It returns the count
-- before.
pub release_semaphore :
    (k : Kernel) (s count limit adjustment : ℕ)
    → (k.objects s).kind ≡ semaphore_object
    → (k.objects s).signal_state ≡ pos count
    → (k.objects s).limit ≡ pos limit
    → count + adjustment < 2 ^ 31
    → Wakes
        (λ b. (k.blocks b).thread)
        k
        s
        (k.objects s).wait_blocks
        (min (count + adjustment) limit)
        (ke_release_semaphore k s (pos adjustment)).0
      × ((ke_release_semaphore k s (pos adjustment)).1 ≡ pos count)
unfolding ke_release_semaphore
release_semaphore k s count limit adjustment c e l fits =
    rw (raised_state-min (k.objects s) count limit adjustment e l fits)
      (signal_if_Wakes k s (min (count + adjustment) limit) (inr c), e)

-- KeSetEvent on a synchronization event with state 0 or 1: if nobody waited while it was signalled,
-- then this holds after the call too.
pub set_event_IsServed :
    (k : Kernel) (event : ℕ)
    → (k.objects event).kind ≡ synchronization_object
    → ((k.objects event).signal_state ≡ pos 0) ⊎ ((k.objects event).signal_state ≡ pos 1)
    → IsServed k event
    → IsServed (ke_set_event k event).0 event
set_event_IsServed k event c (inl e) served =
    Wakes-IsServed (set_synchronization_event k event c e).0
set_event_IsServed k event c (inr e) served = unfold ke_set_event in rw e (ground arith)

offer_notification :
    (k : Kernel) (dh b : ℕ)
    → (k.objects dh).kind ≡ notification_object
    → (k.objects dh).signal_state ≡ pos 1
    → offer k dh b ≡ accept k dh b (k.objects dh)
unfolding offer
offer_notification k dh b c e = rw (grab_notification (k.objects dh) (k.blocks b).thread c e)

module _ (dh : ℕ) (th : ℕ → ℕ) where
  -- A notification object passes every waiter and keeps its state.
  notify_loop :
      (bs : List ℕ) (k : Kernel)
      → (k.objects dh).kind ≡ notification_object
      → (k.objects dh).signal_state ≡ pos 1
      → (k.objects dh).wait_blocks ≡ bs
      → ((b : ℕ) → (k.blocks b).thread ≡ th b)
      → (((signal_loop k dh bs).objects dh).signal_state ≡ pos 1)
        × (((signal_loop k dh bs).objects dh).wait_blocks ≡ [])
        × ((signal_loop k dh bs).woken ≡ k.woken ++ map th bs)
        × ((signal_loop k dh bs).corrupt ≡ k.corrupt)
  unfolding signal_loop
  notify_loop [] k c e w t = (e, w, sym (append-nil k.woken), refl)
  notify_loop (b ∷ bs) k c e w t =
      let o : Object = k.objects dh in
      let k' : Kernel = accept k dh b o in
      let obj : k'.objects dh ≡ record o { wait_blocks = bs } = accept_object k dh b bs o w in
      let rest =
        notify_loop bs k' (rw obj c) (rw obj e) (rw obj) (λ x. accept_thread k dh b o x ∙ t x) in
      rw (signal_loop, offer_notification k dh b c e)
        (
          rest.0,
          rest.1,
          rest.2
              ∙ rw (accept_woken k dh b bs o w, t b) (append_assoc k.woken (th b ∷ []) (map th bs)),
          rest.3 ∙ accept_intact k dh b bs o w,
        )

raise_notification :
    (k : Kernel) (dh : ℕ)
    → (k.objects dh).kind ≡ notification_object
    → let k' = object_signaled (set_state k dh (pos 1)) dh in
      ((k'.objects dh).signal_state ≡ pos 1)
      × ((k'.objects dh).wait_blocks ≡ [])
      × (k'.woken ≡ k.woken ++ map (λ b. (k.blocks b).thread) (k.objects dh).wait_blocks)
unfolding object_signaled
raise_notification k dh c =
    let k' : Kernel = set_state k dh (pos 1) in
    let obj = set_state_at k dh (pos 1) in
    let w =
      notify_loop dh (λ b. (k.blocks b).thread) (k.objects dh).wait_blocks k' (rw obj c) (rw obj)
        (rw obj) (λ b. refl) in
    rw obj (w.0, w.1, w.2)

-- KeSetEvent on an unsignalled notification event wakes every thread that waits for it, in the order
-- in which they queued, empties the queue and leaves the event signalled.
pub set_notification_event :
    (k : Kernel) (event : ℕ)
    → (k.objects event).kind ≡ notification_object
    → (k.objects event).signal_state ≡ pos 0
    → (((ke_set_event k event).0.objects event).signal_state ≡ pos 1)
      × (((ke_set_event k event).0.objects event).wait_blocks ≡ [])
      × ((ke_set_event k event).0.woken
          ≡ k.woken ++ map (λ b. (k.blocks b).thread) (k.objects event).wait_blocks)
      × ((ke_set_event k event).1 ≡ pos 0)
unfolding ke_set_event
set_notification_event k event c e =
    let w = raise_notification k event c in rw e (w.0, w.1, w.2, refl)
