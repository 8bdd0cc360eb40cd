-- ===== src/Usb/Kill.antt =====
-- driver/usb.c: kill_all_urbs. Linux's usb_kill_urb is a parameter: it cancels an urb and waits until
-- its completion handler has returned.
use ndiswrapper.Base.{
  ℕ, ◌≡◌, ◌≢◌, refl, ◌∙◌, Bool, true, ◌&&◌, List, [], ◌∷◌, ◌++◌, arith, ◌==◌, if◌then◌else◌, has,
  has-append, ◌⊎◌, inl, inr, Bool-cases, subst,
}
use ndiswrapper.Usb.{Urbs, UrbState, submitted, completed, is_submitted, wrap_urb_complete, errno}
use ndiswrapper.Usb.Steps.{answered}
use ndiswrapper.Usb.Schedule.{is_sent}
use ndiswrapper.Usb.Invariant.{IsUrbs}

-- `kill` is usb_kill_urb for an urb with a completion handler. The urb and its wrap_urb are freed.
pub kill_urb : (Urbs → ℕ → Urbs) → Bool → Urbs → ℕ → Urbs
kill_urb kill complete s w =
    let s' = if is_submitted (s.urbs w).state && complete then kill s w else s in
    record s' { released = s'.released ++ w ∷ [] }

-- `ws` is what is left of the device's list.
pub kill_loop : (Urbs → ℕ → Urbs) → Bool → List ℕ → Urbs → Urbs
kill_loop kill complete [] s = s
kill_loop kill complete (w ∷ ws) s = kill_loop kill complete ws (kill_urb kill complete s w)

pub kill_all_urbs : (Urbs → ℕ → Urbs) → Bool → Urbs → Urbs
unfolding kill_loop kill_urb
kill_all_urbs kill complete s = record (kill_loop kill complete s.wrap_urb_list s) {
  wrap_urb_list = [];
  num_alloc_urbs = 0;
}

-- What Linux documents: the handler has run with -ENOENT.
abbrev pub RunsHandler : (Urbs → ℕ → Urbs) → Type 0
RunsHandler kill = (s : Urbs) (w : ℕ) → kill s w ≡ wrap_urb_complete (answered s w (errno 2) 0 []) w

UrbState-sent : (st : UrbState) → is_sent st ≡ true → (st ≡ submitted) ⊎ (st ≡ completed)
UrbState-sent submitted h = inl refl
UrbState-sent completed h = inr refl
UrbState-sent st h = ground arith

module _ (kill : Urbs → ℕ → Urbs) (runs : RunsHandler kill) where
  -- The worker's list and the freed memory only grow.
  step_grows :
      (s : Urbs) (w v : ℕ)
      → (has v s.complete_list ≡ true → has v (kill_urb kill true s w).complete_list ≡ true)
        × (has v s.released ≡ true → has v (kill_urb kill true s w).released ≡ true)
        × (has w (kill_urb kill true s w).released ≡ true)
  unfolding kill_urb wrap_urb_complete
  step_grows s w v = (
    λ h. ground (arith, runs s w, has-append v s.complete_list (w ∷ [])),
    λ h. ground (arith, runs s w, has-append v s.released (w ∷ [])),
    ground (arith, runs s w, has-append w s.released (w ∷ [])),
  )

  step_keeps :
      (s : Urbs) (w v : ℕ) → w ≢ v → ((kill_urb kill true s w).urbs v).state ≡ (s.urbs v).state
  unfolding kill_urb wrap_urb_complete
  step_keeps s w v n = ground (arith, runs s w)

  step_queues :
      (s : Urbs) (w : ℕ)
      → (s.urbs w).state ≡ submitted
      → has w (kill_urb kill true s w).complete_list ≡ true
  unfolding kill_urb wrap_urb_complete
  step_queues s w st = ground (arith, st, runs s w, has-append w s.complete_list (w ∷ []))

  loop_grows :
      (ws : List ℕ) (s : Urbs) (v : ℕ)
      → (has v s.complete_list ≡ true → has v (kill_loop kill true ws s).complete_list ≡ true)
        × (has v s.released ≡ true → has v (kill_loop kill true ws s).released ≡ true)
  unfolding kill_loop
  loop_grows [] s v = (λ h. h, λ h. h)
  loop_grows (w ∷ ws) s v =
      let (q, r) = loop_grows ws (kill_urb kill true s w) v in
      let (q', r', _) = step_grows s w v in (λ h. q (q' h), λ h. r (r' h))

  loop_frees :
      (ws : List ℕ) (s : Urbs) (v : ℕ)
      → has v ws ≡ true
      → ((s.urbs v).state ≡ submitted) ⊎ (has v s.complete_list ≡ true)
      → (has v (kill_loop kill true ws s).complete_list ≡ true)
        × (has v (kill_loop kill true ws s).released ≡ true)
  unfolding kill_loop
  loop_frees [] s v h c = absurd (ground arith)
  loop_frees (w ∷ ws) s v h c =
      let s' = kill_urb kill true s w in
      let (queued, _, freed) = step_grows s w v in
      elim (Bool-cases (w == v)) [
        | inl here ↦
            let e : w ≡ v = ground arith in
            let (q, r) = loop_grows ws s' v in
            let on : has v s'.complete_list ≡ true = elim c [
              | inl st ↦ subst (λ x. has x s'.complete_list ≡ true) e (step_queues s w (rw e st))
              | inr on ↦ queued on
            ] in
            (q on, r (subst (λ x. has x s'.released ≡ true) e freed))
        | inr there ↦
            let c' : ((s'.urbs v).state ≡ submitted) ⊎ (has v s'.complete_list ≡ true) = elim c [
              | inl st ↦ inl (step_keeps s w v (λ e. ground arith) ∙ st)
              | inr on ↦ inr (queued on)
            ] in
            loop_frees ws s' v (ground (arith, h)) c'
      ]

  -- kill_all_urbs with `complete`, as for a NULL configuration: every wrap_urb that Linux had, or that
  -- waited for the worker, is on the worker's list when the function returns, although its memory is
  -- freed.
  pub killed_urb_stays_listed :
      (s : Urbs) (v : ℕ)
      → IsUrbs s
      → has v s.wrap_urb_list ≡ true
      → is_sent (s.urbs v).state ≡ true
      → (has v (kill_all_urbs kill true s).complete_list ≡ true)
        × (has v (kill_all_urbs kill true s).released ≡ true)
  unfolding kill_all_urbs
  killed_urb_stays_listed s v u on st =
      loop_frees s.wrap_urb_list s v on (elim (UrbState-sent (s.urbs v).state st) [
        | inl sent ↦ inl sent
        | inr done ↦ inr (u.queue v ∙ rw done (ground (arith, on)))
      ])
