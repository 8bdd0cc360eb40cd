-- ===== src/Dispatcher/Wait/Reachable.antt =====
-- driver/ntoskernel.c: a synchronization event over any interleaving of the calls on it and of the
-- threads that start to wait for it or give up.
use ndiswrapper.Base.{
  ℕ, ◌-◌, ◌≡◌, refl, ap, ◌∙◌, ◌⊎◌, inl, inr, Bool, true, List, [], ◌∷◌, arith, length, pos, eqb_ℤ,
  Bool-cases,
}
use ndiswrapper.Dispatcher.{
  synchronization_object, Object, Kernel, grab_object, remove_entry, accept, offer, signal_loop,
  object_signaled, set_state, initialize_object, ke_initialize_event, ke_set_event, ke_clear_event,
  ke_reset_event,
}
use ndiswrapper.Dispatcher.Events.{IsServed, set_synchronization_event, set_event_IsServed}
use ndiswrapper.Dispatcher.Wait.{enqueue_wait}

-- One step: a call on the event, where KeClearEvent and KeResetEvent fall between the parts that others
-- run under dispatcher_lock, a thread that checks the event and queues for it if it cannot take
-- it, or a thread that gives up its wait.
pub data Step (event : ℕ) : Kernel → Kernel → Type 0 where
  set : (k : Kernel) → Step event k (ke_set_event k event).0
  clear : (k : Kernel) → Step event k (ke_clear_event k event)
  reset : (k : Kernel) → Step event k (ke_reset_event k event).0
  wait :
      (k : Kernel) (current wait_done b : ℕ)
      → Step event k (enqueue_wait k current wait_done event b)
  give_up : (k : Kernel) (b : ℕ) → Step event k (remove_entry k event b)

-- The kernels that steps lead to from the initialization of the event.
pub data Reachable (event : ℕ) : Kernel → Type 0 where
  initialized :
      (k : Kernel) → Reachable event (ke_initialize_event k event synchronization_object (pos 0))
  signalled :
      (k : Kernel) → Reachable event (ke_initialize_event k event synchronization_object (pos 1))
  after : (k k' : Kernel) → Reachable event k → Step event k k' → Reachable event k'

pub record IsEvent (k : Kernel) (event : ℕ) : Type 0 where
  pub kind : (k.objects event).kind ≡ synchronization_object
  pub binary : ((k.objects event).signal_state ≡ pos 0) ⊎ ((k.objects event).signal_state ≡ pos 1)
  pub served : IsServed k event

grab_kind : (o : Object) (t : ℕ) (g : Bool) → (grab_object o t g).0.kind ≡ o.kind
unfolding grab_object
grab_kind o t g = ground arith

accept_kind : (k : Kernel) (dh b : ℕ) (o : Object) → ((accept k dh b o).objects dh).kind ≡ o.kind
unfolding accept remove_entry
accept_kind k dh b o = ground arith

offer_kind : (k : Kernel) (dh b : ℕ) → ((offer k dh b).objects dh).kind ≡ (k.objects dh).kind
unfolding offer
offer_kind k dh b = elim (Bool-cases (grab_object (k.objects dh) (k.blocks b).thread true).1) [
  | inl got ↦ rw got (
      accept_kind k dh b (grab_object (k.objects dh) (k.blocks b).thread true).0
      ∙ grab_kind (k.objects dh) (k.blocks b).thread true)
  | inr not_got ↦ rw not_got
]

loop_kind :
    (bs : List ℕ) (k : Kernel) (dh : ℕ)
    → ((signal_loop k dh bs).objects dh).kind ≡ (k.objects dh).kind
unfolding signal_loop
loop_kind [] k dh = refl
loop_kind (b ∷ bs) k dh = loop_kind bs (offer k dh b) dh ∙ offer_kind k dh b

set_kind :
    (k : Kernel) (event : ℕ)
    → (((ke_set_event k event).0).objects event).kind ≡ (k.objects event).kind
unfolding ke_set_event object_signaled
set_kind k event =
    let k' : Kernel = set_state k event (pos 1) in
    let same : (k'.objects event).kind ≡ (k.objects event).kind = ground arith in
    elim (Bool-cases (eqb_ℤ (k.objects event).signal_state (pos 0))) [
      | inl unset ↦ rw unset (loop_kind (k'.objects event).wait_blocks k' event ∙ same)
      | inr was_set ↦ rw was_set same
    ]

one_less : (n : ℕ) → (1 - n ≡ 0) ⊎ (1 - n ≡ 1)
one_less n = omega arith

set_binary :
    (k : Kernel) (event : ℕ)
    → IsEvent k event
    → ((((ke_set_event k event).0).objects event).signal_state ≡ pos 0)
      ⊎ ((((ke_set_event k event).0).objects event).signal_state ≡ pos 1)
set_binary k event i = elim i.binary [
  | inl e ↦
      let w = (set_synchronization_event k event i.kind e).0 in
      elim (one_less (length (k.objects event).wait_blocks)) [
        | inl z ↦ inl (w.state ∙ ap pos z)
        | inr o ↦ inr (w.state ∙ ap pos o)
      ]
  | inr e ↦ unfold ke_set_event in inr (rw e (ground arith))
]

enqueue_wait-IsEvent :
    (k : Kernel) (event current wait_done b : ℕ)
    → IsEvent k event
    → IsEvent (enqueue_wait k current wait_done event b) event
unfolding enqueue_wait grab_object
enqueue_wait-IsEvent k event current wait_done b i = record {
  kind = ground (arith, i.kind);
  binary = ground (arith, i.kind, i.binary);
  served = ground (arith, i.kind, i.binary);
}

remove_entry-IsEvent :
    (k : Kernel) (event b : ℕ) → IsEvent k event → IsEvent (remove_entry k event b) event
unfolding remove_entry
remove_entry-IsEvent k event b i = record {
  kind = ground (arith, i.kind);
  binary = ground (arith, i.binary);
  served = ground (arith, i.served);
}

Step-IsEvent : {event : ℕ} {k k' : Kernel} → Step event k k' → IsEvent k event → IsEvent k' event
unfolding ke_clear_event ke_reset_event
Step-IsEvent {event} (set k) i = record {
  kind = set_kind k event ∙ i.kind;
  binary = set_binary k event i;
  served = set_event_IsServed k event i.kind i.binary i.served;
}
Step-IsEvent {event} (clear k) i = record {
  kind = ground (arith, i.kind);
  binary = ground arith;
  served = ground arith;
}
Step-IsEvent {event} (reset k) i = record {
  kind = ground (arith, i.kind);
  binary = ground arith;
  served = ground arith;
}
Step-IsEvent {event} (wait k current wait_done b) i =
    enqueue_wait-IsEvent k event current wait_done b i
Step-IsEvent {event} (give_up k b) i = remove_entry-IsEvent k event b i

-- However threads set, clear, wait for and give up on a synchronization event after it was
-- initialized, as long as no KeClearEvent or KeResetEvent, which do not take dispatcher_lock, falls into
-- the midst of a part that another thread runs under that lock: its state is 0 or 1, and while it is
-- signalled no thread is queued for it.
pub Reachable-IsEvent : {event : ℕ} {k : Kernel} → Reachable event k → IsEvent k event
unfolding ke_initialize_event initialize_object
Reachable-IsEvent (initialized k) = record {
  kind = ground arith;
  binary = ground arith;
  served = ground arith;
}
Reachable-IsEvent (signalled k) = record {
  kind = ground arith;
  binary = ground arith;
  served = ground arith;
}
Reachable-IsEvent (after k k' r s) = Step-IsEvent s (Reachable-IsEvent r)
