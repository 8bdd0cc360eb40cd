-- ===== src/Usb/Worker.antt =====
-- driver/usb.c: wrap_urb_complete_worker empties its list in order.
use ndiswrapper.Base.{
  ℕ, zero, suc, ◌<◌, ◌≡◌, ◌≢◌, refl, sym, ◌∙◌, Bool, false, List, [], ◌∷◌, ◌++◌, arith, has,
  Distinct, length, map, some,
}
use mathlib.Core.List.{append_assoc, append-nil}
use ndiswrapper.Usb.{
  Urbs, WrapUrb, wrap_free_urb, complete_one, worker_round, wrap_urb_complete_worker,
}

abbrev pub irp_of : (ℕ → WrapUrb) → ℕ → ℕ
irp_of urbs w = (urbs w).irp

one_lem :
    (pipe_in : ℕ → Bool) (s : Urbs) (w : ℕ)
    → ((complete_one pipe_in s w).complete_list ≡ s.complete_list)
      × ((complete_one pipe_in s w).completed_irps ≡ s.completed_irps ++ (s.urbs w).irp ∷ [])
unfolding complete_one wrap_free_urb
one_lem pipe_in s w = (ground arith, ground arith)

one_others :
    (pipe_in : ℕ → Bool) (s : Urbs) (w v : ℕ)
    → w ≢ v
    → ((complete_one pipe_in s w).urbs v).irp ≡ (s.urbs v).irp
unfolding complete_one wrap_free_urb
one_others pipe_in s w v n = ground arith

map_others :
    (pipe_in : ℕ → Bool) (s : Urbs) (w : ℕ) (vs : List ℕ)
    → has w vs ≡ false
    → map (irp_of (complete_one pipe_in s w).urbs) vs ≡ map (irp_of s.urbs) vs
map_others pipe_in s w [] h = refl
map_others pipe_in s w (v ∷ vs) h =
    ground (arith, one_others pipe_in s w v (λ e. ground arith), map_others pipe_in s w vs)

drain :
    (pipe_in : ℕ → Bool) (fuel : ℕ) (s : Urbs) (ws : List ℕ)
    → s.complete_list ≡ ws
    → Distinct ws
    → length ws < fuel
    → (t : Urbs) × (wrap_urb_complete_worker pipe_in fuel s ≡ some t)
      × (t.complete_list ≡ [])
      × (t.completed_irps ≡ s.completed_irps ++ map (irp_of s.urbs) ws)
unfolding wrap_urb_complete_worker worker_round
drain pipe_in zero s ws e d h = absurd (omega arith)
drain pipe_in (suc fuel) s [] e d h = (s, rw (e, worker_round) refl, e, sym (append-nil _))
drain pipe_in (suc fuel) s (w ∷ ws) e d h =
    let s' = record s { complete_list = ws } in
    let (left, more) = one_lem pipe_in s' w in
    let (t, run, empty, done) =
      drain pipe_in fuel (complete_one pipe_in s' w) ws left d.1 (omega arith) in
    (
      t,
      rw (e, worker_round) run,
      empty,
      done ∙ rw (more, map_others pipe_in s' w ws d.0) (append_assoc s.completed_irps _ _),
    )

-- With more fuel than its list is long, and no wrap_urb twice on it, the worker empties the list and
-- completes the IRPs in the order in which Linux finished their urbs.
worker_completes_in_order :
    (pipe_in : ℕ → Bool) (fuel : ℕ) (s : Urbs)
    → Distinct s.complete_list
    → length s.complete_list < fuel
    → (t : Urbs) × (wrap_urb_complete_worker pipe_in fuel s ≡ some t)
      × (t.complete_list ≡ [])
      × (t.completed_irps ≡ s.completed_irps ++ map (irp_of s.urbs) s.complete_list)
worker_completes_in_order pipe_in fuel s d h = drain pipe_in fuel s s.complete_list refl d h
