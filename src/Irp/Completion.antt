-- ===== src/Irp/Completion.antt =====
-- driver/ntoskernel_io.c: the loop of IofCompleteRequest and the release of the IRP.
use ndiswrapper.Base.{
  ℕ, zero, suc, ◌+◌, ◌-◌, ◌<◌, ◌≡◌, ◌≢◌, refl, sym, ◌∙◌, inl, inr, Bool, true, false, ◌&&◌, not,
  Option, none, some, List, [], ◌∷◌, ◌++◌, map, arith, ◌==◌, ltb, if◌then◌else◌, Bool-cases,
}
use ndiswrapper.Irp.{
  Irp, Effect, completion_called, cancel_called, user_status_written, event_set, pool_allocated,
  pool_freed, mdl_freed, irp_queued, irp_dequeued, irp_freed, io_skip_current_irp_stack_location,
  io_mark_irp_pending, wants_call, called_first, propagate, complete_round, complete_loop,
  complete_end, iof_complete_request, io_cancel_irp, io_free_irp, status_more_processing_required,
}

-- How often the IRP is freed.
abbrev pub frees : List Effect → ℕ
frees [] = 0
frees (irp_freed ∷ es) = suc (frees es)
frees (_ ∷ es) = frees es

frees-append : (xs ys : List Effect) → frees (xs ++ ys) ≡ frees xs + frees ys
frees-append [] ys = omega arith
frees-append (irp_freed ∷ xs) ys = omega (arith, frees-append xs ys)
frees-append (completion_called _ _ _ ∷ xs) ys = frees-append xs ys
frees-append (cancel_called _ _ ∷ xs) ys = frees-append xs ys
frees-append (user_status_written _ _ _ ∷ xs) ys = frees-append xs ys
frees-append (event_set _ ∷ xs) ys = frees-append xs ys
frees-append (pool_allocated _ ∷ xs) ys = frees-append xs ys
frees-append (pool_freed _ ∷ xs) ys = frees-append xs ys
frees-append (mdl_freed _ ∷ xs) ys = frees-append xs ys
frees-append (irp_queued _ ∷ xs) ys = frees-append xs ys
frees-append (irp_dequeued _ ∷ xs) ys = frees-append xs ys

frees-mdls : (ms : List ℕ) → frees (map mdl_freed ms) ≡ 0
frees-mdls [] = refl
frees-mdls (m ∷ ms) = frees-mdls ms

module _ (cancel : ℕ → ℕ → Irp → Irp) (irp : Irp) where
  cancel_frees : frees (io_cancel_irp cancel irp).2 ≡ 0
  unfolding io_cancel_irp
  cancel_frees = ground arith

  free_frees : frees (io_free_irp cancel irp) ≡ 1
  unfolding io_free_irp
  free_frees =
      ground (arith, cancel_frees, frees-append (io_cancel_irp cancel irp).2 (irp_freed ∷ []))

  buffers : List Effect
  buffers =
      if not (irp.system_buffer == 0) && irp.deallocate_buffer
      then pool_freed irp.system_buffer ∷ []
      else map mdl_freed irp.mdls

  buffers-frees : frees buffers ≡ 0
  unfolding buffers
  buffers-frees = ground (arith, frees-mdls irp.mdls)

  end_frees : frees (complete_end cancel irp) ≡ 1
  unfolding complete_end buffers
  end_frees =
      ground (arith, free_frees, buffers-frees, frees-append buffers (io_free_irp cancel irp))

abbrev skipped : Irp → ℕ → Irp
skipped irp sl = (complete_round irp sl).0

abbrev effect : Irp → ℕ → Effect
effect irp sl =
    completion_called (irp.location sl).completion_routine (complete_round irp sl).1
      (irp.location sl).context

module _ (call : ℕ → ℕ → ℕ → Irp → Irp × ℕ) where
  -- What the routine of the location makes of the IRP, and the status that it returns.
  abbrev answer : Irp → ℕ → Irp × ℕ
  answer irp sl =
      call (irp.location sl).completion_routine (complete_round irp sl).1 (irp.location sl).context
        (skipped irp sl)

  -- The four ways in which a round can go.
  data Round (fuel sl : ℕ) (irp : Irp) : Type 0 where
    done :
        ltb irp.current_location irp.stack_count ≡ false
        → complete_loop call (suc fuel) sl irp ≡ some (irp, true, [])
        → Round fuel sl irp
    passed :
        ltb irp.current_location irp.stack_count ≡ true
        → wants_call (skipped irp sl) (irp.location sl) ≡ false
        → complete_loop call (suc fuel) sl irp
          ≡ complete_loop call fuel (suc sl) (propagate (skipped irp sl))
        → Round fuel sl irp
    stopped :
        (answer irp sl).1 ≡ status_more_processing_required
        → complete_loop call (suc fuel) sl irp ≡ some ((answer irp sl).0, false, effect irp sl ∷ [])
        → Round fuel sl irp
    called :
        ltb irp.current_location irp.stack_count ≡ true
        → wants_call (skipped irp sl) (irp.location sl) ≡ true
        → complete_loop call (suc fuel) sl irp
          ≡ called_first (effect irp sl) (complete_loop call fuel (suc sl) (answer irp sl).0)
        → Round fuel sl irp

  round : (fuel sl : ℕ) (irp : Irp) → Round fuel sl irp
  unfolding complete_loop
  round fuel sl irp = elim (Bool-cases (ltb irp.current_location irp.stack_count)) [
    | inr outside ↦ done outside (rw outside)
    | inl inside ↦ elim (Bool-cases (wants_call (skipped irp sl) (irp.location sl))) [
      | inr unwanted ↦ passed inside unwanted (rw (inside, unwanted))
      | inl wanted ↦ elim (Bool-cases ((answer irp sl).1 == status_more_processing_required)) [
        | inl more ↦ stopped (ground arith) (rw (inside, wanted, more))
        | inr other ↦ called inside wanted (rw (inside, wanted, other))
      ]
    ]
  ]

called_first-some :
    (e : Effect) (r : Option (Irp × Bool × List Effect)) (irp : Irp) (finished : Bool)
    (es : List Effect)
    → called_first e r ≡ some (irp, finished, es)
    → (rest : List Effect) × (r ≡ some (irp, finished, rest)) × (es ≡ e ∷ rest)
called_first-some e none irp finished es h = cc
called_first-some e (some (i, f, rest)) irp finished es h = (rest, ground arith, ground arith)

same_frees :
    {i i' : Irp} {f f' : Bool} {xs es : List Effect}
    → ◌≡◌ {A = Option (Irp × Bool × List Effect)} (some (i, f, xs)) (some (i', f', es))
    → frees es ≡ frees xs
same_frees h = ground arith

same_finished :
    {i i' : Irp} {f f' : Bool} {xs es : List Effect}
    → ◌≡◌ {A = Option (Irp × Bool × List Effect)} (some (i, f, xs)) (some (i', f', es))
    → f' ≡ f
same_finished h = ground arith

module _ (call : ℕ → ℕ → ℕ → Irp → Irp × ℕ) where
  loop_frees :
      (fuel sl : ℕ) (irp irp' : Irp) (finished : Bool) (es : List Effect)
      → complete_loop call fuel sl irp ≡ some (irp', finished, es)
      → frees es ≡ 0
  loop_frees zero sl irp irp' finished es h = unfold complete_loop in absurd (ground arith)
  loop_frees (suc fuel) sl irp irp' finished es h = elim (round call fuel sl irp) [
    | done _ e ↦ same_frees (sym e ∙ h)
    | passed _ _ e ↦ loop_frees fuel (suc sl) _ irp' finished es (sym e ∙ h)
    | stopped _ e ↦ same_frees (sym e ∙ h)
    | called _ _ e ↦
        let (rest, r, s) = called_first-some (effect irp sl) _ irp' finished es (sym e ∙ h) in
        rw s (loop_frees fuel (suc sl) _ irp' finished rest r)
  ]

  -- Routines that leave the place in the stack alone.
  abbrev pub KeepsPlace : Type 0
  KeepsPlace =
      (routine dev context : ℕ) (i : Irp)
      → ((call routine dev context i).0.current_location ≡ i.current_location)
        × ((call routine dev context i).0.stack_count ≡ i.stack_count)

  skipped_place :
      (irp : Irp) (sl : ℕ)
      → ((skipped irp sl).current_location ≡ suc irp.current_location)
        × ((skipped irp sl).stack_count ≡ irp.stack_count)
  unfolding complete_round io_skip_current_irp_stack_location
  skipped_place irp sl = ground arith

  propagate_place :
      (irp : Irp)
      → ((propagate irp).current_location ≡ irp.current_location)
        × ((propagate irp).stack_count ≡ irp.stack_count)
  unfolding propagate io_mark_irp_pending
  propagate_place irp = ground arith

  loop_ends :
      KeepsPlace
      → (fuel sl : ℕ) (irp : Irp) → irp.stack_count - irp.current_location < fuel
      → (r : Irp × Bool × List Effect) × (complete_loop call fuel sl irp ≡ some r)
  loop_ends keeps zero sl irp h = absurd (omega arith)
  loop_ends keeps (suc fuel) sl irp h = elim (round call fuel sl irp) [
    | done _ e ↦ (_, e)
    | stopped _ e ↦ (_, e)
    | passed inside _ e ↦
        let s = skipped_place irp sl in
        let p = propagate_place (skipped irp sl) in
        let (r, l) =
          loop_ends keeps fuel (suc sl) (propagate (skipped irp sl))
            (ground (arith, h, s.0, s.1, p.0, p.1)) in
        (r, e ∙ l)
    | called inside _ e ↦
        let s = skipped_place irp sl in
        let k =
          keeps (irp.location sl).completion_routine (complete_round irp sl).1
            (irp.location sl).context (skipped irp sl) in
        let (r, l) =
          loop_ends keeps fuel (suc sl) (answer call irp sl).0
            (ground (arith, h, s.0, s.1, k.0, k.1)) in
        ((r.0, r.1, effect irp sl ∷ r.2), e ∙ rw l)
  ]

  -- No routine asks for more processing.
  abbrev pub NeverStops : Type 0
  NeverStops =
      (routine dev context : ℕ) (i : Irp)
      → (call routine dev context i).1 ≢ status_more_processing_required

  loop_finishes :
      NeverStops
      → (fuel sl : ℕ) (irp irp' : Irp) (finished : Bool) (es : List Effect)
      → complete_loop call fuel sl irp ≡ some (irp', finished, es)
      → finished ≡ true
  loop_finishes never zero sl irp irp' finished es h = unfold complete_loop in absurd (ground arith)
  loop_finishes never (suc fuel) sl irp irp' finished es h = elim (round call fuel sl irp) [
    | done _ e ↦ same_finished (sym e ∙ h)
    | passed _ _ e ↦ loop_finishes never fuel (suc sl) _ irp' finished es (sym e ∙ h)
    | stopped more e ↦ absurd (
        never (irp.location sl).completion_routine (complete_round irp sl).1
          (irp.location sl).context (skipped irp sl) more)
    | called _ _ e ↦
        let (rest, r, s) = called_first-some (effect irp sl) _ irp' finished es (sym e ∙ h) in
        loop_finishes never fuel (suc sl) _ irp' finished rest r
  ]

-- If the drivers' completion routines leave the place in the stack alone and none asks for more
-- processing, IofCompleteRequest returns, for fuel above the number of locations that are left, and
-- it frees the IRP exactly once.
pub complete_request_frees_once :
    (call : ℕ → ℕ → ℕ → Irp → Irp × ℕ) (cancel : ℕ → ℕ → Irp → Irp) (fuel : ℕ) (irp : Irp)
    → KeepsPlace call
    → NeverStops call
    → irp.stack_count - irp.current_location < fuel
    → (es : List Effect) × (iof_complete_request call cancel fuel irp ≡ some es) × (frees es ≡ 1)
unfolding iof_complete_request
complete_request_frees_once call cancel fuel irp keeps never h =
    let ((irp', finished, es), e) = loop_ends call keeps fuel irp.csl irp h in
    let f = loop_finishes call never fuel irp.csl irp irp' finished es e in
    let z = loop_frees call fuel irp.csl irp irp' finished es e in
    (
      es ++ complete_end cancel irp',
      rw (e, f),
      frees-append es (complete_end cancel irp') ∙ rw (z, end_frees cancel irp'),
    )
