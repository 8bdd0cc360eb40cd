-- ===== src/Kdpc/Drain.antt =====
-- driver/ntoskernel.c: kdpc_worker runs what is queued until the list is empty.
use ndiswrapper.Base.{
  ℕ, zero, suc, ◌<◌, ◌≡◌, refl, false, Option, none, some, List, [], ◌∷◌, arith, has, Distinct,
  update, length, List-cases, inl, inr, sym, ◌∙◌,
}
use ndiswrapper.Kdpc.{Kdpc, Dpcs, taken, log_call, kdpc_worker}
use ndiswrapper.Kdpc.Queue.{IsConsistent}

-- One entry is taken off, and its flag with it.
taken-IsConsistent :
    (s : Dpcs) (p : ℕ) (ps : List ℕ)
    → s.kdpc_list ≡ p ∷ ps
    → IsConsistent s
    → IsConsistent (taken s p ps)
unfolding taken
taken-IsConsistent s p ps e c = record { flags = λ q. flag q; distinct = dist.1 }
  where
    dist : Distinct (p ∷ ps)
    dist = ground (arith, c.distinct)

    flag : (q : ℕ) → has q ps ≡ (update s.kdpc p (record (s.kdpc p) { queued = false }) q).queued
    flag q = ground (arith, c.flags q, dist.0)

log_call-some :
    (p : ℕ) (r : Option (List ℕ × Dpcs)) (calls : List ℕ) (s' : Dpcs)
    → log_call p r ≡ some (calls, s')
    → (rest : List ℕ) × (r ≡ some (rest, s')) × (calls ≡ p ∷ rest)
log_call-some p none calls s' e = cc
log_call-some p (some (rest, s)) calls s' e = (rest, ground arith, ground arith)

module _ (call : ℕ → Kdpc → Dpcs → Dpcs) where
  worker_takes :
      (fuel : ℕ) (s : Dpcs) (p : ℕ) (ps : List ℕ)
      → s.kdpc_list ≡ p ∷ ps
      → kdpc_worker call (suc fuel) s
        ≡ log_call p (kdpc_worker call fuel (call p ((taken s p ps).kdpc p) (taken s p ps)))
  unfolding kdpc_worker
  worker_takes fuel s p ps e = rw e

  worker_idle :
      (fuel : ℕ) (s : Dpcs) → s.kdpc_list ≡ [] → kdpc_worker call (suc fuel) s ≡ some ([], s)
  unfolding kdpc_worker
  worker_idle fuel s e = rw e

drained :
    (s s' : Dpcs) (calls : List ℕ)
    → s.kdpc_list ≡ []
    → IsConsistent s
    → ◌≡◌ {A = Option (List ℕ × Dpcs)} (some ([], s)) (some (calls, s'))
    → (s'.kdpc_list ≡ []) × ((p : ℕ) → (s'.kdpc p).queued ≡ false)
drained s s' calls e c r =
    let same : s ≡ s' = ground arith in rw (← same) (e, λ p. ground (arith, c.flags p))

taken_list : (s : Dpcs) (p : ℕ) (ps : List ℕ) → (taken s p ps).kdpc_list ≡ ps
unfolding taken
taken_list s p ps = refl

-- Whatever the driver's functions queue or remove on the way, if each leaves flags and list
-- consistent, then the list is empty and every flag clear when the worker returns.
worker_drains :
    (call : ℕ → Kdpc → Dpcs → Dpcs) (fuel : ℕ) (s s' : Dpcs) (calls : List ℕ)
    → ((p : ℕ) (d : Kdpc) (t : Dpcs) → IsConsistent t → IsConsistent (call p d t))
    → IsConsistent s
    → kdpc_worker call fuel s ≡ some (calls, s')
    → (s'.kdpc_list ≡ []) × ((p : ℕ) → (s'.kdpc p).queued ≡ false)
unfolding kdpc_worker
worker_drains call zero s s' calls keeps c r = absurd (ground arith)
worker_drains call (suc fuel) s s' calls keeps c r = elim (List-cases s.kdpc_list) [
  | inl e ↦ drained s s' calls e c (sym (worker_idle call fuel s e) ∙ r)
  | inr (p, ps, e) ↦
      let (rest, r', _) = log_call-some p _ calls s' (sym (worker_takes call fuel s p ps e) ∙ r) in
      worker_drains call fuel _ s' rest keeps (keeps p _ _ (taken-IsConsistent s p ps e c)) r'
]

-- Where the driver's functions leave the list alone, the worker calls each queued kdpc once, in the
-- order of the list, if it has one unit of fuel more than the list is long.
pub worker_runs_in_order :
    (call : ℕ → Kdpc → Dpcs → Dpcs) (fuel : ℕ) (s : Dpcs) (l : List ℕ)
    → ((p : ℕ) (d : Kdpc) (t : Dpcs) → (call p d t).kdpc_list ≡ t.kdpc_list)
    → s.kdpc_list ≡ l
    → length l < fuel
    → (s' : Dpcs) × (kdpc_worker call fuel s ≡ some (l, s')) × (s'.kdpc_list ≡ [])
worker_runs_in_order call zero s l quiet e h = absurd (omega arith)
worker_runs_in_order call (suc fuel) s [] quiet e h = (s, worker_idle call fuel s e, e)
worker_runs_in_order call (suc fuel) s (p ∷ ps) quiet e h =
    let (s', r, done) =
      worker_runs_in_order call fuel (call p ((taken s p ps).kdpc p) (taken s p ps)) ps quiet
        (quiet p _ _ ∙ taken_list s p ps) (omega arith) in
    (s', worker_takes call fuel s p ps e ∙ rw r, done)
