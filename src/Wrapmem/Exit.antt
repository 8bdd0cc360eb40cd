-- ===== src/Wrapmem/Exit.antt =====
-- driver/wrapmem.c: what wrapmem_exit gives back.
use mathlib.Core.List.{append_assoc, append-nil}
use ndiswrapper.Base.{
  ℕ, ◌<◌, ◌≡◌, refl, sym, ◌∙◌, ◌⊎◌, inl, inr, List, [], ◌∷◌, ◌++◌, ltb, if◌then◌else◌, All, update,
  map, arith,
}
use ndiswrapper.Wrapmem.{
  Freed, kfreed, vfreed, pages_freed, Memory, alloc_type_slack, atomic_sub, free_slack, free_leaks,
  wrapmem_exit,
}

-- The types that the allocating functions give: 0 and 1 with kmalloc, 2 and 3 with vmalloc, 5 pages.
abbrev pub IsKnown : Memory → ℕ → Type 0
IsKnown m p = ((m.info p).type < 4) ⊎ ((m.info p).type ≡ 5)

-- The kernel's function that matches the one which allocated.
abbrev pub matching : Memory → ℕ → Freed
matching m p =
    if ltb (m.info p).type 2
    then kfreed p
    else if ltb (m.info p).type 4
    then vfreed p
    else pages_freed p

slack_released :
    (ps : List ℕ) (m : Memory)
    → ((free_slack m ps).slack_allocs ≡ [])
      × ((free_slack m ps).released ≡ m.released ++ map kfreed ps)
      × ((free_slack m ps).allocs ≡ m.allocs)
      × ((free_slack m ps).info ≡ m.info)
unfolding free_slack
slack_released [] m = (refl, sym (append-nil m.released), refl, refl)
slack_released (p ∷ ps) m =
    let (none_left, gone, same, info) = slack_released ps _ in
    (none_left, gone ∙ append_assoc m.released _ _, same, info)

taken_leak : Memory → ℕ → List ℕ → Memory
taken_leak m p ps = record m {
  alloc_sizes =
      update m.alloc_sizes alloc_type_slack
        (atomic_sub (m.alloc_sizes alloc_type_slack) (m.info p).size);
  allocs = ps;
  released = m.released ++ matching m p ∷ [];
}

leak_step :
    (p : ℕ) (ps : List ℕ) (m : Memory)
    → IsKnown m p
    → free_leaks m (p ∷ ps) ≡ free_leaks (taken_leak m p ps) ps
unfolding free_leaks taken_leak
leak_step p ps m (inl low) = ground (arith, low)
leak_step p ps m (inr pages) = ground (arith, pages)

leaks_released :
    (ps : List ℕ) (m : Memory)
    → All (IsKnown m) ps
    → ((free_leaks m ps).allocs ≡ [])
      × ((free_leaks m ps).released ≡ m.released ++ map (matching m) ps)
      × ((free_leaks m ps).slack_allocs ≡ m.slack_allocs)
unfolding free_leaks taken_leak
leaks_released [] m a = (refl, sym (append-nil m.released), refl)
leaks_released (p ∷ ps) m a =
    let (none_left, gone, slack) = leaks_released ps (taken_leak m p ps) a.1 in
    rw (leak_step p ps m a.0) (none_left, gone ∙ append_assoc m.released _ _, slack)

IsKnown-after :
    (m m' : Memory) (ps : List ℕ) → m'.info ≡ m.info → All (IsKnown m) ps → All (IsKnown m') ps
IsKnown-after m m' ps e a = rw e a

-- In the build with ALLOC_DEBUG at 2, if the types are those that the allocating functions give,
-- wrapmem_exit gives every slack allocation back with kfree, then every allocation that leaked with the
-- kernel's function that matches its type, each once and in the order in which they were made, and
-- leaves both lists empty.
pub exit_releases_everything :
    (m : Memory)
    → All (IsKnown m) m.allocs
    → ((wrapmem_exit m).slack_allocs ≡ [])
      × ((wrapmem_exit m).allocs ≡ [])
      × ((wrapmem_exit m).released
          ≡ (m.released ++ map kfreed m.slack_allocs) ++ map (matching m) m.allocs)
unfolding wrapmem_exit
exit_releases_everything m a =
    let (none_left, gone, same, info) = slack_released m.slack_allocs m in
    let m' : Memory = free_slack m m.slack_allocs in
    let known : All (IsKnown m') m'.allocs = rw same (IsKnown-after m m' m.allocs info a) in
    let (no_leaks, leaks, slack) = leaks_released m'.allocs m' known in
    (slack ∙ none_left, no_leaks, leaks ∙ rw (gone, same, info) refl)
