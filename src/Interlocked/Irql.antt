-- ===== src/Interlocked/Irql.antt =====
-- driver/ntoskernel.h: lower_irql undoes raise_irql, nested or not.
use ndiswrapper.Base.{
  ℕ, ◌+◌, ◌-◌, ◌≤◌, ◌≡◌, ◌≢◌, refl, true, false, some, none, arith, ◌==◌, if◌then◌else◌, sym, ◌∙◌,
  Bool-cases, ◌⊎◌, inl, inr,
}
use ndiswrapper.Interlocked.{IrqlInfo, raise_irql, lower_irql}

-- The lock is held just while the count is not 0, and then a task holds it.
abbrev pub IsIrql : IrqlInfo → Type 0
IsIrql info =
    ((info.count ≡ 0) × (info.task ≡ 0) × (info.lock ≡ false))
    ⊎ ((1 ≤ info.count) × (info.task ≢ 0) × (info.lock ≡ true))

raise_nested :
    (info : IrqlInfo) (current : ℕ)
    → info.task ≡ current
    → raise_irql info current ≡ some (record info { count = info.count + 1 }, 2)
unfolding raise_irql
raise_nested info current e = ground arith

raise_first :
    (info : IrqlInfo) (current : ℕ)
    → info.task ≢ current
    → info.lock ≡ false
    → raise_irql info current ≡ some (record { count = 1; task = current; lock = true }, 0)
unfolding raise_irql
raise_first info current n l = ground arith

raise_waits :
    (info : IrqlInfo) (current : ℕ)
    → info.task ≢ current
    → info.lock ≡ true
    → raise_irql info current ≡ none
unfolding raise_irql
raise_waits info current n l = ground arith

lower_nested :
    (info : IrqlInfo) → 1 ≤ info.count → lower_irql (record info { count = info.count + 1 }) ≡ info
unfolding lower_irql
lower_nested info h =
    let less : info.count + 1 - 1 ≡ info.count = omega arith in rw less (ground arith)

idle : IrqlInfo
idle = record { count = 0; task = 0; lock = false }

is_idle : (info : IrqlInfo) → info.count ≡ 0 → info.task ≡ 0 → info.lock ≡ false → info ≡ idle
unfolding idle
is_idle info c t l = cc

-- If a task raises the level, then it holds the lock of the processor, the level that it gets back is
-- DISPATCH_LEVEL just where it held the lock before, and lower_irql restores the state before.
lower_irql-raise_irql :
    (info info' : IrqlInfo) (current level : ℕ)
    → current ≢ 0
    → IsIrql info
    → raise_irql info current ≡ some (info', level)
    → IsIrql info'
      × (info'.task ≡ current)
      × (lower_irql info' ≡ info)
      × (level ≡ (if info.task == current then 2 else 0))
unfolding lower_irql idle
lower_irql-raise_irql info info' current level real (inl (c, t, l)) e =
    let n : info.task ≢ current = λ q. real (sym q ∙ t) in
    let r = sym (raise_first info current n l) ∙ e in
    let same : record { count = 1; task = current; lock = true } ≡ info' = ground arith in
    let low : 0 ≡ level = ground arith in
    rw (← same, ← low) (inr (omega arith, real, refl), refl, sym (is_idle info c t l), ground arith)
lower_irql-raise_irql info info' current level real (inr (c, t, l)) e =
    elim (Bool-cases (info.task == current)) [
      | inl own ↦
          let mine : info.task ≡ current = ground arith in
          let r = sym (raise_nested info current mine) ∙ e in
          let same : record info { count = info.count + 1 } ≡ info' = ground arith in
          let high : 2 ≡ level = ground arith in
          rw (← same, ← high) (inr (omega arith, t, l), mine, lower_nested info c, ground arith)
      | inr n ↦
          let others : info.task ≢ current = λ q. ground arith in
          let r = sym (raise_waits info current others l) ∙ e in absurd (ground arith)
    ]
