-- ===== src/Dispatcher/Wait/Recount.antt =====
-- driver/ntoskernel.c, KeWaitForMultipleObjects: the rounds of a WaitAll.
use ndiswrapper.Base.{
  status_success, ℕ, suc, ◌+◌, ◌-◌, ◌≤◌, ◌<◌, ◌≡◌, refl, true, List, [], ◌∷◌, ◌==◌, arith,
  if◌then◌else◌, ℤ, ◌∙◌,
}
use ndiswrapper.Dispatcher.{Kernel}
use ndiswrapper.Dispatcher.Wait.{wait_all, is_satisfied, returned, sleeping, settle, wait_round}

-- The wait blocks that some object has satisfied so far.
abbrev pub satisfied : Kernel → (ℕ → ℕ) → List ℕ → ℕ → ℕ
satisfied k wb [] i = 0
satisfied k wb (dh ∷ dhs) i =
    (if is_satisfied (k.blocks (wb i)) then 1 else 0) + satisfied k wb dhs (suc i)

settle_all :
    (dhs : List ℕ) (k : Kernel) (wb : ℕ → ℕ) (wait_done i n m : ℕ)
    → m ≡ n - satisfied k wb dhs i
    → (settle k wait_all wb wait_done dhs i n).1
      ≡ (if m == 0 then returned status_success else sleeping m)
unfolding settle
settle_all [] k wb wait_done i n m e = ground arith
settle_all (dh ∷ dhs) k wb wait_done i n m e = ground (
  arith,
  settle_all dhs k wb wait_done (suc i) (n - 1) m,
  settle_all dhs k wb wait_done (suc i) n m,
)

-- A round of a WaitAll that was woken takes one from wait_count for every block that is satisfied by
-- now, and not only for those satisfied since the last round. The wait ends with STATUS_SUCCESS when
-- none is left, and otherwise the thread sleeps again.
pub round_counts_satisfied :
    (k : Kernel) (objects : List ℕ) (wb : ℕ → ℕ) (wait_done n : ℕ) (res : ℤ)
    → k.done wait_done ≡ true
    → let m = n - satisfied k wb objects 0 in
      (wait_round k wait_all objects wb wait_done n res).1
      ≡ (if m == 0 then returned status_success else sleeping m)
unfolding wait_round
round_counts_satisfied k objects wb wait_done n res h =
    rw h (settle_all objects k wb wait_done 0 n _ refl)

-- So a WaitAll can end too early. Take two rounds of one wait for `n` objects, the first with `a`
-- blocks satisfied and the second with `b`, both fewer than `n`. If `a + b` reaches `n`, the second
-- round returns STATUS_SUCCESS while a block is still not satisfied.
wait_all_ends_early :
    (k k' : Kernel) (objects : List ℕ) (wb : ℕ → ℕ) (wait_done n : ℕ) (res res' : ℤ)
    → k.done wait_done ≡ true
    → k'.done wait_done ≡ true
    → satisfied k wb objects 0 < n
    → satisfied k' wb objects 0 < n
    → n ≤ satisfied k wb objects 0 + satisfied k' wb objects 0
    → (m : ℕ) × ((wait_round k wait_all objects wb wait_done n res).1 ≡ sleeping m)
      × ((wait_round k' wait_all objects wb wait_done m res').1 ≡ returned status_success)
wait_all_ends_early k k' objects wb wait_done n res res' h h' l l' e = (
  n - satisfied k wb objects 0,
  round_counts_satisfied k objects wb wait_done n res h ∙ ground arith,
  round_counts_satisfied k' objects wb wait_done _ res' h' ∙ ground arith,
)
