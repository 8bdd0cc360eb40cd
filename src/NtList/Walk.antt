-- ===== src/NtList/Walk.antt =====
-- driver/winnt_types.h: nt_list_for_each visits the entries of a ring in order and ends.
use ndiswrapper.Base.{ℕ, zero, suc, ◌<◌, ◌≡◌, false, some, List, [], ◌∷◌, arith, has, length}
use ndiswrapper.NtList.{Heap, nt_list_for_each}
use ndiswrapper.NtList.Ring.{Linked, Chain, last, Ring}

walk :
    (fuel : ℕ) (h : Heap) (head a : ℕ) (xs : List ℕ)
    → Chain h a xs
    → Linked h (last a xs) head
    → has head xs ≡ false
    → length xs < fuel
    → nt_list_for_each fuel h head (h a).next ≡ some xs
unfolding nt_list_for_each
walk zero h head a xs c l o f = absurd (omega arith)
walk (suc fuel) h head a [] c l o f = rw l.0 (ground arith)
walk (suc fuel) h head a (x ∷ xs) c l o f =
    rw c.0.0 (ground (arith, walk fuel h head x xs c.1 l (ground arith) (omega arith)))

-- The loop over a ring ends after one round for each entry and one for the head, and visits the
-- entries of the list in order.
nt_list_for_each_visits :
    (fuel : ℕ) (h : Heap) (head : ℕ) (xs : List ℕ)
    → Ring h head xs
    → length xs < fuel
    → nt_list_for_each fuel h head (h head).next ≡ some xs
nt_list_for_each_visits fuel h head xs r f =
    walk fuel h head head xs r.chain r.closed r.distinct.0 f
