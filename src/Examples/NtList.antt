-- ===== src/Examples/NtList.antt =====
-- driver/winnt_types.h: circular lists on a concrete heap.
use ndiswrapper.Base.{ℕ, ◌≡◌, refl, none, some, List, [], ◌∷◌, Option}
use ndiswrapper.NtList.{Heap, initialize_list_head}
use ndiswrapper.NtList.Ring.{Ring}
use ndiswrapper.NtList.Insert.{first_or_none, last_or_none}
use ndiswrapper.NtList.Refine.{
  ListOp, insert_head, insert_tail, remove_entry, remove_tail, apply_ops, list_op, list_ops,
  drop_last, list_ops_refine,
}

abbrev heap : Heap
heap = λ p. record { next = 0; prev = 0 }

-- Of four entries the second and the last are removed.
abbrev ops : List ListOp
ops =
    insert_tail 5
    ∷ insert_tail 6
    ∷ insert_head 4
    ∷ insert_tail 7
    ∷ remove_entry 5
    ∷ remove_tail
    ∷ []

abbrev results : List (Option ℕ)
results = none ∷ some 5 ∷ some 5 ∷ some 6 ∷ none ∷ some 7 ∷ []

abbrev listed : Heap
listed = (apply_ops (initialize_list_head heap 1) 1 ops).0

ops_run : list_ops 1 [] ops ≡ some (4 ∷ 6 ∷ [], results)
unfolding list_ops list_op drop_last first_or_none last_or_none
ops_run = refl

list_ops_refine_example :
    Ring listed 1 (4 ∷ 6 ∷ []) × ((apply_ops (initialize_list_head heap 1) 1 ops).1 ≡ results)
list_ops_refine_example = list_ops_refine ops heap 1 (4 ∷ 6 ∷ []) results ops_run

listed-Ring : Ring listed 1 (4 ∷ 6 ∷ [])
listed-Ring = (list_ops_refine ops heap 1 (4 ∷ 6 ∷ []) results ops_run).0
