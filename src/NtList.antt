-- ===== src/NtList.antt =====
-- driver/winnt_types.h: the circular doubly linked lists of the Windows drivers (`struct nt_list`),
-- with InitializeListHead, the insertions and the removals, on a heap of links. The heap maps an
-- address to the links that are stored there; NULL is `none`.
pub mod Ring
pub mod Insert
pub mod Remove
pub mod Refine
pub mod Walk
use ndiswrapper.Base.{
  ℕ, zero, suc, Bool, true, false, Option, none, some, List, [], ◌∷◌, ◌==◌, if◌then◌else◌, update,
  map_some,
}

pub record NtList : Type 0 where
  pub next : ℕ
  pub prev : ℕ

abbrev pub Heap : Type 0
Heap = ℕ → NtList

abbrev pub set_next : Heap → ℕ → ℕ → Heap
set_next h p v = update h p (record (h p) { next = v })

abbrev pub set_prev : Heap → ℕ → ℕ → Heap
set_prev h p v = update h p (record (h p) { prev = v })

pub initialize_list_head : Heap → ℕ → Heap
initialize_list_head h head = set_next (set_prev h head head) head head

pub is_list_empty : Heap → ℕ → Bool
is_list_empty h head = head == (h head).next

-- The two assignments in order: the second reads the links again.
pub remove_entry_list : Heap → ℕ → Heap
remove_entry_list h entry =
    let h' = set_next h (h entry).prev (h entry).next in set_prev h' (h' entry).next (h' entry).prev

pub remove_head_list : Heap → ℕ → Heap × Option ℕ
remove_head_list h head =
    let entry = (h head).next in
    if entry == head then (h, none) else (remove_entry_list h entry, some entry)

pub remove_tail_list : Heap → ℕ → Heap × Option ℕ
remove_tail_list h head =
    let entry = (h head).prev in
    if entry == head then (h, none) else (remove_entry_list h entry, some entry)

pub insert_list_entry : Heap → ℕ → ℕ → ℕ → Heap
insert_list_entry h entry prev next =
    set_next (set_prev (set_next (set_prev h next entry) entry next) entry prev) prev entry

pub insert_head_list : Heap → ℕ → ℕ → Heap × Option ℕ
insert_head_list h head entry =
    let ret = if is_list_empty h head then none else some (h head).next in
    (insert_list_entry h entry head (h head).next, ret)

pub insert_tail_list : Heap → ℕ → ℕ → Heap × Option ℕ
insert_tail_list h head entry =
    let ret = if is_list_empty h head then none else some (h head).prev in
    (insert_list_entry h entry (h head).prev head, ret)

-- nt_list_for_each from `pos`: the entries that the loop visits. `none` means that the fuel ran out.
pub nt_list_for_each : ℕ → Heap → ℕ → ℕ → Option (List ℕ)
nt_list_for_each zero h head pos = none
nt_list_for_each (suc fuel) h head pos =
    let rest = nt_list_for_each fuel h head (h pos).next in
    if pos == head then some [] else map_some (λ ps. pos ∷ ps) rest
