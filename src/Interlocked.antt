-- ===== src/Interlocked.antt =====
-- driver/ntoskernel.h and driver/ntoskernel.c: singly linked lists (PushEntrySList, PopEntrySList and the
-- functions of Windows over them), the interlocked operations on circular lists and numbers, and the
-- level that raise_irql and lower_irql keep for a processor. Every operation runs under a lock or is
-- atomic, so it is one step. NULL is 0.
pub mod Stack
pub mod Irql
use ndiswrapper.Base.{
  ℕ, zero, suc, ◌+◌, ◌-◌, ◌%◌, ◌^◌, Bool, true, false, Option, none, some, ◌==◌, if◌then◌else◌,
  update,
}
use ndiswrapper.NtList.{
  Heap, insert_head_list, insert_tail_list, remove_head_list, remove_tail_list,
}

-- The head of a list, whose depth has 16 bits; the entries are links on a heap of their own.
pub record SlistHeader : Type 0 where
  pub next : ℕ
  pub depth : ℕ

pub record Slist : Type 0 where
  pub head : SlistHeader
  pub link : ℕ → ℕ

pub initialize_slist_head : Slist → Slist
initialize_slist_head s = record s { head = record { next = 0; depth = 0 } }

-- The list and the old first entry.
unfoldable pub push_entry_slist : Slist → ℕ → Slist × ℕ
push_entry_slist s entry = (
  record {
    head = record { next = entry; depth = (s.head.depth + 1) % 2 ^ 16 };
    link = update s.link entry s.head.next;
  },
  s.head.next,
)

unfoldable pub pop_entry_slist : Slist → Slist × ℕ
pop_entry_slist s =
    let entry = s.head.next in
    if entry == 0 then (s, 0) else (
      record s {
        head = record { next = s.link entry; depth = (s.head.depth + (2 ^ 16 - 1)) % 2 ^ 16 };
      },
      entry,
    )

pub ex_interlocked_push_entry_slist : Slist → ℕ → Slist × ℕ
ex_interlocked_push_entry_slist s entry = push_entry_slist s entry

pub exp_interlocked_push_entry_slist : Slist → ℕ → Slist × ℕ
exp_interlocked_push_entry_slist s entry = push_entry_slist s entry

pub interlocked_push_entry_slist : Slist → ℕ → Slist × ℕ
interlocked_push_entry_slist s entry = push_entry_slist s entry

pub ex_interlocked_pop_entry_slist : Slist → Slist × ℕ
ex_interlocked_pop_entry_slist s = pop_entry_slist s

pub exp_interlocked_pop_entry_slist : Slist → Slist × ℕ
exp_interlocked_pop_entry_slist s = pop_entry_slist s

pub interlocked_pop_entry_slist : Slist → Slist × ℕ
interlocked_pop_entry_slist s = pop_entry_slist s

pub ex_query_depth_slist : Slist → ℕ
ex_query_depth_slist s = s.head.depth

pub exf_interlocked_insert_head_list : Heap → ℕ → ℕ → Heap × Option ℕ
exf_interlocked_insert_head_list h head entry = insert_head_list h head entry

pub ex_interlocked_insert_head_list : Heap → ℕ → ℕ → Heap × Option ℕ
ex_interlocked_insert_head_list h head entry = exf_interlocked_insert_head_list h head entry

pub exf_interlocked_insert_tail_list : Heap → ℕ → ℕ → Heap × Option ℕ
exf_interlocked_insert_tail_list h head entry = insert_tail_list h head entry

pub ex_interlocked_insert_tail_list : Heap → ℕ → ℕ → Heap × Option ℕ
ex_interlocked_insert_tail_list h head entry = exf_interlocked_insert_tail_list h head entry

pub exf_interlocked_remove_head_list : Heap → ℕ → Heap × Option ℕ
exf_interlocked_remove_head_list h head = remove_head_list h head

pub ex_interlocked_remove_head_list : Heap → ℕ → Heap × Option ℕ
ex_interlocked_remove_head_list h head = exf_interlocked_remove_head_list h head

pub exf_interlocked_remove_tail_list : Heap → ℕ → Heap × Option ℕ
exf_interlocked_remove_tail_list h head = remove_tail_list h head

pub ex_interlocked_remove_tail_list : Heap → ℕ → Heap × Option ℕ
ex_interlocked_remove_tail_list h head = exf_interlocked_remove_tail_list h head

-- The levels, and `struct irql_info` of one processor: a lock, which task holds it and how often. The
-- mask of processors of a task is left out.
abbrev pub passive_level : ℕ
passive_level = 0

abbrev pub dispatch_level : ℕ
dispatch_level = 2

pub record IrqlInfo : Type 0 where
  pub count : ℕ
  pub task : ℕ
  pub lock : Bool

-- The level before; `none` where the task must wait for the lock.
unfoldable pub raise_irql : IrqlInfo → ℕ → Option (IrqlInfo × ℕ)
raise_irql info current =
    if info.task == current
    then some (record info { count = info.count + 1 }, dispatch_level)
    else if info.lock
    then none
    else some (record { count = 1; task = current; lock = true }, passive_level)

-- The code asserts that `count` is not 0.
unfoldable pub lower_irql : IrqlInfo → IrqlInfo
lower_irql info =
    let count = info.count - 1 in
    if count == 0
    then record { count = 0; task = 0; lock = false }
    else record info { count = count }
