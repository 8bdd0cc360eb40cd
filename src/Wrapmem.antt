-- ===== src/Wrapmem.antt =====
-- driver/wrapmem.c, built with ALLOC_DEBUG at 2: the accounting of allocations. An allocation is
-- named by the address of the header in front of it; the pointer that a caller gets is behind that.
-- What the kernel's allocators return is a parameter, 0 for NULL. A counter of `alloc_sizes` is the 32
-- bits of an atomic_t.
pub mod Balance
pub mod Exit
use ndiswrapper.Base.{
  ℕ, zero, suc, ◌+◌, ◌-◌, ◌%◌, ◌^◌, ◌<◌, Bool, true, false, ◌||◌, Option, none, some, List, [], ◌∷◌,
  ◌++◌, ◌==◌, ltb, if◌then◌else◌, erase, update,
}

-- The values of `enum alloc_type`.
abbrev pub alloc_type_kmalloc_atomic : ℕ
alloc_type_kmalloc_atomic = 0

abbrev pub alloc_type_kmalloc_non_atomic : ℕ
alloc_type_kmalloc_non_atomic = 1

abbrev pub alloc_type_vmalloc_atomic : ℕ
alloc_type_vmalloc_atomic = 2

abbrev pub alloc_type_vmalloc_non_atomic : ℕ
alloc_type_vmalloc_non_atomic = 3

abbrev pub alloc_type_slack : ℕ
alloc_type_slack = 4

abbrev pub alloc_type_pages : ℕ
alloc_type_pages = 5

abbrev pub alloc_type_max : ℕ
alloc_type_max = 6

-- How memory was given back to the kernel: with kfree, vfree or free_pages.
pub data Freed : Type 0 where
  kfreed vfreed pages_freed : ℕ → Freed

pub record AllocInfo : Type 0 where
  pub type : ℕ
  pub size : ℕ

-- `released` holds what was given back to the kernel, in order.
pub record Memory : Type 0 where
  pub info : ℕ → AllocInfo
  pub allocs : List ℕ
  pub slack_size : ℕ → ℕ
  pub slack_allocs : List ℕ
  pub alloc_sizes : ℕ → ℕ
  pub released : List Freed

abbrev pub atomic_add : ℕ → ℕ → ℕ
atomic_add v n = (v + n) % 2 ^ 32

abbrev pub atomic_sub : ℕ → ℕ → ℕ
atomic_sub v n = (v + (2 ^ 32 - n % 2 ^ 32)) % 2 ^ 32

abbrev pub charge : Memory → ℕ → ℕ → Memory
charge m t n = record m { alloc_sizes = update m.alloc_sizes t (atomic_add (m.alloc_sizes t) n) }

abbrev pub discharge : Memory → ℕ → ℕ → Memory
discharge m t n = record m { alloc_sizes = update m.alloc_sizes t (atomic_sub (m.alloc_sizes t) n) }

pub slack_kmalloc : Memory → ℕ → ℕ → Memory × ℕ
slack_kmalloc m p size = if p == 0 then (m, 0) else (
  record (charge m alloc_type_slack size) {
    slack_size = update m.slack_size p size;
    slack_allocs = m.slack_allocs ++ p ∷ [];
  },
  p,
)

pub slack_kfree : Memory → ℕ → Memory
slack_kfree m p = record (discharge m alloc_type_slack (m.slack_size p)) {
  slack_allocs = erase p m.slack_allocs;
  released = m.released ++ kfreed p ∷ [];
}

-- What the allocating functions have in common.
pub record_alloc : Memory → ℕ → ℕ → ℕ → Memory × ℕ
record_alloc m p t size = if p == 0 then (m, 0) else (
  record (charge m t size) {
    info = update m.info p (record { type = t; size = size });
    allocs = m.allocs ++ p ∷ [];
  },
  p,
)

pub wrap_kmalloc : Memory → ℕ → Bool → ℕ → Memory × ℕ
wrap_kmalloc m p atomic size =
    record_alloc m p (if atomic then alloc_type_kmalloc_atomic else alloc_type_kmalloc_non_atomic)
      size

pub wrap_vmalloc : Memory → ℕ → ℕ → Memory × ℕ
wrap_vmalloc m p size = record_alloc m p alloc_type_vmalloc_non_atomic size

pub wrap__vmalloc : Memory → ℕ → Bool → ℕ → Memory × ℕ
wrap__vmalloc m p atomic size =
    record_alloc m p (if atomic then alloc_type_vmalloc_atomic else alloc_type_vmalloc_non_atomic)
      size

-- `sizeof(struct alloc_info)` on a 64-bit machine is 48, and the size counts the header.
pub wrap_alloc_pages : Memory → ℕ → ℕ → Memory × ℕ
wrap_alloc_pages m p size = record_alloc m p alloc_type_pages ((size + 48) % 2 ^ 32)

-- What the freeing functions have in common; `right` tells whether the type is one of theirs, and
-- `free` is their call of the kernel.
pub forget_alloc : Memory → ℕ → Bool → (ℕ → Freed) → Memory
forget_alloc m p right free =
    let i = m.info p in
    let m' = record (discharge m i.type i.size) { allocs = erase p m.allocs } in
    if right then record m' { released = m'.released ++ free p ∷ [] } else m'

abbrev pub is_kmalloc : ℕ → Bool
is_kmalloc t = t == alloc_type_kmalloc_atomic || t == alloc_type_kmalloc_non_atomic

abbrev pub is_vmalloc : ℕ → Bool
is_vmalloc t = t == alloc_type_vmalloc_atomic || t == alloc_type_vmalloc_non_atomic

pub wrap_kfree : Memory → ℕ → Memory
wrap_kfree m p = if p == 0 then m else forget_alloc m p (is_kmalloc (m.info p).type) kfreed

pub wrap_vfree : Memory → ℕ → Memory
wrap_vfree m p = forget_alloc m p (is_vmalloc (m.info p).type) vfreed

pub wrap_free_pages : Memory → ℕ → Memory
wrap_free_pages m p = forget_alloc m p ((m.info p).type == alloc_type_pages) pages_freed

-- `none` is -EINVAL.
pub alloc_size : Memory → ℕ → Option ℕ
alloc_size m t = if ltb t alloc_type_max then some (m.alloc_sizes t) else none

pub wrapmem_init : Memory → Memory
wrapmem_init m = record m { allocs = []; slack_allocs = [] }

-- The first loop of wrapmem_exit, over the slack list.
pub free_slack : Memory → List ℕ → Memory
free_slack m [] = record m { slack_allocs = [] }
free_slack m (p ∷ ps) =
    free_slack
      (record (discharge m alloc_type_slack (m.slack_size p)) {
        slack_allocs = ps;
        released = m.released ++ kfreed p ∷ [];
      })
      ps

-- The last loop: each size is taken from the slack counter, as the code does.
pub free_leaks : Memory → List ℕ → Memory
free_leaks m [] = record m { allocs = [] }
free_leaks m (p ∷ ps) =
    let i = m.info p in
    let m' = record (discharge m alloc_type_slack i.size) { allocs = ps } in
    let freed = λ (f : Freed). record m' { released = m'.released ++ f ∷ [] } in
    free_leaks
      (if is_kmalloc i.type
        then freed (kfreed p)
        else if is_vmalloc i.type
        then freed (vfreed p)
        else if i.type == alloc_type_pages
        then freed (pages_freed p)
        else m')
      ps

pub wrapmem_exit : Memory → Memory
wrapmem_exit m = let m' = free_slack m m.slack_allocs in free_leaks m' m'.allocs
