-- ===== src/Wrapmem/Balance.antt =====
-- driver/wrapmem.c: each counter is the sum of the sizes of what is allocated.
use ndiswrapper.Base.{
  ℕ, ◌+◌, ◌%◌, ◌^◌, ◌<◌, ◌≡◌, ◌≢◌, refl, Bool, true, false, List, [], ◌∷◌, ◌++◌, arith, ◌==◌,
  if◌then◌else◌, erase, update, has, Distinct, erase-Distinct, append-Distinct, erase-append,
  Bool-cases, inl, inr,
}
use ndiswrapper.Wrapmem.{
  Freed, kfreed, AllocInfo, Memory, atomic_add, atomic_sub, record_alloc, forget_alloc,
  wrap_kmalloc, wrap_kfree,
}

-- The sizes of the allocations of one type.
abbrev pub total : (ℕ → AllocInfo) → ℕ → List ℕ → ℕ
total info t [] = 0
total info t (p ∷ ps) = (if (info p).type == t then (info p).size else 0) + total info t ps

-- The counter of `t` is the sum over what is allocated, in 32 bits, and nothing is listed twice.
pub record IsBalanced (m : Memory) (t : ℕ) : Type 0 where
  pub counter : m.alloc_sizes t ≡ total m.info t m.allocs % 2 ^ 32
  pub distinct : Distinct m.allocs

total-append :
    (info : ℕ → AllocInfo) (t : ℕ) (xs : List ℕ) (p : ℕ)
    → total info t (xs ++ p ∷ []) ≡ total info t xs + total info t (p ∷ [])
total-append info t [] p = omega arith
total-append info t (x ∷ xs) p = omega (arith, total-append info t xs p)

total-update :
    (info : ℕ → AllocInfo) (t p : ℕ) (i : AllocInfo) (xs : List ℕ)
    → has p xs ≡ false
    → total (update info p i) t xs ≡ total info t xs
total-update info t p i [] h = refl
total-update info t p i (x ∷ xs) h = ground (arith, total-update info t p i xs)

total-erase :
    (info : ℕ → AllocInfo) (t p : ℕ) (xs : List ℕ)
    → has p xs ≡ true
    → total info t xs
      ≡ (if (info p).type == t then (info p).size else 0) + total info t (erase p xs)
total-erase info t p [] h = ground arith
total-erase info t p (x ∷ xs) h = ground (arith, total-erase info t p xs)

sub_of_add : (a n s : ℕ) → s ≡ n + a → atomic_sub (s % 2 ^ 32) n ≡ a % 2 ^ 32
sub_of_add a n s e = omega arith

add_of_add : (a n s : ℕ) → s ≡ a + n → atomic_add (a % 2 ^ 32) n ≡ s % 2 ^ 32
add_of_add a n s e = omega arith

counter_charged :
    (m : Memory) (p t size u : ℕ)
    → has p m.allocs ≡ false
    → m.alloc_sizes u ≡ total m.info u m.allocs % 2 ^ 32
    → update m.alloc_sizes t (atomic_add (m.alloc_sizes t) size) u
      ≡ total (update m.info p (record { type = t; size = size })) u (m.allocs ++ p ∷ []) % 2 ^ 32
counter_charged m p t size u fresh b =
    let i : AllocInfo = record { type = t; size = size } in
    ground (
      arith,
      b,
      total-append (update m.info p i) u m.allocs p,
      total-update m.info u p i m.allocs fresh,
    )

counter_discharged :
    (m : Memory) (p u : ℕ)
    → has p m.allocs ≡ true
    → m.alloc_sizes u ≡ total m.info u m.allocs % 2 ^ 32
    → update m.alloc_sizes
        (m.info p).type
        (atomic_sub (m.alloc_sizes (m.info p).type) (m.info p).size)
        u
      ≡ total m.info u (erase p m.allocs) % 2 ^ 32
counter_discharged m p u listed b = ground (
  arith,
  b,
  total-erase m.info u p m.allocs listed,
  sub_of_add (total m.info u (erase p m.allocs)) (m.info p).size (total m.info u m.allocs),
)

-- An allocation of any type, at an address that is not in use, keeps every counter equal to the sum
-- of the sizes that are allocated, modulo 2 ^ 32.
pub record_alloc-IsBalanced :
    (m : Memory) (p t size u : ℕ)
    → has p m.allocs ≡ false
    → IsBalanced m u
    → IsBalanced (record_alloc m p t size).0 u
unfolding record_alloc
record_alloc-IsBalanced m p t size u fresh b = elim (Bool-cases (p == 0)) [
  | inl null ↦ rw null b
  | inr ok ↦ rw ok (record {
    counter = counter_charged m p t size u fresh b.counter;
    distinct = append-Distinct p m.allocs b.distinct fresh;
  })
]

-- The free of a listed allocation, by the function for its type or by another, keeps every counter
-- equal to the sum of the sizes that are allocated, modulo 2 ^ 32.
pub forget_alloc-IsBalanced :
    (m : Memory) (p : ℕ) (right : Bool) (free : ℕ → Freed) (u : ℕ)
    → has p m.allocs ≡ true
    → IsBalanced m u
    → IsBalanced (forget_alloc m p right free) u
unfolding forget_alloc
forget_alloc-IsBalanced m p true free u listed b = record {
  counter = counter_discharged m p u listed b.counter;
  distinct = erase-Distinct p m.allocs b.distinct;
}
forget_alloc-IsBalanced m p false free u listed b = record {
  counter = counter_discharged m p u listed b.counter;
  distinct = erase-Distinct p m.allocs b.distinct;
}

-- wrap_kmalloc with memory from the kernel, and wrap_kfree of what it returned: each counter below
-- 2 ^ 32 is as before, the list too, and the memory is back with the kernel.
pub kfree-kmalloc :
    (m : Memory) (p : ℕ) (atomic : Bool) (size u : ℕ)
    → p ≢ 0
    → has p m.allocs ≡ false
    → m.alloc_sizes u < 2 ^ 32
    → let m' = wrap_kfree (wrap_kmalloc m p atomic size).0 p in
      (m'.alloc_sizes u ≡ m.alloc_sizes u)
      × (m'.allocs ≡ m.allocs)
      × (m'.released ≡ m.released ++ kfreed p ∷ [])
unfolding wrap_kfree wrap_kmalloc record_alloc forget_alloc
kfree-kmalloc m p true size u nz fresh small =
    let e : (p == 0) ≡ false = ground arith in rw e (ground (arith, erase-append p m.allocs fresh))
kfree-kmalloc m p false size u nz fresh small =
    let e : (p == 0) ≡ false = ground arith in rw e (ground (arith, erase-append p m.allocs fresh))
