-- ===== src/NtList/Refine.antt =====
-- driver/winnt_types.h: any sequence of list operations on a ring does what it does on the abstract
-- list of its entries.
use ndiswrapper.Base.{
  ℕ, ◌≡◌, refl, sym, Option, none, some, List, [], ◌∷◌, ◌++◌, arith, has, Distinct, erase,
  if◌then◌else◌, Bool-cases, Option-cases, inl, inr, subst, ◌>>=◌,
}
use ndiswrapper.NtList.{
  Heap, initialize_list_head, remove_entry_list, remove_head_list, remove_tail_list,
  insert_head_list, insert_tail_list,
}
use ndiswrapper.NtList.Ring.{last, Ring, last_has}
use ndiswrapper.NtList.Insert.{
  first_or_none, last_or_none, insert_head_list-Ring, insert_tail_list-Ring, insert_head_list-first,
  insert_tail_list-last,
}
use ndiswrapper.NtList.Remove.{
  remove_entry_list-Ring, remove_head_list-none, remove_head_list-some, remove_tail_list-none,
  remove_tail_list-some,
}

-- The operations on one list.
pub data ListOp : Type 0 where
  insert_head insert_tail remove_entry : ℕ → ListOp
  remove_head remove_tail : ListOp

-- An operation on the heap, with the pointer that it returns.
pub apply_op : Heap → ℕ → ListOp → Heap × Option ℕ
apply_op h head (insert_head e) = insert_head_list h head e
apply_op h head (insert_tail e) = insert_tail_list h head e
apply_op h head (remove_entry e) = (remove_entry_list h e, none)
apply_op h head remove_head = remove_head_list h head
apply_op h head remove_tail = remove_tail_list h head

pub apply_ops : Heap → ℕ → List ListOp → Heap × List (Option ℕ)
apply_ops h head [] = (h, [])
apply_ops h head (op ∷ ops) =
    let (h', r) = apply_op h head op in let (final, rs) = apply_ops h' head ops in (final, r ∷ rs)

-- The list from `x` on without its last entry.
unfoldable pub drop_last : ℕ → List ℕ → List ℕ
drop_last x [] = []
drop_last x (y ∷ ys) = x ∷ drop_last y ys

-- The abstract operation: `none` where the caller breaks the contract, that is inserts an entry that
-- is on the list or is the head, or removes an entry that is not on the list.
unfoldable pub list_op : ℕ → List ℕ → ListOp → Option (List ℕ × Option ℕ)
list_op head xs (insert_head e) =
    if has e (head ∷ xs) then none else some (e ∷ xs, first_or_none xs)
list_op head xs (insert_tail e) =
    if has e (head ∷ xs) then none else some (xs ++ e ∷ [], last_or_none xs)
list_op head xs (remove_entry e) = if has e xs then some (erase e xs, none) else none
list_op head [] remove_head = some ([], none)
list_op head (x ∷ xs) remove_head = some (xs, some x)
list_op head [] remove_tail = some ([], none)
list_op head (x ∷ xs) remove_tail = some (drop_last x xs, some (last x xs))

unfoldable pub list_ops : ℕ → List ℕ → List ListOp → Option (List ℕ × List (Option ℕ))
list_ops head xs [] = some (xs, [])
list_ops head xs (op ∷ ops) = do
  (ys, r) ← list_op head xs op
  (zs, rs) ← list_ops head ys ops
  some (zs, r ∷ rs)

erase_head : (x : ℕ) (xs : List ℕ) → erase x (x ∷ xs) ≡ xs
erase_head x xs = ground arith

erase-last : (x : ℕ) (xs : List ℕ) → Distinct (x ∷ xs) → erase (last x xs) (x ∷ xs) ≡ drop_last x xs
unfolding drop_last
erase-last x [] d = ground arith
erase-last x (y ∷ ys) d = ground (arith, erase-last y ys d.1, last_has y ys)

-- What the heap and the abstract list have in common after an operation.
abbrev Agrees : ℕ → Heap × Option ℕ → Option (List ℕ × Option ℕ) → Type 0
Agrees head c none = Unit
Agrees head c (some (ys, r)) = Ring c.0 head ys × (c.1 ≡ r)

-- An operation refines the abstract one.
op-Agrees :
    (op : ListOp) (h : Heap) (head : ℕ) (xs : List ℕ)
    → Ring h head xs
    → Agrees head (apply_op h head op) (list_op head xs op)
unfolding apply_op list_op
op-Agrees (insert_head e) h head xs ring = elim (Bool-cases (has e (head ∷ xs))) [
  | inl on ↦ rw on tt
  | inr off ↦
      rw off (insert_head_list-Ring h e head xs off ring, insert_head_list-first h e head xs ring)
]
op-Agrees (insert_tail e) h head xs ring = elim (Bool-cases (has e (head ∷ xs))) [
  | inl on ↦ rw on tt
  | inr off ↦
      rw off (insert_tail_list-Ring h e head xs off ring, insert_tail_list-last h e head xs ring)
]
op-Agrees (remove_entry e) h head xs ring = elim (Bool-cases (has e xs)) [
  | inl on ↦ rw on (remove_entry_list-Ring h e head xs on ring, refl)
  | inr off ↦ rw off tt
]
op-Agrees remove_head h head [] ring = rw (remove_head_list-none h head ring) (ring, refl)
op-Agrees remove_head h head (x ∷ xs) ring = rw (remove_head_list-some h head x xs ring) (
  subst (λ l. Ring (remove_entry_list h x) head l) (erase_head x xs)
      (remove_entry_list-Ring h x head (x ∷ xs) (ground arith) ring),
  refl,
)
op-Agrees remove_tail h head [] ring = rw (remove_tail_list-none h head ring) (ring, refl)
op-Agrees remove_tail h head (x ∷ xs) ring = rw (remove_tail_list-some h head x xs ring) (
  subst (λ l. Ring (remove_entry_list h (last x xs)) head l) (erase-last x xs ring.distinct.1)
      (remove_entry_list-Ring h (last x xs) head (x ∷ xs) (last_has x xs) ring),
  refl,
)

op_refines :
    (op : ListOp) (h : Heap) (head : ℕ) (xs ys : List ℕ) (r : Option ℕ)
    → Ring h head xs
    → list_op head xs op ≡ some (ys, r)
    → Ring (apply_op h head op).0 head ys × ((apply_op h head op).1 ≡ r)
op_refines op h head xs ys r ring e =
    subst (λ o. Agrees head (apply_op h head op) o) e (op-Agrees op h head xs ring)

pub initialize_list_head-Ring : (h : Heap) (head : ℕ) → Ring (initialize_list_head h head) head []
unfolding initialize_list_head
initialize_list_head-Ring h head = record {
  chain = tt;
  closed = ground arith;
  distinct = (refl, tt);
}

ops_step :
    (head : ℕ) (xs : List ℕ) (op : ListOp) (ops : List ListOp) (zs : List ℕ) (rs : List (Option ℕ))
    → list_ops head xs (op ∷ ops) ≡ some (zs, rs)
    → (ys : List ℕ) × (r : Option ℕ) × (rest : List (Option ℕ)) × (list_op head xs op
        ≡ some (ys, r))
      × (list_ops head ys ops ≡ some (zs, rest))
      × (rs ≡ r ∷ rest)
unfolding list_ops
ops_step head xs op ops zs rs e = elim (Option-cases (list_op head xs op)) [
  | inl fails ↦ absurd (ground arith)
  | inr ((ys, r), first) ↦ elim (Option-cases (list_ops head ys ops)) [
    | inl fails ↦ absurd (ground arith)
    | inr ((zs', rest), second) ↦ (ys, r, rest, first, ground arith, ground arith)
  ]
]

ops_refine :
    (ops : List ListOp) (h : Heap) (head : ℕ) (xs ys : List ℕ) (rs : List (Option ℕ))
    → Ring h head xs
    → list_ops head xs ops ≡ some (ys, rs)
    → Ring (apply_ops h head ops).0 head ys × ((apply_ops h head ops).1 ≡ rs)
unfolding apply_ops list_ops
ops_refine [] h head xs ys rs ring e =
    let l : xs ≡ ys = ground arith in (subst (λ l. Ring h head l) l ring, ground arith)
ops_refine (op ∷ ops) h head xs zs rs ring e =
    let (ys, r, rest, first, second, out) = ops_step head xs op ops zs rs e in
    let (ring', got) = op_refines op h head xs ys r ring first in
    let (final, gots) = ops_refine ops (apply_op h head op).0 head ys zs rest ring' second in
    (final, rw (got, gots) (sym out))

-- A list that InitializeListHead has set up and that any sequence of InsertHeadList, InsertTailList,
-- RemoveHeadList, RemoveTailList and RemoveEntryList has changed is a ring of just the entries of the
-- abstract list after the same operations, and each call returned the pointer that the abstract
-- operation returns. The callers keep to the contract: they insert only entries that are not on the
-- list and are not its head, and RemoveEntryList gets only entries that are on it.
pub list_ops_refine :
    (ops : List ListOp) (h : Heap) (head : ℕ) (ys : List ℕ) (rs : List (Option ℕ))
    → list_ops head [] ops ≡ some (ys, rs)
    → Ring (apply_ops (initialize_list_head h head) head ops).0 head ys
      × ((apply_ops (initialize_list_head h head) head ops).1 ≡ rs)
list_ops_refine ops h head ys rs e =
    ops_refine ops _ head [] ys rs (initialize_list_head-Ring h head) e
