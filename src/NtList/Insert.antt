-- ===== src/NtList/Insert.antt =====
-- driver/winnt_types.h: InsertHeadList and InsertTailList on a ring.
use ndiswrapper.Base.{
  ℕ, ◌≡◌, ◌≢◌, sym, ap, false, Option, none, some, List, [], ◌∷◌, ◌++◌, arith, has, Distinct,
  append-Distinct,
}
use ndiswrapper.NtList.{Heap, is_list_empty, insert_list_entry, insert_head_list, insert_tail_list}
use ndiswrapper.NtList.Ring.{
  Linked, Chain, last, Ring, last_has, has_ne, last-append, Chain-join, Chain-set_next,
  Chain-set_last, Chain-set_prev,
}

-- The heap after the four writes of InsertListEntry.
insert-Chain :
    (h : Heap) (e n a : ℕ) (xs : List ℕ)
    → has n xs ≡ false
    → has e (a ∷ xs) ≡ false
    → Distinct (a ∷ xs)
    → Chain h a xs
    → Chain (insert_list_entry h e (last a xs) n) a xs
unfolding insert_list_entry
insert-Chain h e n a xs fresh_n fresh_e d c = Chain-set_last _ e a xs d (
    Chain-set_prev _ e (last a xs) a xs (ground arith)
      (Chain-set_next _ e n a xs fresh_e (Chain-set_prev h n e a xs fresh_n c)))

insert_links :
    (h : Heap) (e p n : ℕ)
    → e ≢ p
    → e ≢ n
    → Linked (insert_list_entry h e p n) p e × Linked (insert_list_entry h e p n) e n
unfolding insert_list_entry
insert_links h e p n ep en = ground arith

-- Links elsewhere stay.
insert_elsewhere :
    (h : Heap) (e p n a b : ℕ)
    → a ≢ e
    → a ≢ p
    → b ≢ e
    → b ≢ n
    → Linked h a b
    → Linked (insert_list_entry h e p n) a b
unfolding insert_list_entry
insert_elsewhere h e p n a b ae ap be bn l = ground arith

last_ne : (e head : ℕ) (xs : List ℕ) → has e (head ∷ xs) ≡ false → e ≢ last head xs
last_ne e head xs o = λ q. has_ne (last head xs) e (head ∷ xs) (last_has head xs) o (sym q)

-- Inserting an entry that is not on the list behind the last one.
insert_last :
    (h : Heap) (e head : ℕ) (xs : List ℕ)
    → has e (head ∷ xs) ≡ false
    → Ring h head xs
    → Ring (insert_list_entry h e (last head xs) head) head (xs ++ e ∷ [])
insert_last h e head xs o r =
    let (before, after) =
      insert_links h e (last head xs) head (last_ne e head xs o) (ground arith) in
    let d : Distinct (head ∷ xs) = r.distinct in
    record {
      chain = Chain-join _ head xs e [] (insert-Chain h e head head xs d.0 o d r.chain) before tt;
      closed = rw (last-append head xs e []) after;
      distinct = append-Distinct e (head ∷ xs) d o;
    }

pub insert_tail_list-Ring :
    (h : Heap) (e head : ℕ) (xs : List ℕ)
    → has e (head ∷ xs) ≡ false
    → Ring h head xs
    → Ring (insert_tail_list h head e).0 head (xs ++ e ∷ [])
unfolding insert_tail_list
insert_tail_list-Ring h e head xs o r = rw r.closed.1 (insert_last h e head xs o r)

-- The chain behind the first entry, which gets a new one before it.
insert_behind :
    (h : Heap) (e head x : ℕ) (xs : List ℕ)
    → has e (head ∷ x ∷ xs) ≡ false
    → Distinct (head ∷ x ∷ xs)
    → Chain h x xs
    → Chain (insert_list_entry h e head x) x xs
unfolding insert_list_entry
insert_behind h e head x xs o d c = Chain-set_next _ head e x xs d.0 (
    Chain-set_prev _ e head x xs (ground arith)
      (Chain-set_next _ e x x xs (ground arith) (Chain-set_prev h x e x xs d.1.0 c)))

-- Inserting an entry that is not on the list before the first one.
pub insert_head_list-Ring :
    (h : Heap) (e head : ℕ) (xs : List ℕ)
    → has e (head ∷ xs) ≡ false
    → Ring h head xs
    → Ring (insert_head_list h head e).0 head (e ∷ xs)
unfolding insert_head_list
insert_head_list-Ring h e head [] o r = rw r.closed.0 (insert_last h e head [] o r)
insert_head_list-Ring h e head (x ∷ xs) o r =
    let d : Distinct (head ∷ x ∷ xs) = r.distinct in
    let in_front : last x xs ≢ head = has_ne (last x xs) head (x ∷ xs) (last_has x xs) d.0 in
    let (before, after) = insert_links h e head x (ground arith) (ground arith) in
    rw r.chain.0.0 record {
      chain = (before, (after, insert_behind h e head x xs o d r.chain.1));
      closed =
          insert_elsewhere h e head x (last x xs) head (λ q. last_ne e x xs (ground arith) (sym q))
            in_front (ground arith) (ground arith) r.closed;
      distinct = (ground arith, (ground arith, d.1));
    }

-- What the insertions return, the neighbour that the entry has displaced.
unfoldable pub first_or_none : List ℕ → Option ℕ
first_or_none [] = none
first_or_none (x ∷ xs) = some x

unfoldable pub last_or_none : List ℕ → Option ℕ
last_or_none [] = none
last_or_none (x ∷ xs) = some (last x xs)

pub insert_head_list-first :
    (h : Heap) (e head : ℕ) (xs : List ℕ)
    → Ring h head xs
    → (insert_head_list h head e).1 ≡ first_or_none xs
unfolding insert_head_list is_list_empty first_or_none
insert_head_list-first h e head [] r = ground (arith, r.closed.0)
insert_head_list-first h e head (x ∷ xs) r = ground (arith, r.chain.0.0, r.distinct.0)

pub insert_tail_list-last :
    (h : Heap) (e head : ℕ) (xs : List ℕ)
    → Ring h head xs
    → (insert_tail_list h head e).1 ≡ last_or_none xs
unfolding insert_tail_list is_list_empty last_or_none
insert_tail_list-last h e head [] r = ground (arith, r.closed.0)
insert_tail_list-last h e head (x ∷ xs) r = ground (arith, r.chain.0.0, r.closed.1, r.distinct.0)
