-- ===== src/NtList/Remove.antt =====
-- driver/winnt_types.h: RemoveEntryList, RemoveHeadList and RemoveTailList on a ring.
use mathlib.Core.List.{append-nil}
use ndiswrapper.Base.{
  ℕ, ◌≡◌, ◌≢◌, refl, sym, ap, ◌∙◌, true, false, none, some, List, [], ◌∷◌, ◌++◌, arith, has,
  Distinct, has-append, erase, update_ne, subst, Bool-cases, inl, inr, ◌==◌,
}
use ndiswrapper.NtList.{
  Heap, set_next, set_prev, remove_entry_list, remove_head_list, remove_tail_list,
}
use ndiswrapper.NtList.Ring.{
  Linked, Chain, last, Ring, last_has, has_ne, last-append, Chain-join, Chain-split, Chain-set_next,
  Chain-set_last, Chain-set_prev,
}

-- The heap after `p` and `n` are made neighbours, in the order of the two writes.
abbrev bridge : Heap → ℕ → ℕ → Heap
bridge h p n = set_prev (set_next h p n) n p

-- RemoveEntryList makes the neighbours of an entry neighbours, if the entry is not its own.
remove_bridges :
    (h : Heap) (p e n : ℕ)
    → Linked h p e
    → Linked h e n
    → p ≢ e
    → remove_entry_list h e ≡ bridge h p n
unfolding remove_entry_list
remove_bridges h p e n l m pe =
    let written : ℕ → ℕ → Heap = set_next h in
    let again : Heap → Heap = λ k. set_prev k (k e).next (k e).prev in
    let stays : written p n e ≡ h e = update_ne h p e (record (h p) { next = n }) pe in
    ap (λ u. again (written u (h e).next)) l.1
    ∙ ap (λ v. again (written p v)) m.0
    ∙ ap (λ d. set_prev (written p n) d.next d.prev) stays
    ∙ ap (λ v. set_prev (written p n) v (h e).prev) m.0
    ∙ ap (λ u. set_prev (written p n) n u) l.1

bridge-Chain :
    (h : Heap) (n a : ℕ) (xs : List ℕ)
    → has n xs ≡ false
    → Distinct (a ∷ xs)
    → Chain h a xs
    → Chain (bridge h (last a xs) n) a xs
bridge-Chain h n a xs fresh d c =
    Chain-set_prev _ n (last a xs) a xs fresh (Chain-set_last h n a xs d c)

bridge_link : (h : Heap) (p n : ℕ) → Linked (bridge h p n) p n
bridge_link h p n = ground arith

-- The chain behind the entry that becomes the neighbour.
behind-Chain :
    (h : Heap) (p x : ℕ) (xs : List ℕ)
    → has p (x ∷ xs) ≡ false
    → has x xs ≡ false
    → Chain h x xs
    → Chain (bridge h p x) x xs
behind-Chain h p x xs op ox c = Chain-set_prev _ x p x xs ox (Chain-set_next h p x x xs op c)

bridge_elsewhere :
    (h : Heap) (p n a b : ℕ) → a ≢ p → b ≢ n → Linked h a b → Linked (bridge h p n) a b
bridge_elsewhere h p n a b ap bn l = ground arith

-- In a list without repetitions, what stands before a point does not stand behind it.
apart : (a : ℕ) (xs ys : List ℕ) → Distinct (xs ++ ys) → has a xs ≡ true → has a ys ≡ false
apart a [] ys d g = absurd (ground arith)
apart a (x ∷ xs) ys d g = ground (arith, apart a xs ys d.1, has-append x xs ys)

apart_back : (a : ℕ) (xs ys : List ℕ) → Distinct (xs ++ ys) → has a ys ≡ true → has a xs ≡ false
apart_back a [] ys d g = refl
apart_back a (x ∷ xs) ys d g = ground (arith, apart_back a xs ys d.1, has-append x xs ys)

Distinct-front : (xs ys : List ℕ) → Distinct (xs ++ ys) → Distinct xs
Distinct-front [] ys d = tt
Distinct-front (x ∷ xs) ys d = ground (arith, Distinct-front xs ys d.1, has-append x xs ys)

Distinct-back : (xs ys : List ℕ) → Distinct (xs ++ ys) → Distinct ys
Distinct-back [] ys d = d
Distinct-back (x ∷ xs) ys d = Distinct-back xs ys d.1

Distinct-without : (e : ℕ) (xs ys : List ℕ) → Distinct (xs ++ e ∷ ys) → Distinct (xs ++ ys)
Distinct-without e [] ys d = d.1
Distinct-without e (x ∷ xs) ys d =
    ground (arith, Distinct-without e xs ys d.1, has-append x xs ys, has-append x xs (e ∷ ys))

between_end :
    (h : Heap) (e head : ℕ) (xs : List ℕ)
    → Ring h head (xs ++ e ∷ [])
    → Ring (remove_entry_list h e) head xs
between_end h e head xs r =
    let d : Distinct ((head ∷ xs) ++ e ∷ []) = r.distinct in
    let (front, link, _) = Chain-split h head xs e [] r.chain in
    let end : Linked h e head = rw (sym (last-append head xs e [])) r.closed in
    let other : has (last head xs) (e ∷ []) ≡ false =
      apart (last head xs) (head ∷ xs) (e ∷ []) d (last_has head xs) in
    let same : remove_entry_list h e ≡ bridge h (last head xs) head =
      remove_bridges h (last head xs) e head link end (ground arith) in
    rw same record {
      chain =
          bridge-Chain h head head xs (Distinct-front (head ∷ xs) (e ∷ []) d).0
            (Distinct-front (head ∷ xs) (e ∷ []) d) front;
      closed = bridge_link h (last head xs) head;
      distinct = Distinct-front (head ∷ xs) (e ∷ []) d;
    }

between_middle :
    (h : Heap) (e head : ℕ) (xs : List ℕ) (y : ℕ) (ys : List ℕ)
    → Ring h head (xs ++ e ∷ y ∷ ys)
    → Ring (remove_entry_list h e) head (xs ++ y ∷ ys)
between_middle h e head xs y ys r =
    let d : Distinct ((head ∷ xs) ++ e ∷ y ∷ ys) = r.distinct in
    let p = last head xs in
    let (front, link, back) = Chain-split h head xs e (y ∷ ys) r.chain in
    let behind : has p (e ∷ y ∷ ys) ≡ false =
      apart p (head ∷ xs) (e ∷ y ∷ ys) d (last_has head xs) in
    let before : has y (head ∷ xs) ≡ false =
      apart_back y (head ∷ xs) (e ∷ y ∷ ys) d (ground arith) in
    let db : Distinct (e ∷ y ∷ ys) = Distinct-back (head ∷ xs) (e ∷ y ∷ ys) d in
    let same : remove_entry_list h e ≡ bridge h p y =
      remove_bridges h p e y link back.0 (ground arith) in
    let end : Linked h (last y ys) head = rw (sym (last-append head xs e (y ∷ ys))) r.closed in
    let off : last y ys ≢ p = has_ne (last y ys) p (y ∷ ys) (last_has y ys) (ground arith) in
    rw same record {
      chain =
          Chain-join _ head xs y ys
            (bridge-Chain h y head xs (ground arith) (Distinct-front (head ∷ xs) (e ∷ y ∷ ys) d)
              front)
            (bridge_link h p y) (behind-Chain h p y ys (ground arith) db.1.0 back.1);
      closed =
          rw (last-append head xs y ys)
            (bridge_elsewhere h p y (last y ys) head off (ground arith) end);
      distinct = Distinct-without e (head ∷ xs) (y ∷ ys) d;
    }

-- Removing the entry `e` that stands between `xs` and `ys`.
pub remove_entry_list-between :
    (h : Heap) (e head : ℕ) (xs ys : List ℕ)
    → Ring h head (xs ++ e ∷ ys)
    → Ring (remove_entry_list h e) head (xs ++ ys)
remove_entry_list-between h e head xs [] r = rw (append-nil xs) (between_end h e head xs r)
remove_entry_list-between h e head xs (y ∷ ys) r = between_middle h e head xs y ys r

-- An entry of the list, with what stands before and behind it.
split_at :
    (e : ℕ) (xs : List ℕ)
    → has e xs ≡ true
    → (ys : List ℕ) × (zs : List ℕ) × (xs ≡ ys ++ e ∷ zs) × (erase e xs ≡ ys ++ zs)
split_at e [] o = absurd (ground arith)
split_at e (x ∷ xs) o = elim (Bool-cases (x == e)) [
  | inl found ↦ ([], xs, ground arith, rw found)
  | inr not_found ↦
      let (ys, zs, whole, rest) = split_at e xs (ground arith) in
      (x ∷ ys, zs, ap (λ l. x ∷ l) whole, rw not_found (ap (λ l. x ∷ l) rest))
]

-- RemoveEntryList of any entry takes it out of the list and leaves the others in order.
pub remove_entry_list-Ring :
    (h : Heap) (e head : ℕ) (xs : List ℕ)
    → has e xs ≡ true
    → Ring h head xs
    → Ring (remove_entry_list h e) head (erase e xs)
remove_entry_list-Ring h e head xs o r =
    let (ys, zs, whole, rest) = split_at e xs o in
    let split : Ring h head (ys ++ e ∷ zs) = subst (λ l. Ring h head l) whole r in
    subst (λ l. Ring (remove_entry_list h e) head l) (sym rest)
      (remove_entry_list-between h e head ys zs split)

pub remove_head_list-none :
    (h : Heap) (head : ℕ) → Ring h head [] → remove_head_list h head ≡ (h, none)
unfolding remove_head_list
remove_head_list-none h head r = ground (arith, r.closed.0)

pub remove_head_list-some :
    (h : Heap) (head x : ℕ) (xs : List ℕ)
    → Ring h head (x ∷ xs)
    → remove_head_list h head ≡ (remove_entry_list h x, some x)
unfolding remove_head_list
remove_head_list-some h head x xs r = ground (arith, r.chain.0.0, r.distinct.0)

pub remove_tail_list-none :
    (h : Heap) (head : ℕ) → Ring h head [] → remove_tail_list h head ≡ (h, none)
unfolding remove_tail_list
remove_tail_list-none h head r = ground (arith, r.closed.1)

pub remove_tail_list-some :
    (h : Heap) (head x : ℕ) (xs : List ℕ)
    → Ring h head (x ∷ xs)
    → remove_tail_list h head ≡ (remove_entry_list h (last x xs), some (last x xs))
unfolding remove_tail_list
remove_tail_list-some h head x xs r =
    let off : last x xs ≢ head = has_ne (last x xs) head (x ∷ xs) (last_has x xs) r.distinct.0 in
    ground (arith, r.closed.1)
