-- ===== src/Interlocked/Stack.antt =====
-- driver/ntoskernel.h: PushEntrySList and PopEntrySList are a stack.
use ndiswrapper.Base.{
  ℕ, ◌+◌, ◌-◌, ◌%◌, ◌^◌, ◌≡◌, ◌≢◌, refl, false, List, [], ◌∷◌, arith, has, Distinct, length, update,
}
use ndiswrapper.Interlocked.{Slist, push_entry_slist, pop_entry_slist, initialize_slist_head}

-- The entries follow one another from `a` on, and the last link is NULL.
abbrev pub Links : (ℕ → ℕ) → ℕ → List ℕ → Type 0
Links f a [] = a ≡ 0
Links f a (x ∷ xs) = (a ≡ x) × Links f (f x) xs

-- The list has just the entries, none of them twice and none NULL, and its depth is their number
-- modulo 2 ^ 16.
pub record IsStack (s : Slist) (xs : List ℕ) : Type 0 where
  pub links : Links s.link s.head.next xs
  pub distinct : Distinct (0 ∷ xs)
  pub depth : s.head.depth ≡ length xs % 2 ^ 16

pub data SlistOp : Type 0 where
  push : ℕ → SlistOp
  pop : SlistOp

pub apply_op : Slist → SlistOp → Slist × ℕ
apply_op s (push e) = push_entry_slist s e
apply_op s pop = pop_entry_slist s

pub apply_ops : Slist → List SlistOp → Slist × List ℕ
apply_ops s [] = (s, [])
apply_ops s (op ∷ ops) =
    let (s', r) = apply_op s op in let (final, rs) = apply_ops s' ops in (final, r ∷ rs)

abbrev pub first : List ℕ → ℕ
first [] = 0
first (x ∷ xs) = x

abbrev pub rest : List ℕ → List ℕ
rest [] = []
rest (x ∷ xs) = xs

-- The operations on a list, each with the entry that it returns, and the entries that are pushed only
-- where they are not on the list.
unfoldable pub Allowed : List ℕ → List SlistOp → Type 0
Allowed xs [] = Unit
Allowed xs (push e ∷ ops) = (has e (0 ∷ xs) ≡ false) × Allowed (e ∷ xs) ops
Allowed xs (pop ∷ ops) = Allowed (rest xs) ops

pub stack_ops : List ℕ → List SlistOp → List ℕ × List ℕ
stack_ops xs [] = (xs, [])
stack_ops xs (push e ∷ ops) = let (final, rs) = stack_ops (e ∷ xs) ops in (final, first xs ∷ rs)
stack_ops xs (pop ∷ ops) = let (final, rs) = stack_ops (rest xs) ops in (final, first xs ∷ rs)

Links-first : (f : ℕ → ℕ) (a : ℕ) (xs : List ℕ) → Links f a xs → a ≡ first xs
Links-first f a [] l = l
Links-first f a (x ∷ xs) l = l.0

Links-update :
    (f : ℕ → ℕ) (e v a : ℕ) (xs : List ℕ)
    → has e xs ≡ false
    → Links f a xs
    → Links (update f e v) a xs
Links-update f e v a [] o l = l
Links-update f e v a (x ∷ xs) o l =
    let same : update f e v x ≡ f x = ground arith in
    (l.0, rw same (Links-update f e v (f x) xs (ground arith) l.1))

push-IsStack :
    (s : Slist) (e : ℕ) (xs : List ℕ)
    → has e (0 ∷ xs) ≡ false
    → IsStack s xs
    → IsStack (push_entry_slist s e).0 (e ∷ xs)
unfolding push_entry_slist
push-IsStack s e xs o c =
    let at : update s.link e s.head.next e ≡ s.head.next = ground arith in
    record {
      links =
          (refl, rw at (Links-update s.link e s.head.next s.head.next xs (ground arith) c.links));
      distinct = (ground (arith, c.distinct.0), (ground arith, c.distinct.1));
      depth = omega (arith, c.depth);
    }

pop_empty : (s : Slist) → s.head.next ≡ 0 → pop_entry_slist s ≡ (s, 0)
unfolding pop_entry_slist
pop_empty s e = ground (arith, e)

pop_first :
    (s : Slist) (x : ℕ)
    → s.head.next ≡ x
    → x ≢ 0
    → pop_entry_slist s ≡ (
      record s {
        head = record { next = s.link x; depth = (s.head.depth + (2 ^ 16 - 1)) % 2 ^ 16 };
      },
      x,
    )
unfolding pop_entry_slist
pop_first s x e n = rw e (ground arith)

pop-IsStack :
    (s : Slist) (xs : List ℕ)
    → IsStack s xs
    → IsStack (pop_entry_slist s).0 (rest xs) × ((pop_entry_slist s).1 ≡ first xs)
pop-IsStack s [] c = rw (pop_empty s c.links) (c, refl)
pop-IsStack s (x ∷ xs) c =
    let real : x ≢ 0 = ground (arith, c.distinct.0) in
    rw (pop_first s x c.links.0 real) (
      record {
        links = c.links.1;
        distinct = (ground (arith, c.distinct.0), c.distinct.1.1);
        depth = omega (arith, c.depth);
      },
      refl,
    )

push_returns :
    (s : Slist) (e : ℕ) (xs : List ℕ) → IsStack s xs → (push_entry_slist s e).1 ≡ first xs
unfolding push_entry_slist
push_returns s e xs c = Links-first s.link s.head.next xs c.links

initialize-IsStack : (s : Slist) → IsStack (initialize_slist_head s) []
unfolding initialize_slist_head
initialize-IsStack s = record { links = refl; distinct = (refl, tt); depth = refl }

ops_refine :
    (ops : List SlistOp) (s : Slist) (xs : List ℕ)
    → IsStack s xs
    → Allowed xs ops
    → IsStack (apply_ops s ops).0 (stack_ops xs ops).0
      × ((apply_ops s ops).1 ≡ (stack_ops xs ops).1)
unfolding apply_ops apply_op stack_ops Allowed
ops_refine [] s xs c a = (c, refl)
ops_refine (push e ∷ ops) s xs c a =
    let top : (push_entry_slist s e).1 ≡ first xs = push_returns s e xs c in
    let (final, rs) =
      ops_refine ops (push_entry_slist s e).0 (e ∷ xs) (push-IsStack s e xs a.0 c) a.1 in
    (final, rw (top, rs) refl)
ops_refine (pop ∷ ops) s xs c a =
    let (popped, top) = pop-IsStack s xs c in
    let (final, rs) = ops_refine ops (pop_entry_slist s).0 (rest xs) popped a in
    (final, rw (top, rs) refl)

-- A list that InitializeSListHead has set up is a stack over any sequence of PushEntrySList and
-- PopEntrySList, if only entries are pushed that are not NULL and not on the list: each call returns
-- the entry that was on top, or NULL where there is none, and the depth is the number of entries
-- modulo 2 ^ 16.
pub slist_ops_refine :
    (ops : List SlistOp) (s : Slist)
    → Allowed [] ops
    → let r = apply_ops (initialize_slist_head s) ops in
      IsStack r.0 (stack_ops [] ops).0 × (r.1 ≡ (stack_ops [] ops).1)
slist_ops_refine ops s a = ops_refine ops (initialize_slist_head s) [] (initialize-IsStack s) a
