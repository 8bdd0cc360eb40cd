-- ===== src/NtList/Ring.antt =====
-- driver/winnt_types.h: what it means that a ring of links represents a list, and what a write to one
-- link leaves of it.
use ndiswrapper.Base.{ℕ, ◌≡◌, ◌≢◌, refl, true, false, List, [], ◌∷◌, ◌++◌, arith, has, Distinct}
use ndiswrapper.NtList.{Heap, set_next, set_prev}

-- `a` and `b` are neighbours, in this order.
abbrev pub Linked : Heap → ℕ → ℕ → Type 0
Linked h a b = ((h a).next ≡ b) × ((h b).prev ≡ a)

-- The entries follow `a`, each linked with the one before.
abbrev pub Chain : Heap → ℕ → List ℕ → Type 0
Chain h a [] = Unit
Chain h a (x ∷ xs) = Linked h a x × Chain h x xs

-- The last entry, `a` where there is none.
abbrev pub last : ℕ → List ℕ → ℕ
last a [] = a
last a (x ∷ xs) = last x xs

-- The head and the entries are a ring, and no address stands in it twice.
pub record Ring (h : Heap) (head : ℕ) (xs : List ℕ) : Type 0 where
  pub chain : Chain h head xs
  pub closed : Linked h (last head xs) head
  pub distinct : Distinct (head ∷ xs)

pub last_has : (a : ℕ) (xs : List ℕ) → has (last a xs) (a ∷ xs) ≡ true
last_has a [] = ground arith
last_has a (x ∷ xs) = ground (arith, last_has x xs)

pub has_ne : (a b : ℕ) (xs : List ℕ) → has a xs ≡ true → has b xs ≡ false → a ≢ b
has_ne a b xs h g e = ground arith

pub last-append : (a : ℕ) (xs : List ℕ) (y : ℕ) (ys : List ℕ) → last a (xs ++ y ∷ ys) ≡ last y ys
last-append a [] y ys = refl
last-append a (x ∷ xs) y ys = last-append x xs y ys

-- A chain through `y` is the chain up to it, the link and the chain from it.
pub Chain-join :
    (h : Heap) (a : ℕ) (xs : List ℕ) (y : ℕ) (ys : List ℕ)
    → Chain h a xs
    → Linked h (last a xs) y
    → Chain h y ys
    → Chain h a (xs ++ y ∷ ys)
Chain-join h a [] y ys c l d = (l, d)
Chain-join h a (x ∷ xs) y ys c l d = (c.0, Chain-join h x xs y ys c.1 l d)

pub Chain-split :
    (h : Heap) (a : ℕ) (xs : List ℕ) (y : ℕ) (ys : List ℕ)
    → Chain h a (xs ++ y ∷ ys)
    → Chain h a xs × Linked h (last a xs) y × Chain h y ys
Chain-split h a [] y ys c = (tt, c.0, c.1)
Chain-split h a (x ∷ xs) y ys c =
    let (front, link, back) = Chain-split h x xs y ys c.1 in ((c.0, front), link, back)

-- A write to the `next` of an address outside of the chain.
pub Chain-set_next :
    (h : Heap) (p v a : ℕ) (xs : List ℕ)
    → has p (a ∷ xs) ≡ false
    → Chain h a xs
    → Chain (set_next h p v) a xs
Chain-set_next h p v a [] o c = tt
Chain-set_next h p v a (x ∷ xs) o c =
    (ground (arith, c.0), Chain-set_next h p v x xs (ground arith) c.1)

-- A write to the `next` of the last entry.
pub Chain-set_last :
    (h : Heap) (v a : ℕ) (xs : List ℕ)
    → Distinct (a ∷ xs)
    → Chain h a xs
    → Chain (set_next h (last a xs) v) a xs
Chain-set_last h v a [] d c = tt
Chain-set_last h v a (x ∷ xs) d c =
    let other : last x xs ≢ a = has_ne (last x xs) a (x ∷ xs) (last_has x xs) d.0 in
    (ground (arith, c.0), Chain-set_last h v x xs d.1 c.1)

-- A write to the `prev` of an address that is no entry of the chain.
pub Chain-set_prev :
    (h : Heap) (p v a : ℕ) (xs : List ℕ)
    → has p xs ≡ false
    → Chain h a xs
    → Chain (set_prev h p v) a xs
Chain-set_prev h p v a [] o c = tt
Chain-set_prev h p v a (x ∷ xs) o c =
    (ground (arith, c.0), Chain-set_prev h p v x xs (ground arith) c.1)
