-- ===== src/NdisPool/Lists.antt =====
-- Lists of addresses without repetitions: an entry that moves from one list to another.
use ndiswrapper.Base.{
  ℕ, suc, ◌≡◌, ◌≢◌, refl, sym, ◌∙◌, true, false, List, [], ◌∷◌, ◌++◌, arith, ◌==◌, has, Distinct,
  has-append, erase, length, Bool-cases, inl, inr,
}

pub has_erase_other : (a b : ℕ) (xs : List ℕ) → a ≢ b → has a (erase b xs) ≡ has a xs
has_erase_other a b [] n = refl
has_erase_other a b (x ∷ xs) n = ground (arith, has_erase_other a b xs n)

pub length-erase : (a : ℕ) (xs : List ℕ) → has a xs ≡ true → suc (length (erase a xs)) ≡ length xs
length-erase a [] h = absurd (ground arith)
length-erase a (x ∷ xs) h = ground (arith, length-erase a xs)

pub has-erase-append :
    (b a : ℕ) (xs ys : List ℕ) → has b (xs ++ ys) ≡ false → b ≢ a → has b (erase a xs ++ ys) ≡ false
has-erase-append b a xs ys h n =
    has-append b (erase a xs) ys ∙ rw (has_erase_other b a xs n) (sym (has-append b xs ys) ∙ h)

pub insert_Distinct :
    (a : ℕ) (xs ys : List ℕ)
    → has a (xs ++ ys) ≡ false
    → Distinct (xs ++ ys)
    → Distinct (xs ++ a ∷ ys)
insert_Distinct a [] ys h d = (h, d)
insert_Distinct a (x ∷ xs) ys h d =
    ground (arith, insert_Distinct a xs ys, d.0, d.1, has-append x xs (a ∷ ys), has-append x xs ys)

-- Moving an entry of the first part of a list without repetitions to the front of the second.
pub release_Distinct :
    (a : ℕ) (xs ys : List ℕ)
    → has a xs ≡ true
    → Distinct (xs ++ ys)
    → Distinct (erase a xs ++ a ∷ ys)
release_Distinct a [] ys h d = absurd (ground arith)
release_Distinct a (x ∷ xs) ys h d = elim (Bool-cases (x == a)) [
  | inl e ↦
      let same : x ≡ a = ground arith in rw e (insert_Distinct a xs ys (ground (arith, d.0)) d.1)
  | inr n ↦ rw n (
    has-erase-append x a xs (a ∷ ys)
        (has-append x xs (a ∷ ys) ∙ ground (arith, d.0, has-append x xs ys)) (ground arith),
    release_Distinct a xs ys (ground arith) d.1,
  )
]

pub drop_Distinct : (a : ℕ) (xs ys : List ℕ) → Distinct (xs ++ ys) → Distinct (erase a xs ++ ys)
drop_Distinct a [] ys d = d
drop_Distinct a (x ∷ xs) ys d = elim (Bool-cases (x == a)) [
  | inl e ↦ rw e d.1
  | inr n ↦ rw n (has-erase-append x a xs ys d.0 (ground arith), drop_Distinct a xs ys d.1)
]

pub reuse_Distinct : (p : ℕ) (xs ys : List ℕ) → Distinct (xs ++ p ∷ ys) → Distinct (p ∷ xs ++ ys)
reuse_Distinct p [] ys d = d
reuse_Distinct p (x ∷ xs) ys d =
    ground (arith, reuse_Distinct p xs ys d.1, d.0, has-append x xs (p ∷ ys), has-append x xs ys)
