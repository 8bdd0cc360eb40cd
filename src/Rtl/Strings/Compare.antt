-- ===== src/Rtl/Strings/Compare.antt =====
-- driver/rtl.c: what the comparisons of counted strings decide.
use ndiswrapper.Base.{
  ℕ, zero, suc, ◌≤◌, ◌<◌, ◌/◌, ◌%◌, ◌≡◌, refl, ap, ◌∙◌, ◌↔◌, inl, inr, Bool, true, false, Option,
  some, List, [], ◌∷◌, arith, length, take, map, All, min, ◌==◌, if◌then◌else◌, map_some, ℤ, pos,
  negsuc, eqb_ℤ, sub_ℕ, ◌-ℤ◌, Bool-cases,
}
use ndiswrapper.Rtl.Strings.{
  CountedString, units, as_char, compare_loop, by_length, rtl_compare_string, rtl_equal_string,
  rtl_compare_unicode_string, rtl_equal_unicode_string,
}

pub eqb_ℤ_iff : (a b : ℤ) → (eqb_ℤ a b ≡ true) ↔ (a ≡ b)
eqb_ℤ_iff (pos a) (pos b) = ground arith
eqb_ℤ_iff (pos a) (negsuc b) = ground arith
eqb_ℤ_iff (negsuc a) (pos b) = ground arith
eqb_ℤ_iff (negsuc a) (negsuc b) = ground arith

-- A difference is 0 just when the two are equal.
diff_zero : (a b : ℤ) → (eqb_ℤ (a -ℤ b) (pos 0) ≡ true) ↔ (a ≡ b)
unfolding ◌-ℤ◌
diff_zero (pos a) (pos b) = ground arith
diff_zero (pos a) (negsuc b) = ground arith
diff_zero (negsuc a) (pos b) = ground arith
diff_zero (negsuc a) (negsuc b) = ground arith

cons_same :
    {P : Type 0} {x y : ℤ} {xs ys : List ℤ}
    → x ≡ y
    → P ↔ (xs ≡ ys)
    → P ↔ (◌≡◌ {A = List ℤ} (x ∷ xs) (y ∷ ys))
cons_same {x} {y} {xs} {ys} e i = (λ p. rw (e, i.0 p), λ q. i.1 (cc))

cons_differ :
    {P : Type 0} {x y : ℤ} {xs ys : List ℤ}
    → (P ↔ (x ≡ y))
    → ¬ P
    → P ↔ (◌≡◌ {A = List ℤ} (x ∷ xs) (y ∷ ys))
cons_differ {x} {y} {xs} {ys} d n = (λ p. absurd (n p), λ q. d.1 (cc))

module _ (value : ℕ → ℤ) where
  -- Within the two arrays the loop reads nothing else, and its result is 0 just when the values of
  -- the first `n` elements agree.
  compare_loop_lem :
      (n : ℕ) (p1 p2 : List ℕ)
      → n ≤ length p1
      → n ≤ length p2
      → (r : ℤ) × (compare_loop value n p1 p2 ≡ some r)
        × ((eqb_ℤ r (pos 0) ≡ true) ↔ (map value (take n p1) ≡ map value (take n p2)))
  unfolding compare_loop
  compare_loop_lem zero p1 p2 h1 h2 = (pos 0, refl, ground arith)
  compare_loop_lem (suc n) [] p2 h1 h2 = absurd (omega arith)
  compare_loop_lem (suc n) (a ∷ p1) [] h1 h2 = absurd (omega arith)
  compare_loop_lem (suc n) (a ∷ p1) (b ∷ p2) h1 h2 =
      let (r, e, i) = compare_loop_lem n p1 p2 (omega arith) (omega arith) in
      let d = diff_zero (value a) (value b) in
      elim (Bool-cases (eqb_ℤ (value a -ℤ value b) (pos 0))) [
        | inl same ↦ (r, rw same e, cons_same (d.0 same) i)
        | inr differ ↦ (value a -ℤ value b, rw differ, cons_differ d (λ e. ground arith))
      ]

-- The outcome of both RtlEqual functions from what the loop finds.
equal_lem :
    (s1 s2 : CountedString) (r : ℤ) (o : Option ℤ) {P : Type 0}
    → s1.length ≡ s2.length
    → o ≡ some r
    → (eqb_ℤ r (pos 0) ≡ true) ↔ P
    → (b : Bool) × (map_some (λ r. eqb_ℤ r (pos 0)) (map_some (by_length s1 s2) o) ≡ some b)
      × ((b ≡ true) ↔ P)
equal_lem s1 s2 r o l e i = (eqb_ℤ r (pos 0), rw (e, l) (by_length_zero s2.length r), i)
  where
    by_length_zero :
        (n : ℕ) (r : ℤ)
        → some (eqb_ℤ (if eqb_ℤ r (pos 0) then sub_ℕ n n else r) (pos 0)) ≡ some (eqb_ℤ r (pos 0))
    by_length_zero n (pos a) = ground arith
    by_length_zero n (negsuc a) = ground arith

abbrev pub folded : (ℕ → ℕ) → Bool → ℕ → ℤ
folded toupper true c = pos (toupper (c % 256))
folded toupper false c = pos (c % 256)

equal_unicode_eval :
    (toupper : ℕ → ℕ) (s1 s2 : CountedString) (case_insensitive : Bool)
    → s1.length ≡ s2.length
    → rtl_equal_unicode_string toupper s1 s2 case_insensitive
      ≡ map_some
          (λ r. eqb_ℤ r (pos 0))
          (map_some
            (by_length s1 s2)
            (compare_loop (folded toupper case_insensitive) (s1.length / 2) (units s1) (units s2)))
unfolding rtl_equal_unicode_string rtl_compare_unicode_string
equal_unicode_eval toupper s1 s2 true l =
    let m : min s1.length s2.length ≡ s1.length = ground arith in
    let q : (s1.length == s2.length) ≡ true = ground arith in rw (q, m)
equal_unicode_eval toupper s1 s2 false l =
    let m : min s1.length s2.length ≡ s1.length = ground arith in
    let q : (s1.length == s2.length) ≡ true = ground arith in rw (q, m)

-- RtlEqualUnicodeString of two strings of one length, each within its buffer, reads inside the
-- buffers only. It returns TRUE just when the low bytes of the units agree, which toupper maps first
-- if the case is ignored: the high bytes are not compared.
pub equal_unicode_low_bytes :
    (toupper : ℕ → ℕ) (s1 s2 : CountedString) (case_insensitive : Bool)
    → s1.length ≡ s2.length
    → s1.length / 2 ≤ length (units s1)
    → s2.length / 2 ≤ length (units s2)
    → (b : Bool) × (rtl_equal_unicode_string toupper s1 s2 case_insensitive ≡ some b)
      × ((b ≡ true) ↔ (
          map (folded toupper case_insensitive) (take (s1.length / 2) (units s1))
          ≡ map (folded toupper case_insensitive) (take (s1.length / 2) (units s2))))
equal_unicode_low_bytes toupper s1 s2 ci l h1 h2 =
    let (r, e, i) =
      compare_loop_lem (folded toupper ci) (s1.length / 2) (units s1) (units s2) h1 (rw l h2) in
    let (b, f, j) = equal_lem s1 s2 r _ l e i in (b, equal_unicode_eval toupper s1 s2 ci l ∙ f, j)

map_char :
    (xs ys : List ℕ)
    → All (λ c. c < 256) xs
    → All (λ c. c < 256) ys
    → (map as_char xs ≡ map as_char ys) ↔ (xs ≡ ys)
map_char [] [] a b = (λ _. refl, λ _. refl)
map_char [] (y ∷ ys) a b = (λ e. absurd (cc), λ e. absurd (cc))
map_char (x ∷ xs) [] a b = (λ e. absurd (cc), λ e. absurd (cc))
map_char (x ∷ xs) (y ∷ ys) a b =
    let rest = map_char xs ys a.1 b.1 in
    (
      λ e.
          let h : as_char x ≡ as_char y = cc in
          let t : xs ≡ ys = rest.0 (cc) in let same : x ≡ y = ground arith in rw (same, t),
      λ e. ap (map as_char) e,
    )

equal_string_eval :
    (toupper : ℕ → ℕ) (s1 s2 : CountedString)
    → s1.length ≡ s2.length
    → rtl_equal_string toupper s1 s2 false
      ≡ map_some
          (λ r. eqb_ℤ r (pos 0))
          (map_some (by_length s1 s2) (compare_loop as_char s1.length (units s1) (units s2)))
unfolding rtl_equal_string rtl_compare_string
equal_string_eval toupper s1 s2 l =
    let m : min s1.length s2.length ≡ s1.length = ground arith in
    let q : (s1.length == s2.length) ≡ true = ground arith in rw (q, m)

take-All : (P : ℕ → Type 0) (n : ℕ) (xs : List ℕ) → All P xs → All P (take n xs)
take-All P zero xs a = tt
take-All P (suc n) [] a = tt
take-All P (suc n) (x ∷ xs) a = (a.0, take-All P n xs a.1)

-- RtlEqualString of two strings of one length, each within its buffer, with the case respected:
-- it reads inside the buffers only and returns TRUE just when the bytes are the same.
pub equal_string_bytes :
    (toupper : ℕ → ℕ) (s1 s2 : CountedString)
    → s1.length ≡ s2.length
    → s1.length ≤ length (units s1)
    → s2.length ≤ length (units s2)
    → All (λ c. c < 256) (units s1)
    → All (λ c. c < 256) (units s2)
    → (b : Bool) × (rtl_equal_string toupper s1 s2 false ≡ some b)
      × ((b ≡ true) ↔ (take s1.length (units s1) ≡ take s1.length (units s2)))
equal_string_bytes toupper s1 s2 l h1 h2 a1 a2 =
    let (r, e, i) = compare_loop_lem as_char s1.length (units s1) (units s2) h1 (rw l h2) in
    let (b, f, j) = equal_lem s1 s2 r _ l e i in
    let m =
      map_char (take s1.length (units s1)) (take s1.length (units s2)) (take-All _ s1.length _ a1)
        (take-All _ s1.length _ a2) in
    (b, equal_string_eval toupper s1 s2 l ∙ f, (λ t. m.0 (j.0 t), λ t. j.1 (m.1 t)))
