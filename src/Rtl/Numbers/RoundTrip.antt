-- ===== src/Rtl/Numbers/RoundTrip.antt =====
-- driver/rtl.c: what RtlIntegerToUnicodeString writes, read back by the loop of
-- RtlUnicodeStringToInteger.
use native.Mathlib.Nat.{div-add-mod', mod-lt, div-lt_iff_lt-mul, div-le_self, pow-zero, pow-suc}
use ndiswrapper.Base.{
  ℕ, zero, suc, ◌+◌, ◌*◌, ◌/◌, ◌%◌, ◌^◌, ◌≤◌, ◌<◌, ◌≡◌, inl, inr, refl, ap, ◌∙◌, true, false, ◌&&◌,
  some, List, [], ◌∷◌, ◌++◌, arith, ◌==◌, leb, length, take, Bool-cases, length-append,
  status_success,
}
use ndiswrapper.Rtl.Strings.{CountedString, units}
use ndiswrapper.Rtl.Numbers.{
  Ctype, is_base, digit_value, parse_digits, digit_char, write_digits,
  rtl_integer_to_unicode_string,
}

-- What the kernel's tests decide on digits and lower-case letters.
pub record IsAscii (ct : Ctype) : Type 0 where
  pub digit : (c : ℕ) → c < 128 → ct.isdigit c ≡ (leb 48 c && leb c 57)
  pub letter : (c : ℕ) → 97 ≤ c → c ≤ 102 → ct.isxdigit c ≡ true
  pub lower : (c : ℕ) → 97 ≤ c → c ≤ 102 → ct.tolower c ≡ c

abbrev pub reversed : List ℕ → List ℕ
reversed [] = []
reversed (x ∷ xs) = reversed xs ++ x ∷ []

digit_char_range : (r : ℕ) → r < 16 → (digit_char r % 256 ≡ digit_char r) × (digit_char r < 128)
digit_char_range r h = ground arith

-- A digit that was written is read back.
digit_value-digit_char :
    (ct : Ctype) (base r : ℕ) → IsAscii ct → r < 16 → digit_value ct base (digit_char r) ≡ r
digit_value-digit_char ct base r a h = elim (Bool-cases (leb 10 r)) [
  | inl hex ↦
      let ge : 10 ≤ r = ground arith in
      let c : digit_char r ≡ r + 87 = ground arith in
      let no : (leb 48 (r + 87) && leb (r + 87) 57) ≡ false = ground arith in
      let m : (r + 87) % 256 ≡ r + 87 = omega arith in
      rw
        (
          c,
          m,
          a.digit (r + 87) (omega arith),
          no,
          a.letter (r + 87) (ground arith) (omega arith),
          a.lower (r + 87) (ground arith) (omega arith),
        )
        (omega arith)
  | inr dec ↦
      let c : digit_char r ≡ r + 48 = ground arith in
      let yes : (leb 48 (r + 48) && leb (r + 48) 57) ≡ true = ground arith in
      let m : (r + 48) % 256 ≡ r + 48 = omega arith in
      rw (c, m, a.digit (r + 48) (omega arith), yes) (omega arith)
]

parse_first :
    (ct : Ctype) (base n c : ℕ) (s : List ℕ) (res v : ℕ)
    → parse_digits ct base (suc n) (c ∷ s) res ≡ some (some v)
    → (leb base (digit_value ct base c) ≡ false)
      × (parse_digits ct base n s ((res * base + digit_value ct base c) % 2 ^ 32) ≡ some (some v))
unfolding parse_digits
parse_first ct base n c s res v e = ground arith

parse_digits-append :
    (ct : Ctype) (base : ℕ) (n : ℕ) (xs : List ℕ) (c res v : ℕ)
    → length xs ≡ n
    → digit_value ct base c < base
    → parse_digits ct base n xs res ≡ some (some v)
    → parse_digits ct base (suc n) (xs ++ c ∷ []) res
      ≡ some (some ((v * base + digit_value ct base c) % 2 ^ 32))
unfolding parse_digits
parse_digits-append ct base zero [] c res v l h e = ground arith
parse_digits-append ct base zero (x ∷ xs) c res v l h e = absurd (omega arith)
parse_digits-append ct base (suc n) [] c res v l h e = absurd (omega arith)
parse_digits-append ct base (suc n) (x ∷ xs) c res v l h e =
    let (small, rest) = parse_first ct base n x xs res v e in
    let step =
      parse_digits-append ct base n xs c ((res * base + digit_value ct base x) % 2 ^ 32) v
        (omega arith) h in
    rw small (step rest)

length-reversed : (xs : List ℕ) → length (reversed xs) ≡ length xs
length-reversed [] = refl
length-reversed (x ∷ xs) = length-append (reversed xs) (x ∷ []) ∙ omega (arith, length-reversed xs)

module _ (ct : Ctype) (base : ℕ) (a : IsAscii ct) (low : 1 < base) (high : base ≤ 16) where
  digit_below : (value : ℕ) → value % base < base
  digit_below value = mod-lt value (ground arith)

  small_value : (value : ℕ) → value < 2 ^ 32 → value % 2 ^ 32 ≡ value
  small_value value v = omega arith

  parse_step :
      (n value : ℕ) (xs : List ℕ)
      → length xs ≡ n
      → value < 2 ^ 32
      → parse_digits ct base n (reversed xs) 0 ≡ some (some (value / base))
      → parse_digits ct base (suc n) (reversed (digit_char (value % base) ∷ xs)) 0
        ≡ some (some value)
  parse_step n value xs l v e =
      let below = digit_below value in
      let d = digit_value-digit_char ct base (value % base) a (omega (arith, below)) in
      let step =
        parse_digits-append ct base n (reversed xs) (digit_char (value % base)) 0 (value / base)
          (length-reversed xs ∙ l) (rw d below) e in
      step ∙ rw (d, div-add-mod' value base) (ap (λ t. some (some t)) (small_value value v))

  -- With room for every digit, the loop writes them all, least significant first.
  write_digits_lem :
      (room value : ℕ) (buf : List ℕ)
      → value < base ^ room
      → value < 2 ^ 32
      → room ≤ length buf
      → (i : ℕ) × (out : List ℕ) × (write_digits base room value buf ≡ some (0, i, out))
        × (i ≤ room)
        × (length (take i out) ≡ i)
        × (parse_digits ct base i (reversed (take i out)) 0 ≡ some (some value))
  unfolding write_digits parse_digits
  write_digits_lem zero value buf v w r =
      let z : value ≡ 0 = ground (arith, pow-zero base) in
      rw z (0, buf, refl, ground arith, refl, refl)
  write_digits_lem (suc room) value [] v w r = absurd (omega arith)
  write_digits_lem (suc room) value (c ∷ buf) v w r = elim (Bool-cases (value == 0)) [
    | inl none_left ↦
        (0, c ∷ buf, rw none_left, ground arith, refl, (let z : value ≡ 0 = ground arith in rw z))
    | inr some_left ↦
        let (i, out, e, le, len, p) =
          write_digits_lem room (value / base) buf
            ((div-lt_iff_lt-mul (omega (arith, low))).1 (rw (← pow-suc base room) v))
            (omega (arith, w, div-le_self value base)) (omega arith) in
        (
          suc i,
          digit_char (value % base) ∷ out,
          rw (some_left, e),
          omega (arith, le),
          ap suc len,
          parse_step i value (take i out) len w p,
        )
  ]

-- Of a number below 2 ^ 32 that has room in the buffer, in base 2, 8, 10 or 16,
-- RtlIntegerToUnicodeString writes every digit inside the buffer and succeeds. Its digits stand in
-- reverse: read from the last one to the first, they are a number that the loop of
-- RtlUnicodeStringToInteger turns into the value again.
pub integer_digits_read_back :
    (ct : Ctype) (base value : ℕ) (ustring : CountedString)
    → IsAscii ct
    → is_base base ≡ true
    → value < 2 ^ 32
    → value < base ^ (ustring.max_length / 2)
    → ustring.max_length < 2 ^ 16
    → ustring.max_length / 2 ≤ length (units ustring)
    → (d : CountedString) × (rtl_integer_to_unicode_string value base ustring
        ≡ some (d, status_success))
      × (parse_digits ct base (d.length / 2) (reversed (take (d.length / 2) (units d))) 0
          ≡ some (some value))
unfolding rtl_integer_to_unicode_string
integer_digits_read_back ct base value ustring a b w v m r =
    let low : 1 < base = ground arith in
    let high : base ≤ 16 = ground arith in
    let (i, out, e, le, len, p) =
      write_digits_lem ct base a low high (ustring.max_length / 2) value (units ustring) v w r in
    let nz : (base == 0) ≡ false = ground arith in
    let same : i * 2 % 2 ^ 16 / 2 ≡ i = omega (arith, le, m) in
    (record ustring { length = i * 2 % 2 ^ 16; buf = some out }, rw (nz, b, e), rw same p)
