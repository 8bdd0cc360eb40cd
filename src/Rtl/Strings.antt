-- ===== src/Rtl/Strings.antt =====
-- driver/rtl.c: the comparison, the copies and the initialisation of counted strings. `buf` is the
-- memory from `buf` to the end of its allocation, in bytes for an ansi_string and in 16-bit units
-- for a unicode_string; the two strings of a call do not overlap. `toupper` is the kernel's, on an
-- unsigned char, and `allocated n` is what ExAllocatePoolWithTag returns for n bytes.
pub mod Compare
pub mod Copy
use ndiswrapper.Base.{
  ℕ, zero, suc, ◌+◌, ◌-◌, ◌*◌, ◌/◌, ◌%◌, ◌^◌, Bool, true, false, ◌&&◌, not, Option, none, some,
  List, [], ◌∷◌, ◌==◌, ltb, leb, if◌then◌else◌, min, length, get_elem?, set, ◌>>=◌, map_some, ℤ,
  pos, negsuc, eqb_ℤ, sub_ℕ, ◌-ℤ◌, status_success, status_no_memory, status_buffer_too_small,
  status_buffer_overflow,
}

-- `struct ansi_string` and `struct unicode_string`: the lengths are in bytes.
pub record CountedString : Type 0 where
  pub length : ℕ
  pub max_length : ℕ
  pub buf : Option (List ℕ)

-- What can be read from `buf`: nothing, if it is NULL.
abbrev pub units : CountedString → List ℕ
units s = elim s.buf [ none ↦ [] | some l ↦ l ]

-- `char` is signed.
abbrev pub as_char : ℕ → ℤ
as_char b = if ltb b 128 then pos b else negsuc (255 - b)

-- The bytes before the first that differs.
pub rtl_compare_memory : List ℕ → List ℕ → ℕ → Option ℕ
rtl_compare_memory x y zero = some 0
rtl_compare_memory [] y (suc len) = none
rtl_compare_memory (a ∷ x) [] (suc len) = none
rtl_compare_memory (a ∷ x) (b ∷ y) (suc len) =
    let rest = rtl_compare_memory x y len in if a == b then map_some suc rest else some 0

-- The loop of the comparisons, over `len` units.
pub compare_loop : (ℕ → ℤ) → ℕ → List ℕ → List ℕ → Option ℤ
unfolding ◌-ℤ◌
compare_loop value zero p1 p2 = some (pos 0)
compare_loop value (suc len) [] p2 = none
compare_loop value (suc len) (c1 ∷ p1) [] = none
compare_loop value (suc len) (c1 ∷ p1) (c2 ∷ p2) =
    let ret = value c1 -ℤ value c2 in
    let rest = compare_loop value len p1 p2 in if eqb_ℤ ret (pos 0) then rest else some ret

abbrev pub by_length : CountedString → CountedString → ℤ → ℤ
by_length s1 s2 ret = if eqb_ℤ ret (pos 0) then sub_ℕ s1.length s2.length else ret

pub rtl_compare_string : (ℕ → ℕ) → CountedString → CountedString → Bool → Option ℤ
rtl_compare_string toupper s1 s2 case_insensitive =
    let value = if case_insensitive then (λ c. pos (toupper c)) else as_char in
    map_some (by_length s1 s2) (compare_loop value (min s1.length s2.length) (units s1) (units s2))

pub rtl_compare_unicode_string : (ℕ → ℕ) → CountedString → CountedString → Bool → Option ℤ
rtl_compare_unicode_string toupper s1 s2 case_insensitive =
    let value = if case_insensitive then (λ c. pos (toupper (c % 256))) else (λ c. pos (c % 256)) in
    map_some (by_length s1 s2)
      (compare_loop value (min s1.length s2.length / 2) (units s1) (units s2))

pub rtl_equal_string : (ℕ → ℕ) → CountedString → CountedString → Bool → Option Bool
rtl_equal_string toupper s1 s2 case_insensitive =
    if s1.length == s2.length
    then map_some (λ r. eqb_ℤ r (pos 0)) (rtl_compare_string toupper s1 s2 case_insensitive)
    else some false

pub rtl_equal_unicode_string : (ℕ → ℕ) → CountedString → CountedString → Bool → Option Bool
rtl_equal_unicode_string toupper s1 s2 case_insensitive =
    if s1.length == s2.length
    then map_some (λ r. eqb_ℤ r (pos 0)) (rtl_compare_unicode_string toupper s1 s2 case_insensitive)
    else some false

-- memcpy of `n` bytes between byte arrays.
abbrev pub memcpy_bytes : ℕ → List ℕ → List ℕ → Option (List ℕ)
memcpy_bytes zero src dst = some dst
memcpy_bytes (suc n) [] dst = none
memcpy_bytes (suc n) (x ∷ src) [] = none
memcpy_bytes (suc n) (x ∷ src) (y ∷ dst) = map_some (λ l. x ∷ l) (memcpy_bytes n src dst)

-- memcpy of `n` bytes between arrays of 16-bit units; an odd byte is the low one of its unit.
abbrev pub memcpy_units : ℕ → List ℕ → List ℕ → Option (List ℕ)
memcpy_units zero src dst = some dst
memcpy_units (suc n) [] dst = none
memcpy_units (suc n) (x ∷ src) [] = none
memcpy_units (suc zero) (x ∷ src) (y ∷ dst) = some ((x % 256 + y / 256 * 256) ∷ dst)
memcpy_units (suc (suc n)) (x ∷ src) (y ∷ dst) = map_some (λ l. x ∷ l) (memcpy_units n src dst)

-- An operation on the memory that starts `i` units further on.
abbrev pub at_offset : ℕ → (List ℕ → Option (List ℕ)) → List ℕ → Option (List ℕ)
at_offset zero f l = f l
at_offset (suc i) f [] = none
at_offset (suc i) f (x ∷ l) = map_some (λ r. x ∷ r) (at_offset i f l)

abbrev pub store : List ℕ → ℕ → ℕ → Option (List ℕ)
store l i v = if ltb i (length l) then some (set l i v) else none

-- The store of a terminator, where the code's test says that there is room.
abbrev pub terminate : Bool → ℕ → List ℕ → Option (List ℕ)
terminate room i l = if room then store l i 0 else some l

-- The body of the two copies: `n` bytes from `src.buf` to `dst.buf`, then a terminator at `i`.
pub copy_string :
    (ℕ → List ℕ → List ℕ → Option (List ℕ))
    → ℕ
    → ℕ
    → CountedString
    → Option (List ℕ)
    → Option (List ℕ)
    → Option CountedString
copy_string memcpy n i dst (some from) (some to) = do
  copied ← memcpy n from to
  l ← terminate (ltb n dst.max_length) i copied
  some (record dst { length = n; buf = some l })
copy_string memcpy n i dst (some from) none = some (record dst { length = 0 })
copy_string memcpy n i dst none to = some (record dst { length = 0 })

pub rtl_copy_unicode_string : CountedString → Option CountedString → Option CountedString
rtl_copy_unicode_string dst none = some (record dst { length = 0 })
rtl_copy_unicode_string dst (some src) =
    let n = min src.length dst.max_length in copy_string memcpy_units n (n / 2) dst src.buf dst.buf

pub rtl_copy_string : CountedString → Option CountedString → Option CountedString
rtl_copy_string dst none = some (record dst { length = 0 })
rtl_copy_string dst (some src) =
    let n = min src.length dst.max_length in copy_string memcpy_bytes n n dst src.buf dst.buf

-- The units before the first zero.
abbrev pub wide_length : List ℕ → Option ℕ
wide_length [] = none
wide_length (c ∷ s) = let rest = map_some suc (wide_length s) in if c == 0 then some 0 else rest

-- `n` bytes from `src` put at the unit with the index `dst.length`, as the code does.
pub append_bytes : CountedString → ℕ → List ℕ → Option CountedString
append_bytes dst n src = do
  l ← at_offset dst.length (λ to. memcpy_units n src to) (units dst)
  let len = (dst.length + n) % 2 ^ 16
  l' ← terminate (ltb len dst.max_length) (len / 2) l
  some (record dst { length = len; buf = some l' })

pub rtl_append_unicode_to_string : CountedString → Option (List ℕ) → Option (CountedString × ℕ)
rtl_append_unicode_to_string dst none = some (dst, status_success)
rtl_append_unicode_to_string dst (some src) = do
  len ← wide_length src
  let appended = map_some (λ d. (d, status_success)) (append_bytes dst (len * 2) src)
  if ltb dst.max_length (dst.length + len * 2)
      then some (dst, status_buffer_too_small)
      else appended

pub rtl_append_unicode_string_to_string : CountedString → CountedString → Option (CountedString × ℕ)
rtl_append_unicode_string_to_string dst src =
    if ltb dst.max_length (src.length + dst.length)
    then some (dst, status_buffer_too_small)
    else if src.length == 0
    then some (dst, status_success)
    else map_some (λ d. (d, status_success)) (append_bytes dst src.length (units src))

-- The units before the first zero, at most `max`.
abbrev pub bounded_length : ℕ → List ℕ → Option ℕ
bounded_length zero s = some 0
bounded_length (suc max) [] = none
bounded_length (suc max) (c ∷ s) =
    let rest = map_some suc (bounded_length max s) in if c == 0 then some 0 else rest

pub rtlx_ansi_string_to_unicode_size : CountedString → Option ℕ
rtlx_ansi_string_to_unicode_size s = map_some (λ i. i * 2) (bounded_length s.max_length (units s))

pub rtlx_unicode_string_to_ansi_size : CountedString → Option ℕ
rtlx_unicode_string_to_ansi_size s = bounded_length s.max_length (units s)
