-- ===== src/Rtl/Convert.antt =====
-- driver/rtl.c: conversions between the two kinds of counted strings, and RtlInit* and RtlFree*.
-- `allocated n` is the memory that ExAllocatePoolWithTag returns for n bytes (for a unicode_string
-- its 16-bit units), or `none` for NULL.
use ndiswrapper.Base.{
  ℕ, zero, suc, ◌+◌, ◌-◌, ◌*◌, ◌/◌, ◌%◌, ◌^◌, Bool, true, false, Option, none, some, List, [], ◌∷◌,
  ltb, if◌then◌else◌, map_some, ◌>>=◌, status_success, status_no_memory, status_buffer_too_small,
  status_buffer_overflow, ◌==◌,
}
use ndiswrapper.Rtl.Strings.{
  CountedString, units, wide_length, terminate, rtlx_ansi_string_to_unicode_size,
  rtlx_unicode_string_to_ansi_size,
}

-- A signed char stored in a 16-bit wchar_t.
abbrev pub widen : ℕ → ℕ
widen b = if ltb b 128 then b else 2 ^ 16 - 256 + b

-- A wchar_t stored in a char.
abbrev pub narrow : ℕ → ℕ
narrow c = c % 256

-- The first `n` elements of `src`, converted, in place of the first `n` of `dst`.
pub copy_converted : (ℕ → ℕ) → ℕ → List ℕ → List ℕ → Option (List ℕ)
copy_converted f zero src dst = some dst
copy_converted f (suc n) [] dst = none
copy_converted f (suc n) (x ∷ src) [] = none
copy_converted f (suc n) (x ∷ src) (y ∷ dst) = map_some (λ l. f x ∷ l) (copy_converted f n src dst)

-- The end of both conversions, with `dst.buf` and `dst.max_length` settled: `count` elements of
-- `size` bytes.
pub fill_converted : (ℕ → ℕ) → ℕ → ℕ → CountedString → CountedString → Option (CountedString × ℕ)
fill_converted f count size dst src = do
  l ← copy_converted f count (units src) (units dst)
  l' ← terminate (ltb (count * size) dst.max_length) count l
  some (record dst { length = count * size % 2 ^ 16; buf = some l' }, status_success)

-- The allocation of `max` bytes, and what follows it; and the test where nothing is allocated.
pub convert :
    (ℕ → ℕ)
    → (ℕ → Option (List ℕ))
    → ℕ
    → ℕ
    → CountedString
    → CountedString
    → Bool
    → Option (CountedString × ℕ)
convert f allocated count size dst src alloc =
    let max = (count * size + size) % 2 ^ 16 in
    let fresh : Option (CountedString × ℕ) = elim (allocated max) [
      | none ↦ some (record { length = 0; max_length = 0; buf = none }, status_no_memory)
      | some l ↦
          fill_converted f count size
            (record { length = dst.length; max_length = max; buf = some l }) src
    ] in
    let filled = fill_converted f count size dst src in
    if alloc
    then fresh
    else if ltb dst.max_length (count * size)
    then some (dst, status_buffer_too_small)
    else filled

pub rtl_ansi_string_to_unicode_string :
    (ℕ → Option (List ℕ)) → CountedString → CountedString → Bool → Option (CountedString × ℕ)
rtl_ansi_string_to_unicode_string allocated dst src alloc = do
  n ← rtlx_ansi_string_to_unicode_size src
  convert widen allocated (n / 2) 2 dst src alloc

pub rtl_unicode_string_to_ansi_string :
    (ℕ → Option (List ℕ)) → CountedString → CountedString → Bool → Option (CountedString × ℕ)
rtl_unicode_string_to_ansi_string allocated dst src alloc = do
  n ← rtlx_unicode_string_to_ansi_size src
  convert narrow allocated n 1 dst src alloc

-- toupper gets an int and converts it to unsigned char.
pub rtl_upcase_unicode_string :
    (ℕ → ℕ)
    → (ℕ → Option (List ℕ))
    → CountedString
    → CountedString
    → Bool
    → Option (CountedString × ℕ)
rtl_upcase_unicode_string toupper allocated dst src alloc =
    let upcase : CountedString → Option (CountedString × ℕ) = λ d.
      map_some (λ l. (record d { length = src.length; buf = some l }, status_success))
        (copy_converted (λ c. toupper (c % 256)) (src.length / 2) (units src) (units d)) in
    if alloc
    then elim (allocated src.length) [
      | none ↦ some (record dst { buf = none }, status_no_memory)
      | some l ↦ upcase (record dst { max_length = src.length; buf = some l })
    ]
    else if ltb dst.max_length src.length
    then some (dst, status_buffer_overflow)
    else upcase dst

-- The loop of RtlInitUnicodeString stops at a unit whose low byte is 0.
abbrev pub low_length : List ℕ → Option ℕ
low_length [] = none
low_length (c ∷ s) = let rest = map_some suc (low_length s) in if c % 256 == 0 then some 0 else rest

-- `dst` is not NULL here.
pub rtl_init_unicode_string : Option (List ℕ) → Option CountedString
rtl_init_unicode_string none = some (record { length = 0; max_length = 0; buf = none })
rtl_init_unicode_string (some src) = do
  i ← low_length src
  some (record { length = i * 2 % 2 ^ 16; max_length = (i + 1) * 2 % 2 ^ 16; buf = some src })

pub rtl_init_ansi_string : Option (List ℕ) → Option CountedString
rtl_init_ansi_string none = some (record { length = 0; max_length = 0; buf = none })
rtl_init_ansi_string (some src) = do
  i ← wide_length src
  some (record { length = i % 2 ^ 16; max_length = (i + 1) % 2 ^ 16; buf = some src })

-- The string after the call, and whether ExFreePool was called on its old `buf`.
pub rtl_free_unicode_string : CountedString → CountedString × Bool
rtl_free_unicode_string string = (
  record { length = 0; max_length = 0; buf = none },
  elim string.buf [ none ↦ false | some _ ↦ true ],
)
