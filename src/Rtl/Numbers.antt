-- ===== src/Rtl/Numbers.antt =====
-- driver/rtl.c: RtlUnicodeStringToInteger, RtlCharToInteger, RtlIntegerToUnicodeString and the byte
-- swaps. `isdigit`, `isxdigit` and `tolower` are the kernel's, on an unsigned char. The result of a
-- parser is the status and what it writes to `*value`, if it writes.
pub mod RoundTrip
use ndiswrapper.Base.{
  ℕ, zero, suc, ◌+◌, ◌-◌, ◌*◌, ◌/◌, ◌%◌, ◌^◌, Bool, true, false, ◌&&◌, ◌||◌, Option, none, some,
  List, [], ◌∷◌, ◌==◌, leb, if◌then◌else◌, length, get_elem?, set, drop, ◌>>=◌, map_some, not,
  status_success, status_invalid_parameter, status_buffer_overflow,
}
use ndiswrapper.Rtl.Strings.{CountedString, units, store}

pub record Ctype : Type 0 where
  pub isdigit : ℕ → Bool
  pub isxdigit : ℕ → Bool
  pub tolower : ℕ → ℕ

abbrev pub is_base : ℕ → Bool
is_base base = base == 2 || base == 8 || base == 10 || base == 16

-- The index after the spaces, of at most `n`.
pub skip_spaces : List ℕ → ℕ → ℕ → Option ℕ
skip_spaces s zero i = some i
skip_spaces s (suc n) i = do
  c ← get_elem? s i
  let rest = skip_spaces s n (suc i)
  if c == 32 then rest else some i

-- The index after the sign, and whether it is '-'.
pub read_sign : List ℕ → ℕ → Option (ℕ × Bool)
read_sign s i = do
  c ← get_elem? s i
  some (if c == 43 then (suc i, false) else if c == 45 then (suc i, true) else (i, false))

-- What follows a leading '0': the index and the base.
pub read_letter : List ℕ → ℕ → Option (ℕ × ℕ)
read_letter s i = do
  c ← get_elem? s i
  some (
      if c == 98
      then (suc i, 2)
      else if c == 111
      then (suc i, 8)
      else if c == 120
      then (suc i, 16)
      else (i, 10))

-- `room` is the code's test before it looks for a '0'.
pub read_base : List ℕ → ℕ → ℕ → Bool → Option (ℕ × ℕ)
read_base s i base room =
    let prefixed = (do
      c ← get_elem? s i
      let letter = read_letter s (suc i)
      if c == 48 then letter else some (i, 10)) in
    if base == 0 then (if room then prefixed else some (i, 10)) else some (i, base)

abbrev pub digit_value : Ctype → ℕ → ℕ → ℕ
digit_value ct base c =
    let low = c % 256 in
    if ct.isdigit low then c - 48 else if ct.isxdigit low then ct.tolower low - 97 + 10 else base

-- The loop over `n` characters. The inner `none` is STATUS_INVALID_PARAMETER.
pub parse_digits : Ctype → ℕ → ℕ → List ℕ → ℕ → Option (Option ℕ)
parse_digits ct base zero s res = some (some res)
parse_digits ct base (suc n) [] res = none
parse_digits ct base (suc n) (c ∷ s) res =
    let v = digit_value ct base c in
    let rest = parse_digits ct base n s ((res * base + v) % 2 ^ 32) in
    if leb base v then some none else rest

-- `*value = sign * res`, in 32 bits.
abbrev pub signed_value : Bool → ℕ → ℕ
signed_value negative res = if negative then (2 ^ 32 - res) % 2 ^ 32 else res

abbrev pub parsed : Bool → Option ℕ → ℕ × Option ℕ
parsed negative none = (status_invalid_parameter, none)
parsed negative (some res) = (status_success, some (signed_value negative res))

-- `len / 2 - 2` is a 64-bit size_t.
pub rtl_unicode_string_to_integer : Ctype → CountedString → ℕ → Option (ℕ × Option ℕ)
rtl_unicode_string_to_integer ct ustring base =
    let len = ustring.length / 2 in
    let s = units ustring in
    let body = (do
      i0 ← skip_spaces s len 0
      (i1, negative) ← read_sign s i0
      (i, b) ← read_base s i1 base (leb i1 ((len + 2 ^ 64 - 2) % 2 ^ 64))
      let digits = map_some (parsed negative) (parse_digits ct b (len - i) (drop i s) 0)
      if is_base b then digits else some (status_invalid_parameter, none)) in
    if ustring.length == 0 then some (status_success, some 0) else body

-- The spaces of a string that ends with a zero byte.
pub skip_blanks : List ℕ → ℕ → Option ℕ
skip_blanks [] i = none
skip_blanks (c ∷ s) i = let rest = skip_blanks s (suc i) in if c == 32 then rest else some i

pub parse_chars : Ctype → ℕ → List ℕ → ℕ → Option (Option ℕ)
parse_chars ct base [] res = none
parse_chars ct base (c ∷ s) res =
    let v = digit_value ct base c in
    let rest = parse_chars ct base s ((res * base + v) % 2 ^ 32) in
    if c == 0 then some (some res) else if leb base v then some none else rest

pub rtl_char_to_integer : Ctype → Option (List ℕ) → ℕ → Option (ℕ × Option ℕ)
rtl_char_to_integer ct none base = some (status_invalid_parameter, none)
rtl_char_to_integer ct (some s) base = do
  i0 ← skip_blanks s 0
  (i1, negative) ← read_sign s i0
  (i, b) ← read_base s i1 base true
  let digits = map_some (parsed negative) (parse_chars ct b (drop i s) 0)
  if is_base b then digits else some (status_invalid_parameter, none)

abbrev pub digit_char : ℕ → ℕ
digit_char r = if leb 10 r then r + 97 - 10 else r + 48

-- The loop, with room for `room` units: what is left of the value, the units written and the buffer
-- behind them.
pub write_digits : ℕ → ℕ → ℕ → List ℕ → Option (ℕ × ℕ × List ℕ)
write_digits base zero value buf = some (value, 0, buf)
write_digits base (suc room) value [] = if value == 0 then some (0, 0, []) else none
write_digits base (suc room) value (c ∷ buf) =
    let rest =
      map_some (λ r. (r.0, suc r.1, digit_char (value % base) ∷ r.2))
        (write_digits base room (value / base) buf) in
    if value == 0 then some (0, 0, c ∷ buf) else rest

pub rtl_integer_to_unicode_string : ℕ → ℕ → CountedString → Option (CountedString × ℕ)
rtl_integer_to_unicode_string value base ustring =
    let b = if base == 0 then 10 else base in
    let write = (do
      (left, i, buf) ← write_digits b (ustring.max_length / 2) value (units ustring)
      some (
          if left == 0
          then (record ustring { length = i * 2 % 2 ^ 16; buf = some buf }, status_success)
          else (record ustring { buf = some buf }, status_buffer_overflow))) in
    if is_base b then write else some (ustring, status_invalid_parameter)
