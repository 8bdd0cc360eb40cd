-- ===== src/Examples/Rtl.antt =====
-- driver/rtl.c: counted strings and numbers on concrete buffers.
use ndiswrapper.Base.{
  ◌<◌, length, get_elem?, ℕ, ◌-◌, ◌/◌, ◌≡◌, ◌↔◌, refl, Bool, true, ◌&&◌, some, [], ◌∷◌, arith, leb,
  take, map, if◌then◌else◌, status_success,
}
use ndiswrapper.Rtl.Strings.{CountedString, units, rtl_copy_string, rtl_equal_unicode_string}
use ndiswrapper.Rtl.Strings.Copy.{copy_string_fits}
use ndiswrapper.Rtl.Strings.Compare.{folded, equal_unicode_low_bytes}
use ndiswrapper.Rtl.Numbers.{Ctype, rtl_integer_to_unicode_string, parse_digits}
use ndiswrapper.Rtl.Numbers.RoundTrip.{IsAscii, reversed, integer_digits_read_back}

-- toupper on ASCII.
abbrev upper : ℕ → ℕ
upper c = if leb 97 c && leb c 122 then c - 32 else c

abbrev ab : CountedString
ab = record { length = 2; max_length = 3; buf = some (97 ∷ 98 ∷ 0 ∷ []) }

abbrev ac : CountedString
ac = record { length = 2; max_length = 2; buf = some (97 ∷ 99 ∷ []) }

-- U+0141 and U+0041 have the same low byte.
abbrev wide_a : CountedString
wide_a = record { length = 2; max_length = 2; buf = some (0x141 ∷ []) }

abbrev plain_a : CountedString
plain_a = record { length = 2; max_length = 2; buf = some (0x61 ∷ []) }

equal_unicode_low_bytes_example :
    (b : Bool) × (rtl_equal_unicode_string upper wide_a plain_a true ≡ some b)
    × ((b ≡ true) ↔ (
        map (folded upper true) (take 1 (units wide_a))
        ≡ map (folded upper true) (take 1 (units plain_a))))
equal_unicode_low_bytes_example =
    equal_unicode_low_bytes upper wide_a plain_a true refl (omega arith) (omega arith)

abbrev ascii : Ctype
ascii = record {
  isdigit = λ c. leb 48 c && leb c 57;
  isxdigit = λ c. leb 97 c && leb c 102;
  tolower = λ c. c;
}

ascii-IsAscii : IsAscii ascii
ascii-IsAscii = record {
  digit = λ c h. refl;
  letter = λ c l h. ground arith;
  lower = λ c l h. refl;
}

abbrev room_for_four : CountedString
room_for_four = record { length = 0; max_length = 8; buf = some (0 ∷ 0 ∷ 0 ∷ 0 ∷ []) }

integer_digits_read_back_example :
    (d : CountedString) × (rtl_integer_to_unicode_string 2748 16 room_for_four
      ≡ some (d, status_success))
    × (parse_digits ascii 16 (d.length / 2) (reversed (take (d.length / 2) (units d))) 0
        ≡ some (some 2748))
integer_digits_read_back_example =
    integer_digits_read_back ascii 16 2748 room_for_four ascii-IsAscii refl (omega arith)
      (omega arith) (omega arith) (omega arith)

abbrev short_room : CountedString
short_room = record { length = 0; max_length = 4; buf = some (9 ∷ 9 ∷ 9 ∷ 9 ∷ []) }

copy_string_fits_example :
    (d : CountedString) × (rtl_copy_string short_room (some ab) ≡ some d)
    × (d.length ≡ 2)
    × (take d.length (units d) ≡ take d.length (97 ∷ 98 ∷ 0 ∷ []))
    × (length (units d) ≡ 4)
    × (d.length < 4 → get_elem? (units d) d.length ≡ some 0)
copy_string_fits_example =
    copy_string_fits short_room ab (97 ∷ 98 ∷ 0 ∷ []) (9 ∷ 9 ∷ 9 ∷ 9 ∷ []) refl refl (omega arith)
      (omega arith)
