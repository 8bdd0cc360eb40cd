-- ===== src/Examples/PeLinker.antt =====
-- driver/pe_linker.c: small images.
use ndiswrapper.Base.{
  ℕ, ◌+◌, ◌≡◌, ◌≢◌, ◌↔◌, refl, true, Option, none, some, [], ◌∷◌, arith, ◌==◌, if◌then◌else◌, ℤ,
  pos, negsuc,
}
use ndiswrapper.PeLinker.Bytes.{read_le}
use ndiswrapper.PeLinker.Headers.{NtHeaders, check_nt_hdr, IsLoadable, check_nt_hdr_decides}
use ndiswrapper.PeLinker.Expand.{
  Section, PeImage, copy_sections, expanded, fix_pe_image, expand_lays_out, expand_stays_inside,
}
use ndiswrapper.PeLinker.Symbols.{Export, import_loop}

abbrev dll_header : NtHeaders
dll_header = record {
  signature = 0x4550;
  machine = 0x8664;
  number_of_sections = 3;
  characteristics = 0x2022;
  magic = 0x20b;
  section_alignment = 4096;
  file_alignment = 512;
}

check_nt_hdr_decides_example :
    ((check_nt_hdr dll_header ≡ pos 2) ↔ IsLoadable dll_header)
    × (check_nt_hdr dll_header ≢ pos 0x2000)
check_nt_hdr_decides_example = check_nt_hdr_decides dll_header

abbrev text : Section
text = record { virtual_address = 16; size_of_raw_data = 8; pointer_to_raw_data = 4 }

abbrev data_section : Section
data_section = record { virtual_address = 32; size_of_raw_data = 4; pointer_to_raw_data = 12 }

-- The byte at `a` of the file is a + 100.
abbrev small_image : PeImage
small_image = record {
  image = λ a. a + 100;
  size = 16;
  size_of_image = 48;
  first = text;
  others = data_section ∷ [];
}

small_fits : (fix_pe_image true small_image).1 ≡ pos 0
unfolding fix_pe_image expanded copy_sections
small_fits = refl

expand_lays_out_example : (fix_pe_image true small_image).0.image 18 ≡ 106
expand_lays_out_example =
    expand_lays_out small_image [] text (data_section ∷ []) 18 (λ e. absurd (omega arith))
      small_fits refl refl (refl, tt)

expand_stays_inside_example : (fix_pe_image true small_image).0.image 50 ≡ 0
expand_stays_inside_example =
    expand_stays_inside small_image 50 (λ e. absurd (omega arith)) small_fits
      (omega arith, (omega arith, tt)) (omega arith) (omega arith)

abbrev zero_bytes : ℕ → ℕ
zero_bytes _ = 0

abbrev own : Export
own = record { dll = []; name = 65 ∷ []; addr = 1000 }

abbrev other : Export
other = record { dll = 66 ∷ []; name = 65 ∷ []; addr = 2000 }

-- The first thunk of this image is 1 and the second is 0; no name is known.
abbrev one_thunk : ℕ → ℕ
one_thunk a = if a == 0 then 1 else 0

abbrev unknown : (ℕ → ℕ) → ℕ → Option ℕ
unknown _ _ = none

thunk_set : read_le 8 one_thunk 0 ≡ 1
unfolding read_le
thunk_set = refl

import_run : import_loop unknown 2 0 100 0 (pos 0) one_thunk ≡ some (one_thunk, negsuc 0)
unfolding import_loop read_le
import_run = refl

thunk_ne : read_le 8 one_thunk 0 ≢ 0
thunk_ne e = absurd (omega (arith, e, thunk_set))

-- What the run returned.
abbrev returned : ℤ
returned = negsuc 0
