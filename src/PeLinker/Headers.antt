-- ===== src/PeLinker/Headers.antt =====
-- driver/pe_linker.c: check_nt_hdr.
use ndiswrapper.Base.{
  ℕ, ◌/◌, ◌%◌, ◌≤◌, ◌≡◌, ◌≢◌, ◌↔◌, Bool, true, false, ◌&&◌, not, arith, ◌==◌, ltb, if◌then◌else◌, ℤ,
  pos, negsuc,
}

abbrev pub einval : ℤ
einval = negsuc 21

abbrev pub image_file_relocs_stripped : ℕ
image_file_relocs_stripped = 0x0001

abbrev pub image_file_executable_image : ℕ
image_file_executable_image = 0x0002

abbrev pub image_file_large_address_aware : ℕ
image_file_large_address_aware = 0x0020

abbrev pub image_file_dll : ℕ
image_file_dll = 0x2000

-- The fields of IMAGE_NT_HEADERS that are checked.
pub record NtHeaders : Type 0 where
  pub signature : ℕ
  pub machine : ℕ
  pub number_of_sections : ℕ
  pub characteristics : ℕ
  pub magic : ℕ
  pub section_alignment : ℕ
  pub file_alignment : ℕ

-- Whether the bit of weight `b` is set.
abbrev pub bit : ℕ → ℕ → Bool
bit n b = n / b % 2 == 1

pub check_nt_hdr : NtHeaders → ℤ
check_nt_hdr h =
    let c = h.characteristics in
    if not (h.signature == 0x4550)
    then einval
    else if not (h.magic == 0x20b)
    then einval
    else if not (h.machine == 0x8664)
    then einval
    else if not (bit c image_file_executable_image && bit c image_file_large_address_aware)
    then einval
    else if bit c image_file_relocs_stripped
    then einval
    else if h.number_of_sections == 0
    then einval
    else if ltb h.section_alignment h.file_alignment
    then einval
    else if bit c image_file_executable_image
    then pos image_file_executable_image
    else if bit c image_file_dll
    then pos image_file_dll
    else einval

-- An image that ndiswrapper can load: 64-bit code for AMD64, executable, relocatable, with a section
-- and with sections aligned at least as in the file.
abbrev pub IsLoadable : NtHeaders → Type 0
IsLoadable h =
    (h.signature ≡ 0x4550)
    × (h.magic ≡ 0x20b)
    × (h.machine ≡ 0x8664)
    × (bit h.characteristics image_file_executable_image ≡ true)
    × (bit h.characteristics image_file_large_address_aware ≡ true)
    × (bit h.characteristics image_file_relocs_stripped ≡ false)
    × (h.number_of_sections ≢ 0)
    × (h.file_alignment ≤ h.section_alignment)

-- check_nt_hdr accepts just the loadable images, and reports each of them as an executable. No
-- header is reported as a DLL, whether its IMAGE_FILE_DLL bit is set or not.
pub check_nt_hdr_decides :
    (h : NtHeaders)
    → ((check_nt_hdr h ≡ pos image_file_executable_image) ↔ IsLoadable h)
      × (check_nt_hdr h ≢ pos image_file_dll)
unfolding check_nt_hdr
check_nt_hdr_decides h = ground arith
