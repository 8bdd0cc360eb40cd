-- ===== src/PeLinker/Reloc.antt =====
-- driver/pe_linker.c: fixup_reloc.
use ndiswrapper.Base.{
  ℕ, zero, suc, ◌+◌, ◌-◌, ◌*◌, ◌/◌, ◌%◌, ◌^◌, ◌≤◌, ◌<◌, ◌≡◌, ◌⊎◌, ◌∙◌, true, false, Option, none,
  some, arith, ◌==◌, if◌then◌else◌, ◌>>=◌,
}
use ndiswrapper.PeLinker.Bytes.{read_le, write_le, read-write, write_le_outside}

abbrev pub image_rel_based_absolute : ℕ
image_rel_based_absolute = 0

abbrev pub image_rel_based_highlow : ℕ
image_rel_based_highlow = 3

abbrev pub image_rel_based_dir64 : ℕ
image_rel_based_dir64 = 10

-- `image + (v - base)` as the code computes it: a 64-bit difference, cut to the size of the word.
abbrev pub relocated : ℕ → ℕ → ℕ → ℕ → ℕ
relocated n image base v = (image + (v + (2 ^ 64 - base)) % 2 ^ 64) % 2 ^ 64 % 256 ^ n

-- The word of `n` bytes at `loc`, relocated.
pub relocate : ℕ → ℕ → ℕ → (ℕ → ℕ) → ℕ → ℕ → ℕ
relocate n image base mem loc = write_le n mem loc (relocated n image base (read_le n mem loc))

-- One fixup of the block at `block`. `none` is -EOPNOTSUPP.
pub fix_entry : ℕ → ℕ → ℕ → ℕ → (ℕ → ℕ) → Option (ℕ → ℕ)
fix_entry image base block fixup mem =
    let loc = (read_le 4 mem block + fixup % 4096) % 2 ^ 32 in
    let type = fixup / 4096 % 16 in
    if type == image_rel_based_absolute
    then some mem
    else if type == image_rel_based_highlow
    then some (relocate 4 image base mem loc)
    else if type == image_rel_based_dir64
    then some (relocate 8 image base mem loc)
    else none

-- The inner loop: `n` fixups from the index `i` on.
pub fix_entries : ℕ → ℕ → ℕ → ℕ → ℕ → (ℕ → ℕ) → Option (ℕ → ℕ)
fix_entries image base block i zero mem = some mem
fix_entries image base block i (suc n) mem = do
  mem' ← fix_entry image base block (read_le 2 mem (block + 8 + 2 * i)) mem
  fix_entries image base block (suc i) n mem'

-- The number of fixups of a block, in 64 bits.
abbrev pub entry_count : ℕ → ℕ
entry_count size_of_block = (size_of_block + (2 ^ 64 - 8)) % 2 ^ 64 / 2

-- The outer loop. The outer `none` means that the fuel ran out, the inner one -EOPNOTSUPP.
pub fix_blocks : ℕ → ℕ → ℕ → ℕ → (ℕ → ℕ) → Option (Option (ℕ → ℕ))
fix_blocks zero image base block mem = none
fix_blocks (suc fuel) image base block mem =
    let size = read_le 4 mem (block + 4) in
    elim (size == 0) [
      | true ↦ some (some mem)
      | false ↦ elim (fix_entries image base block 0 (entry_count size) mem) [
        | none ↦ some none
        | some mem' ↦ fix_blocks fuel image base (block + read_le 4 mem' (block + 4)) mem'
      ]
    ]

-- `directory` and `size` are the entry of the base relocations in the data directory.
pub fixup_reloc : ℕ → ℕ → ℕ → ℕ → ℕ → (ℕ → ℕ) → Option (Option (ℕ → ℕ))
fixup_reloc fuel image base directory size mem =
    if size == 0 then some (some mem) else fix_blocks fuel image base directory mem

-- For a base below 2 ^ 64, a 64-bit address that is relocated is as far from the load address as it was from the base, modulo
-- 2 ^ 64, and no other byte changes.
pub relocate_address :
    (image base : ℕ) (mem : ℕ → ℕ) (loc : ℕ)
    → base < 2 ^ 64
    → (read_le 8 (relocate 8 image base mem loc) loc
        ≡ (image + read_le 8 mem loc + (2 ^ 64 - base)) % 2 ^ 64)
      × ((x : ℕ) → (x < loc) ⊎ (loc + 8 ≤ x) → relocate 8 image base mem loc x ≡ mem x)
unfolding relocate
relocate_address image base mem loc b =
    (read-write 8 mem loc _ (omega arith) ∙ omega arith, write_le_outside 8 mem loc _)

-- Relocating an image that was moved from `base` to `image` back again restores each relocated 64-bit
-- address, for addresses that fit 64 bits.
pub relocate_back :
    (image base : ℕ) (mem : ℕ → ℕ) (loc : ℕ)
    → base < 2 ^ 64
    → image < 2 ^ 64
    → read_le 8 mem loc < 2 ^ 64
    → read_le 8 (relocate 8 base image (relocate 8 image base mem loc) loc) loc ≡ read_le 8 mem loc
relocate_back image base mem loc b i v =
    (relocate_address base image (relocate 8 image base mem loc) loc i).0
    ∙ rw ((relocate_address image base mem loc b).0) (omega (arith, v))
