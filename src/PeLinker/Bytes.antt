-- ===== src/PeLinker/Bytes.antt =====
-- driver/pe_linker.c: little-endian words in an image.
use native.Mathlib.Nat.{div-add-mod', pow-zero, pow-suc}
use ndiswrapper.Base.{
  ℕ, zero, suc, ◌+◌, ◌*◌, ◌/◌, ◌%◌, ◌^◌, ◌≤◌, ◌<◌, ◌≡◌, ◌⊎◌, refl, arith, update,
}

-- The word of `n` bytes at an address.
unfoldable pub read_le : ℕ → (ℕ → ℕ) → ℕ → ℕ
read_le zero mem a = 0
read_le (suc n) mem a = mem a + 256 * read_le n mem (suc a)

pub write_le : ℕ → (ℕ → ℕ) → ℕ → ℕ → ℕ → ℕ
write_le zero mem a v = mem
write_le (suc n) mem a v = update (write_le n mem (suc a) (v / 256)) a (v % 256)

-- A write changes nothing outside of its bytes.
pub write_le_outside :
    (n : ℕ) (mem : ℕ → ℕ) (a v x : ℕ) → (x < a) ⊎ (a + n ≤ x) → write_le n mem a v x ≡ mem x
unfolding write_le
write_le_outside zero mem a v x h = refl
write_le_outside (suc n) mem a v x h = ground (arith, write_le_outside n mem (suc a) (v / 256) x)

read_le-update :
    (n : ℕ) (mem : ℕ → ℕ) (a b v : ℕ) → a < b → read_le n (update mem a v) b ≡ read_le n mem b
unfolding read_le
read_le-update zero mem a b v h = refl
read_le-update (suc n) mem a b v h =
    let other : update mem a v b ≡ mem b = ground arith in
    rw (other, read_le-update n mem a (suc b) v (omega arith))

-- A word that is written is read back, in its number of bytes.
pub read-write :
    (n : ℕ) (mem : ℕ → ℕ) (a v : ℕ) → v < 256 ^ n → read_le n (write_le n mem a v) a ≡ v
unfolding read_le write_le
read-write zero mem a v h = omega (arith, pow-zero 256, h)
read-write (suc n) mem a v h =
    let here : update (write_le n mem (suc a) (v / 256)) a (v % 256) a ≡ v % 256 = ground arith in
    let small : v / 256 < 256 ^ n = omega (arith, pow-suc 256 n, h) in
    rw
      (
        here,
        read_le-update n (write_le n mem (suc a) (v / 256)) a (suc a) (v % 256) (omega arith),
        read-write n mem (suc a) (v / 256) small,
      )
      (omega (arith, div-add-mod' v 256))
