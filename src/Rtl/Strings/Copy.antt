-- ===== src/Rtl/Strings/Copy.antt =====
-- driver/rtl.c: RtlCopyString within its buffers.
use ndiswrapper.Base.{
  ℕ, zero, suc, ◌≤◌, ◌<◌, ◌≡◌, refl, ap, ◌∙◌, true, some, List, [], ◌∷◌, arith, ltb, min, length,
  length-set, get_elem?, set, take, map_some, Bool-cases, inl, inr,
}
use ndiswrapper.Rtl.Strings.{
  CountedString, units, memcpy_bytes, terminate, copy_string, rtl_copy_string,
}

memcpy_bytes_lem :
    (n : ℕ) (src dst : List ℕ)
    → n ≤ length src
    → n ≤ length dst
    → (l : List ℕ) × (memcpy_bytes n src dst ≡ some l)
      × (take n l ≡ take n src)
      × (length l ≡ length dst)
memcpy_bytes_lem zero src dst h g = (dst, refl, refl, refl)
memcpy_bytes_lem (suc n) [] dst h g = absurd (omega arith)
memcpy_bytes_lem (suc n) (x ∷ src) [] h g = absurd (omega arith)
memcpy_bytes_lem (suc n) (x ∷ src) (y ∷ dst) h g =
    let (l, e, t, s) = memcpy_bytes_lem n src dst (omega arith) (omega arith) in
    (x ∷ l, ap (map_some (λ r. x ∷ r)) e, ap (λ r. x ∷ r) t, ap suc s)

take-set : (n : ℕ) (l : List ℕ) (v : ℕ) → take n (set l n v) ≡ take n l
take-set zero l v = refl
take-set (suc n) [] v = refl
take-set (suc n) (x ∷ l) v = ap (λ r. x ∷ r) (take-set n l v)

get_elem?-set : (n : ℕ) (l : List ℕ) (v : ℕ) → n < length l → get_elem? (set l n v) n ≡ some v
get_elem?-set n [] v h = absurd (omega arith)
get_elem?-set zero (x ∷ l) v h = refl
get_elem?-set (suc n) (x ∷ l) v h = get_elem?-set n l v (omega arith)

terminate_lem :
    (max n : ℕ) (l : List ℕ)
    → max ≤ length l
    → (l' : List ℕ) × (terminate (ltb n max) n l ≡ some l')
      × (take n l' ≡ take n l)
      × (length l' ≡ length l)
      × (n < max → get_elem? l' n ≡ some 0)
terminate_lem max n l h = elim (Bool-cases (ltb n max)) [
  | inl room ↦
      let inside : ltb n (length l) ≡ true = ground arith in
      (
        set l n 0,
        rw (room, inside),
        take-set n l 0,
        length-set l n 0,
        λ _. get_elem?-set n l 0 (ground arith),
      )
  | inr full ↦ (l, rw full, refl, refl, λ lt. absurd (ground arith))
]

-- RtlCopyString, with both strings inside their buffers: it accesses nothing else, the new length is
-- the source's, at most the room of the destination, that many bytes are the source's, and behind
-- them stands a zero if there is room for it. The buffer keeps its size.
pub copy_string_fits :
    (dst src : CountedString) (from to : List ℕ)
    → src.buf ≡ some from
    → dst.buf ≡ some to
    → src.length ≤ length from
    → dst.max_length ≤ length to
    → (d : CountedString) × (rtl_copy_string dst (some src) ≡ some d)
      × (d.length ≡ min src.length dst.max_length)
      × (take d.length (units d) ≡ take d.length from)
      × (length (units d) ≡ length to)
      × (d.length < dst.max_length → get_elem? (units d) d.length ≡ some 0)
unfolding rtl_copy_string copy_string
copy_string_fits dst src from to f t h g =
    let n = min src.length dst.max_length in
    let (l, e, k, s) = memcpy_bytes_lem n from to (omega (arith, h)) (omega (arith, g)) in
    let (l', e', k', s', z) = terminate_lem dst.max_length n l (omega (arith, g, s)) in
    (record dst { length = n; buf = some l' }, rw (f, t, e, e'), refl, k' ∙ k, s' ∙ s, z)
