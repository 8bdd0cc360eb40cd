-- ===== src/PeLinker/Expand.antt =====
-- driver/pe_linker.c: fix_pe_image, which lays the sections of the file out in memory.
use ndiswrapper.Base.{
  ℕ, ◌+◌, ◌-◌, ◌%◌, ◌^◌, ◌≤◌, ◌<◌, ◌≡◌, sym, ap, ◌≢◌, ◌∙◌, Bool, true, false, ◌&&◌, Option, none,
  some, List, [], ◌∷◌, ◌++◌, arith, ◌==◌, ltb, leb, if◌then◌else◌, All, ℤ, pos, negsuc, Bool-cases,
  Option-cases, inl, inr,
}
use ndiswrapper.PeLinker.Headers.{einval}

abbrev pub enomem : ℤ
enomem = negsuc 11

-- `IMAGE_SECTION_HEADER`.
pub record Section : Type 0 where
  pub virtual_address : ℕ
  pub size_of_raw_data : ℕ
  pub pointer_to_raw_data : ℕ

-- `struct pe_image`, with what fix_pe_image reads of the headers. An image has a section, as
-- check_nt_hdr sees to.
pub record PeImage : Type 0 where
  pub image : ℕ → ℕ
  pub size : ℕ
  pub size_of_image : ℕ
  pub first : Section
  pub others : List Section

-- memcpy of `n` bytes.
abbrev pub copy_bytes : (ℕ → ℕ) → ℕ → (ℕ → ℕ) → ℕ → ℕ → ℕ → ℕ
copy_bytes to dst from src n x =
    if leb dst x && ltb x (dst + n) then from (src + (x - dst)) else to x

-- The loop over the sections. `none` is -EINVAL; the test is on 32-bit numbers.
unfoldable pub copy_sections : (ℕ → ℕ) → ℕ → List Section → (ℕ → ℕ) → Option (ℕ → ℕ)
copy_sections from image_size [] to = some to
copy_sections from image_size (s ∷ ss) to =
    let rest =
      copy_sections from image_size ss
        (copy_bytes to s.virtual_address from s.pointer_to_raw_data s.size_of_raw_data) in
    if ltb image_size ((s.virtual_address + s.size_of_raw_data) % 2 ^ 32) then none else rest

-- The zeroed memory with the headers in it, that is everything in front of the first section.
abbrev pub headers_of : PeImage → ℕ → ℕ
headers_of pe = copy_bytes (λ _. 0) 0 pe.image 0 pe.first.pointer_to_raw_data

unfoldable pub expanded : PeImage → Option (ℕ → ℕ) → PeImage × ℤ
expanded pe none = (pe, einval)
expanded pe (some image) = (record pe { image = image; size = pe.size_of_image }, pos 0)

-- `memory` tells whether vmalloc succeeds.
unfoldable pub fix_pe_image : Bool → PeImage → PeImage × ℤ
fix_pe_image memory pe =
    if pe.size == pe.size_of_image
    then (pe, pos 0)
    else if memory
    then expanded pe
        (copy_sections pe.image pe.size_of_image (pe.first ∷ pe.others) (headers_of pe))
    else (pe, enomem)

abbrev pub covers : Section → ℕ → Bool
covers s x = leb s.virtual_address x && ltb x (s.virtual_address + s.size_of_raw_data)

none-some : {f : ℕ → ℕ} → ◌≡◌ {A = Option (ℕ → ℕ)} none (some f) → ⊥
none-some h = cc

-- The code's test passed for the first section, and the loop went on.
sections_step :
    (from : ℕ → ℕ) (n : ℕ) (s : Section) (ss : List Section) (to out : ℕ → ℕ)
    → copy_sections from n (s ∷ ss) to ≡ some out
    → (ltb n ((s.virtual_address + s.size_of_raw_data) % 2 ^ 32) ≡ false)
      × (copy_sections from n ss
            (copy_bytes to s.virtual_address from s.pointer_to_raw_data s.size_of_raw_data)
          ≡ some out)
unfolding copy_sections
sections_step from n s ss to out h =
    elim (Bool-cases (ltb n ((s.virtual_address + s.size_of_raw_data) % 2 ^ 32))) [
      | inl bad ↦
          let e : copy_sections from n (s ∷ ss) to ≡ none = rw bad in absurd (none-some (sym e ∙ h))
      | inr good ↦
          let e : copy_sections from n (s ∷ ss) to
              ≡ copy_sections from n ss
                  (copy_bytes to s.virtual_address from s.pointer_to_raw_data s.size_of_raw_data) =
            rw good in
          (good, sym e ∙ h)
    ]

sections_nil :
    (from : ℕ → ℕ) (n : ℕ) (to out : ℕ → ℕ) (x : ℕ)
    → copy_sections from n [] to ≡ some out
    → out x ≡ to x
unfolding copy_sections
sections_nil from n to out x h = sym (ap (λ o. elim o [ none ↦ to x | some f ↦ f x ]) h)

untouched :
    (from : ℕ → ℕ) (n : ℕ) (ss : List Section) (to out : ℕ → ℕ) (x : ℕ)
    → copy_sections from n ss to ≡ some out
    → All (λ t. covers t x ≡ false) ss
    → out x ≡ to x
untouched from n [] to out x h a = sections_nil from n to out x h
untouched from n (s ∷ ss) to out x h a =
    let (_, rest) = sections_step from n s ss to out h in
    untouched from n ss _ out x rest a.1 ∙ rw (a.0)

section_bytes :
    (from : ℕ → ℕ) (n : ℕ) (pre : List Section) (s : Section) (post : List Section) (to out : ℕ → ℕ)
    (x : ℕ)
    → copy_sections from n (pre ++ s ∷ post) to ≡ some out
    → covers s x ≡ true
    → All (λ t. covers t x ≡ false) post
    → out x ≡ from (s.pointer_to_raw_data + (x - s.virtual_address))
section_bytes from n [] s post to out x h c a =
    let (_, rest) = sections_step from n s post to out h in
    untouched from n post _ out x rest a ∙ rw c
section_bytes from n (p ∷ pre) s post to out x h c a =
    let (_, rest) = sections_step from n p (pre ++ s ∷ post) to out h in
    section_bytes from n pre s post _ out x rest c a

-- No byte behind the image is written, if no section wraps around in 32 bits.
sections_inside :
    (from : ℕ → ℕ) (n : ℕ) (ss : List Section) (to out : ℕ → ℕ) (x : ℕ)
    → copy_sections from n ss to ≡ some out
    → All (λ t. t.virtual_address + t.size_of_raw_data < 2 ^ 32) ss
    → n ≤ x
    → out x ≡ to x
sections_inside from n [] to out x h a le = sections_nil from n to out x h
sections_inside from n (s ∷ ss) to out x h a le =
    let (good, rest) = sections_step from n s ss to out h in
    let outside : covers s x ≡ false = ground (arith, good, a.0, le) in
    sections_inside from n ss _ out x rest a.1 le ∙ rw outside

-- What a successful expansion leaves is what the loop over the sections made.
expansion :
    (pe : PeImage)
    → pe.size ≢ pe.size_of_image
    → (fix_pe_image true pe).1 ≡ pos 0
    → (out : ℕ → ℕ) × (copy_sections pe.image pe.size_of_image
          (pe.first ∷ pe.others)
          (headers_of pe)
        ≡ some out)
      × ((fix_pe_image true pe).0.image ≡ out)
      × ((fix_pe_image true pe).0.size ≡ pe.size_of_image)
unfolding fix_pe_image expanded
expansion pe ne h =
    let differ : (pe.size == pe.size_of_image) ≡ false = ground arith in
    elim (Option-cases
      (copy_sections pe.image pe.size_of_image (pe.first ∷ pe.others) (headers_of pe))) [
        | inl bad ↦ absurd (failed differ bad h)
        | inr (out, good) ↦ (out, good, rw (differ, good), rw (differ, good))
      ]
  where
    failed :
        (pe.size == pe.size_of_image) ≡ false
        → copy_sections pe.image pe.size_of_image (pe.first ∷ pe.others) (headers_of pe) ≡ none
        → (fix_pe_image true pe).1 ≡ pos 0
        → ⊥
    failed differ bad h =
        let e : (fix_pe_image true pe).1 ≡ einval = rw (differ, bad) in
        let no : pos 0 ≡ einval = sym h ∙ e in ground arith

-- fix_pe_image, when it expands an image and succeeds: each section's bytes stand at its virtual
-- address, where no later section covers them.
pub expand_lays_out :
    (pe : PeImage) (pre : List Section) (s : Section) (post : List Section) (x : ℕ)
    → pe.size ≢ pe.size_of_image
    → (fix_pe_image true pe).1 ≡ pos 0
    → pe.first ∷ pe.others ≡ pre ++ s ∷ post
    → covers s x ≡ true
    → All (λ t. covers t x ≡ false) post
    → (fix_pe_image true pe).0.image x ≡ pe.image (s.pointer_to_raw_data + (x - s.virtual_address))
expand_lays_out pe pre s post x ne h l c a =
    let (out, e, i, _) = expansion pe ne h in
    rw i (section_bytes pe.image pe.size_of_image pre s post (headers_of pe) out x (rw (← l) e) c a)

-- fix_pe_image, when it expands an image and succeeds, writes nothing behind the end of the image,
-- if the headers fit and no section's end wraps around in 32 bits.
pub expand_stays_inside :
    (pe : PeImage) (x : ℕ)
    → pe.size ≢ pe.size_of_image
    → (fix_pe_image true pe).1 ≡ pos 0
    → All (λ t. t.virtual_address + t.size_of_raw_data < 2 ^ 32) (pe.first ∷ pe.others)
    → pe.first.pointer_to_raw_data ≤ pe.size_of_image
    → pe.size_of_image ≤ x
    → (fix_pe_image true pe).0.image x ≡ 0
expand_stays_inside pe x ne h a fits le =
    let (out, e, i, _) = expansion pe ne h in
    let zero_there : headers_of pe x ≡ 0 = ground arith in
    rw i (
      sections_inside pe.image pe.size_of_image (pe.first ∷ pe.others) (headers_of pe) out x e a le
      ∙ zero_there)
