-- ===== src/Wireless/Scan.antt =====
-- driver/iw_ndis.c: ndis_translate_scan over what a driver tells of a network: the rates and the
-- information elements. Linux's buffer for the events is taken to be large enough.
use mathlib.Core.List.{append_assoc}
use ndiswrapper.Base.{
  ℕ, zero, suc, ◌+◌, ◌*◌, ◌%◌, ◌≤◌, ◌<◌, ◌≡◌, refl, sym, ap, ◌∙◌, Bool, true, false, Option, none,
  some, List, [], ◌∷◌, ◌++◌, ◌==◌, if◌then◌else◌, ltb, length, length-take, length-drop, take, drop,
  map, arith, Bool-cases, inl, inr, All,
}

-- The loop over the rates: `memory` is what stands at `rates`, of 8 bytes, which is also where the
-- longer array `rates_ex`, of 16 bytes, begins. A rate is a number of 500000 bits per second.
unfoldable pub scan_rates : ℕ → List ℕ → List ℕ
scan_rates zero memory = []
scan_rates (suc n) [] = []
scan_rates (suc n) (r ∷ memory) =
    if r % 128 == 0 then scan_rates n memory else r % 128 * 500000 ∷ scan_rates n memory

-- `extended` says that the network has `rates_ex`.
unfoldable pub bss_rates : Bool → List ℕ → List ℕ
unfolding scan_rates
bss_rates extended memory = scan_rates (if extended then 8 else 16) memory

-- The loop over the information elements between `var` and `end`, each an identity, a length and as
-- many bytes. An event has an element's first bytes, `length + 2` of them in eight bits.
unfoldable pub ie_loop : ℕ → List ℕ → Option (List (List ℕ))
ie_loop zero bytes = none
ie_loop (suc fuel) [] = some []
ie_loop (suc fuel) (id ∷ []) = some []
ie_loop (suc fuel) (id ∷ len ∷ rest) =
    let more = ie_loop fuel (drop len rest) in
    if ltb (length rest) len then some [] else elim more [
      | none ↦ none
      | some events ↦ some (take ((len + 2) % 256) (id ∷ len ∷ rest) ∷ events)
    ]

-- An element with its two bytes in front.
abbrev pub IsElement : List ℕ → Type 0
IsElement e = (id len : ℕ) × (body : List ℕ) × (e ≡ id ∷ len ∷ body) × (length body ≡ len)

abbrev pub concat : List (List ℕ) → List ℕ
concat [] = []
concat (x ∷ xs) = x ++ concat xs

-- No whole element is left.
abbrev pub Ends : List ℕ → Type 0
Ends [] = Unit {0}
Ends (id ∷ []) = Unit {0}
Ends (id ∷ len ∷ rest) = length rest < len

abbrev pub event_of : List ℕ → List ℕ
event_of e = take (length e % 256) e

take-append : (n : ℕ) (xs : List ℕ) → n ≤ length xs → take n xs ++ drop n xs ≡ xs
take-append zero xs h = refl
take-append (suc n) [] h = absurd (omega arith)
take-append (suc n) (x ∷ xs) h = ap (λ l. x ∷ l) (take-append n xs (omega arith))

take-take : (n m : ℕ) (xs : List ℕ) → n ≤ m → take n (take m xs) ≡ take n xs
take-take zero m xs h = refl
take-take (suc n) zero xs h = absurd (omega arith)
take-take (suc n) (suc m) [] h = refl
take-take (suc n) (suc m) (x ∷ xs) h = ap (λ l. x ∷ l) (take-take n m xs (omega arith))

same_event :
    (id len : ℕ) (rest : List ℕ)
    → len ≤ length rest
    → event_of (id ∷ len ∷ take len rest) ≡ take ((len + 2) % 256) (id ∷ len ∷ rest)
same_event id len rest h =
    let size : length (take len rest) ≡ len = omega (arith, length-take len rest) in
    let count : suc (suc (length (take len rest))) % 256 ≡ (len + 2) % 256 = omega (arith, size) in
    ap (λ k. take k (id ∷ len ∷ take len rest)) count
    ∙ take-take ((len + 2) % 256) (suc (suc len)) (id ∷ len ∷ rest) (omega arith)

-- With more fuel than bytes, the loop ends. It has cut the bytes into whole elements and a rest that
-- begins with no whole element, and stays inside of them; and each event is its element, or for an
-- element of 256 bytes or more, the first bytes of it, as many as its size modulo 256.
pub elements_are_events :
    (fuel : ℕ) (bytes : List ℕ)
    → length bytes < fuel
    → (ies : List (List ℕ)) × (rest : List ℕ) × (ie_loop fuel bytes ≡ some (map event_of ies))
      × (bytes ≡ concat ies ++ rest)
      × All IsElement ies
      × Ends rest
unfolding ie_loop
elements_are_events zero bytes h = absurd (omega arith)
elements_are_events (suc fuel) [] h = ([], [], refl, refl, tt, tt)
elements_are_events (suc fuel) (id ∷ []) h = ([], id ∷ [], refl, refl, tt, tt)
elements_are_events (suc fuel) (id ∷ len ∷ rest) h = elim (Bool-cases (ltb (length rest) len)) [
  | inl cut ↦ ([], id ∷ len ∷ rest, rw cut refl, refl, tt, ground arith)
  | inr whole ↦
      let fits : len ≤ length rest = ground arith in
      let body = take len rest in
      let size : length body ≡ len = omega (arith, length-take len rest) in
      let (ies, left, run, split, all, ends) =
        elements_are_events fuel (drop len rest) (omega (arith, length-drop len rest)) in
      (
        (id ∷ len ∷ body) ∷ ies,
        left,
        rw (whole, run) (ap (λ e. some (e ∷ map event_of ies)) (sym (same_event id len rest fits))),
        ap (λ l. id ∷ len ∷ l)
            (sym (take-append len rest fits)
              ∙ ap (λ l. body ++ l) split
              ∙ sym (append_assoc body (concat ies) left)),
        ((id, len, body, refl, size), all),
        ends,
      )
]

cut_rates : (n m : ℕ) (memory : List ℕ) → n ≤ m → scan_rates m (take n memory) ≡ scan_rates n memory
unfolding scan_rates
cut_rates zero zero memory h = refl
cut_rates zero (suc m) memory h = refl
cut_rates (suc n) zero memory h = absurd (omega arith)
cut_rates (suc n) (suc m) [] h = refl
cut_rates (suc n) (suc m) (r ∷ memory) h = ground (arith, cut_rates n m memory)

-- Of a network with 16 rates only those among the first eight are told.
extended_rates_are_cut : (memory : List ℕ) → bss_rates true memory ≡ bss_rates false (take 8 memory)
unfolding bss_rates
extended_rates_are_cut memory = sym (cut_rates 8 16 memory (omega arith))
