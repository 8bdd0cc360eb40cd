-- ===== src/Power/Filter.antt =====
-- driver/wrapndis.c: set_packet_filter and set_multicast_list. The flags of a filter are its bits: 2
-- and 4 for multicast and all multicast, 0x20 promiscuous, 0x80 all local, 0x2000 all functional.
use ndiswrapper.Base.{
  ℕ, zero, suc, ◌+◌, ◌*◌, ◌-◌, ◌/◌, ◌%◌, ◌<◌, ◌≡◌, ◌≢◌, refl, ap, ◌∙◌, Bool, true, false, ◌&&◌,
  ◌||◌, not, Option, none, some, List, [], ◌∷◌, ◌++◌, ◌==◌, if◌then◌else◌, ltb, min, ◌>>=◌, arith,
  Bool-cases, Option-cases, inl, inr,
}
use ndiswrapper.Power.{Miniport, Device, Call, sets, queries, mp_set, mp_query}

unfoldable pub has_flag : ℕ → ℕ → Bool
has_flag filter flag = (filter / flag) % 2 == 1

unfoldable pub add_flag : ℕ → ℕ → ℕ
unfolding has_flag
add_flag filter flag = if has_flag filter flag then filter else filter + flag

-- The filter of the next try, without the first flag that may be dropped; `none` if there is none.
unfoldable pub weaker : ℕ → Option ℕ
unfolding has_flag add_flag
weaker f =
    if has_flag f 0x20
    then some (f - 0x20)
    else if has_flag f 0x80
    then some (f - 0x80)
    else if has_flag f 0x2000
    then some (f - 0x2000)
    else if has_flag f 2
    then some (add_flag (f - 2) 4)
    else if has_flag f 4
    then some (f - 4)
    else none

-- The loop of set_packet_filter: the device and the filter behind it.
unfoldable pub filter_loop : Miniport → ℕ → Device → ℕ → Option (Device × ℕ)
unfolding mp_set weaker
filter_loop m zero d f = none
filter_loop m (suc fuel) d f = elim (mp_set m d 0x0001010E f) [
  | none ↦ none
  | some (d', status) ↦ elim (if status == 0 then none else weaker f) [
    | none ↦ some (d', f)
    | some f' ↦ filter_loop m fuel d' f'
  ]
]

-- Whether the filter is not 0, for which the code returns 0, is the second result. Seven rounds are
-- enough, since every round drops a flag.
unfoldable pub set_packet_filter : Miniport → Device → ℕ → Option (Device × Bool)
unfolding filter_loop mp_query
set_packet_filter m d filter = do
  (d1, f) ← filter_loop m 7 d filter
  (d2, _, value) ← mp_query m d1 0x0001010E f
  some (record d2 { packet_filter = value }, not (value == 0))

-- `memory` is whether kmalloc gives memory for the list. Both kinds of lists of Linux hold addresses
-- of 6 bytes, so that the list has `min` entries.
unfoldable pub set_multicast_list : Miniport → Bool → Device → Option Device
unfolding set_packet_filter mp_set add_flag
set_multicast_list m memory d =
    let filter = d.packet_filter in
    let set_filter = λ (e : Device) (f : ℕ). (set_packet_filter m e f >>= λ r. some r.0) in
    let size = min d.multicast_size d.mc_count in
    let listed = λ (r : Device × ℕ).
      set_filter r.0 (if r.1 == 0 && ltb 0 size then add_flag filter 2 else add_flag filter 4) in
    if d.promisc
    then set_filter d (add_flag (add_flag filter 0x20) 0x80)
    else if d.allmulti || ltb d.multicast_size d.mc_count
    then set_filter d (add_flag filter 4)
    else if ltb 0 d.mc_count
    then (if memory then mp_set m d 0x01010103 (size * 6) >>= listed else some d)
    else set_filter d filter

-- How often a filter can be made weaker.
weight : ℕ → ℕ
weight f = (f / 0x20) % 2 + (f / 0x80) % 2 + (f / 0x2000) % 2 + 2 * ((f / 2) % 2) + (f / 4) % 2

drop_20 : (f : ℕ) → (f / 0x20) % 2 ≡ 1 → weight (f - 0x20) < weight f
unfolding weight
drop_20 f h = omega arith

drop_80 : (f : ℕ) → (f / 0x80) % 2 ≡ 1 → weight (f - 0x80) < weight f
unfolding weight
drop_80 f h = omega arith

drop_2000 : (f : ℕ) → (f / 0x2000) % 2 ≡ 1 → weight (f - 0x2000) < weight f
unfolding weight
drop_2000 f h = omega arith

drop_2 : (f : ℕ) → (f / 2) % 2 ≡ 1 → weight (f - 2) + 2 ≡ weight f
unfolding weight
drop_2 f h = omega arith

add_4 : (f : ℕ) → (f / 4) % 2 ≢ 1 → weight (f + 4) ≡ weight f + 1
unfolding weight
add_4 f h = omega arith

drop_4 : (f : ℕ) → (f / 4) % 2 ≡ 1 → weight (f - 4) < weight f
unfolding weight
drop_4 f h = omega arith

weaker-lt : (f g : ℕ) → weaker f ≡ some g → weight g < weight f
unfolding weaker has_flag add_flag
weaker-lt f g e =
    ground (arith, drop_20 f, drop_80 f, drop_2000 f, drop_2 f, drop_4 f, add_4 (f - 2))

weight-lt : (f : ℕ) → weight f < 7
unfolding weight
weight-lt f = omega arith

-- A round that the driver refuses, with a weaker filter left.
round_again :
    (m : Miniport) (fuel : ℕ) (d : Device) (f f' : ℕ)
    → d.req_mutex ≡ false
    → (m.set d.calls 0x0001010E f == 0) ≡ false
    → weaker f ≡ some f'
    → filter_loop m (suc fuel) d f
      ≡ filter_loop m fuel (record d { calls = d.calls ++ sets 0x0001010E f ∷ [] }) f'
unfolding filter_loop mp_set
round_again m fuel d f f' q refused e = ground (arith, q, refused, e)

-- From the calls before and the filter that is asked for, to the calls before the last request and its
-- filter: a request that is accepted, or that no weaker one follows, is the last; a refused one is
-- followed by one for the weaker filter.
pub data WeakensTo (m : Miniport) : List Call → ℕ → List Call → ℕ → Type 0 where
  accepted : (c : List Call) (f : ℕ) → m.set c 0x0001010E f ≡ 0 → WeakensTo m c f c f
  exhausted :
      (c : List Call) (f : ℕ) → m.set c 0x0001010E f ≢ 0 → weaker f ≡ none → WeakensTo m c f c f
  weakened :
      (c c' : List Call) (f f' g : ℕ)
      → m.set c 0x0001010E f ≢ 0
      → weaker f ≡ some f'
      → WeakensTo m (c ++ sets 0x0001010E f ∷ []) f' c' g
      → WeakensTo m c f c' g

loop_settles :
    (m : Miniport) (fuel : ℕ) (d : Device) (f : ℕ)
    → weight f < fuel
    → d.req_mutex ≡ false
    → (c : List Call) × (g : ℕ) × (filter_loop m fuel d f
        ≡ some (record d { calls = c ++ sets 0x0001010E g ∷ [] }, g))
      × WeakensTo m d.calls f c g
unfolding filter_loop mp_set
loop_settles m zero d f h q = absurd (omega arith)
loop_settles m (suc fuel) d f h q =
    let d' = record d { calls = d.calls ++ sets 0x0001010E f ∷ [] } in
    elim (Bool-cases (m.set d.calls 0x0001010E f == 0)) [
      | inl taken ↦ (d.calls, f, ground (arith, taken, q), accepted d.calls f (ground arith))
      | inr refused ↦ elim (Option-cases (weaker f)) [
        | inl last ↦
            let no : m.set d.calls 0x0001010E f ≢ 0 = λ z. ground arith in
            (d.calls, f, ground (arith, refused, last, q), exhausted d.calls f no last)
        | inr (f', e) ↦
            let (c, g, run, why) = loop_settles m fuel d' f' (omega (arith, weaker-lt f f' e)) q in
            let no : m.set d.calls 0x0001010E f ≢ 0 = λ z. ground arith in
            (c, g, round_again m fuel d f f' q refused e ∙ run, weakened d.calls c f f' g no e why)
      ]
    ]

pub set_packet_filter_settles :
    (m : Miniport) (d : Device) (filter : ℕ)
    → d.req_mutex ≡ false
    → (c : List Call) × (g : ℕ) × (let asked = c ++ sets 0x0001010E g ∷ [] in
        let kept = (m.query asked 0x0001010E g).1 in
        set_packet_filter m d filter
        ≡ some (
          record d { calls = asked ++ queries 0x0001010E ∷ []; packet_filter = kept },
          not (kept == 0),
        ))
      × WeakensTo m d.calls filter c g
unfolding set_packet_filter mp_query
set_packet_filter_settles m d filter q =
    let (c, g, run, why) = loop_settles m 7 d filter (weight-lt filter) q in
    (c, g, ground (arith, run, q), why)

-- The call returns, and the device differs in the calls and the filter at most.
abbrev pub Kept : Device → Option Device → Type 0
Kept d r = (c : List Call) × (f : ℕ) × (r ≡ some (record d { calls = c; packet_filter = f }))

either-Kept :
    (b : Bool) (d : Device) (x y : Option Device)
    → Kept d x
    → Kept d y
    → Kept d (if b then x else y)
either-Kept true d x y h k = h
either-Kept false d x y h k = k

filter-Kept :
    (m : Miniport) (d : Device) (filter : ℕ)
    → d.req_mutex ≡ false
    → Kept d (set_packet_filter m d filter >>= λ r. some r.0)
filter-Kept m d filter q =
    let (c, g, run, _) = set_packet_filter_settles m d filter q in
    (_, _, ap (λ o. o >>= λ r. some r.0) run)

list-Kept :
    (m : Miniport) (d : Device) (size : ℕ) (next : ℕ → ℕ)
    → d.req_mutex ≡ false
    → Kept d (
        mp_set m d 0x01010103 size >>= λ r.
        (set_packet_filter m r.0 (next r.1) >>= λ r'. some r'.0))
unfolding mp_set
list-Kept m d size next q =
    let d' = record d { calls = d.calls ++ sets 0x01010103 size ∷ [] } in
    let (c, f, run) = filter-Kept m d' (next (m.set d.calls 0x01010103 size)) q in
    (c, f, ground (arith, q, run))

-- set_multicast_list on the same terms changes the calls and the filter at most.
set_multicast_list_keeps :
    (m : Miniport) (memory : Bool) (d : Device)
    → d.req_mutex ≡ false
    → Kept d (set_multicast_list m memory d)
unfolding set_multicast_list
set_multicast_list_keeps m memory d q = either-Kept d.promisc d _ _ (filter-Kept m d _ q) (
    either-Kept _ d _ _ (filter-Kept m d _ q) (
      either-Kept _ d _ _
        (either-Kept memory d _ _
          (list-Kept m d _
            (λ st.
              if (st == 0) && ltb 0 (min d.multicast_size d.mc_count)
              then add_flag d.packet_filter 2
              else add_flag d.packet_filter 4)
            q)
          (d.calls, d.packet_filter, refl))
        (filter-Kept m d _ q)))
