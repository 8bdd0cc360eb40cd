-- ===== src/Wireless/Safety.antt =====
-- driver/iw_ndis.c: the arrays of the keys, and what a removed key leaves.
use ndiswrapper.Base.{
  ℕ, ◌+◌, ◌-◌, ◌^◌, ◌≤◌, ◌<◌, ◌≡◌, ◌≢◌, refl, Bool, true, false, ◌&&◌, ◌||◌, not, Option, none,
  List, ◌++◌, ◌==◌, if◌then◌else◌, leb, ltb, ℤ, pos, eqb_ℤ, update, take, drop, replicate, length,
  length-append, length-take, length-drop, arith, Bool-cases, inl, inr, ◌⊎◌,
}
use ndiswrapper.Wireless.{add_wep, EncrKey, Wireless, Driver, einval, mp_set}
use ndiswrapper.Wireless.Auth.{set_iw_encr_mode, set_ndis_auth_mode, store_auth_mode}
use ndiswrapper.Wireless.Keys.{
  set_essid, stored_key, add_wep_key, emptied, removal, remove_key, announce_tx_key, other_key,
  use_wep_key, iw_set_wep,
}

-- Each of the four keys has an array of 32 bytes and a length within it, and the transmit key is one of
-- them.
abbrev pub FitsKey : EncrKey → Type 0
FitsKey k = (k.length ≤ 32) × (length k.key ≡ 32)

pub record IsKeys (w : Wireless) : Type 0 where
  pub tx : w.tx_key_index < 4
  pub fits : (i : ℕ) → i < 4 → FitsKey (w.keys i)

stored-Fits :
    (old key : List ℕ) (n : ℕ)
    → length old ≡ 32
    → n ≤ 32
    → n ≤ length key
    → FitsKey (stored_key old key n)
unfolding stored_key
stored-Fits old key n o h k = (
  h,
  omega (arith, length-append (take n key) (drop n old), length-take n key, length-drop n old),
)

emptied-Fits : (k : EncrKey) → length k.key ≡ 32 → FitsKey (emptied k)
unfolding emptied
emptied-Fits k h = (omega arith, omega (arith, length-drop 4 k.key))

-- Only the keys and the index of the transmit key matter.
same_keys :
    (w v : Wireless) → v.keys ≡ w.keys → v.tx_key_index ≡ w.tx_key_index → IsKeys w → IsKeys v
same_keys w v k t s = record { tx = rw t s.tx; fits = rw k s.fits }

encr_keys :
    (drv : Driver) (w : Wireless) (p g : ℕ)
    → ((set_iw_encr_mode drv w p g).0.keys ≡ w.keys)
      × ((set_iw_encr_mode drv w p g).0.tx_key_index ≡ w.tx_key_index)
unfolding set_iw_encr_mode mp_set
encr_keys drv w p g = ground arith

auth_keys :
    (drv : Driver) (w : Wireless) (mode : ℕ)
    → ((set_ndis_auth_mode drv w mode).0.keys ≡ w.keys)
      × ((set_ndis_auth_mode drv w mode).0.tx_key_index ≡ w.tx_key_index)
unfolding set_ndis_auth_mode store_auth_mode mp_set
auth_keys drv w mode = ground arith

essid_keys :
    (drv : Driver) (w : Wireless) (s : List ℕ)
    → ((set_essid drv w s).0.keys ≡ w.keys) × ((set_essid drv w s).0.tx_key_index ≡ w.tx_key_index)
unfolding set_essid mp_set
essid_keys drv w s = ground arith

-- What add_wep_key does to the keys: nothing, or it stores one of the four.
add_lem :
    (drv : Driver) (w : Wireless) (key : List ℕ) (n index : ℕ)
    → let r = add_wep_key drv w key n index in
      (r.0.tx_key_index ≡ w.tx_key_index)
      × ((r.0.keys ≡ w.keys)
          ⊎ ((1 ≤ n)
              × (n ≤ 32)
              × (index < 4)
              × (r.0.keys ≡ update w.keys index (stored_key (w.keys index).key key n))))
unfolding add_wep_key mp_set
add_lem drv w key n index =
    let (keys, tx) = encr_keys drv w 16 1 in
    let w1 = if index == w.tx_key_index then (set_iw_encr_mode drv w 16 1).0 else w in
    let marked = if index == w.tx_key_index then index + 2 ^ 31 else index in
    let k1 : w1.keys ≡ w.keys = ground (arith, keys) in
    let t1 : w1.tx_key_index ≡ w.tx_key_index = ground (arith, tx) in
    elim (Bool-cases (n == 0 || ltb 32 n || leb 4 index)) [
      | inl bad ↦ rw bad (refl, inl refl)
      | inr fine ↦ elim (Bool-cases (drv w1.requests (add_wep marked (take n key)) == 0)) [
        | inl ok ↦ rw (fine, ok) (t1, inr (ground arith, ground arith, ground arith, rw k1 refl))
        | inr failed ↦ rw (fine, failed) (t1, inl k1)
      ]
    ]

add_IsKeys :
    (drv : Driver) (w : Wireless) (key : List ℕ) (n index : ℕ)
    → n ≤ length key
    → IsKeys w
    → IsKeys (add_wep_key drv w key n index).0
add_IsKeys drv w key n index h s =
    let (tx, c) = add_lem drv w key n index in
    elim c [
      | inl same ↦ same_keys w _ same tx s
      | inr (_, small, i, stored) ↦
          let (_, size) = s.fits index i in
          let new = stored-Fits (w.keys index).key key n size small h in
          record {
            tx = rw tx s.tx;
            fits = rw stored (λ j below. elim (Bool-cases (index == j)) [
              | inl e ↦ rw e new
              | inr n' ↦ rw n' (s.fits j below)
            ]);
          }
    ]

remove_lem :
    (drv : Driver) (w : Wireless) (index : ℕ) (bssid : Option (List ℕ)) (all_ones : Bool)
    → (w.keys index).length ≢ 0
    → let v = (remove_key drv w index bssid all_ones).0 in
      (v.keys ≡ update w.keys index (emptied (w.keys index))) × (v.tx_key_index ≡ w.tx_key_index)
unfolding remove_key mp_set
remove_lem drv w index bssid all_ones h =
    let w1 = record w { keys = update w.keys index (emptied (w.keys index)) } in
    let w2 = (mp_set drv w1 (removal w index bssid all_ones)).0 in
    let set : ((w.keys index).length == 0) ≡ false = ground arith in
    let (keys, tx) = encr_keys drv w2 1 1 in
    rw set (elim (Bool-cases (drv w.requests (removal w index bssid all_ones) == 0)) [
      | inr failed ↦ rw failed (refl, refl)
      | inl done ↦ rw done (elim (Bool-cases (index == w.tx_key_index)) [
        | inl is_tx ↦ rw is_tx (keys, tx)
        | inr not_tx ↦ rw not_tx (refl, refl)
      ])
    ])

-- A key that is removed counts as not set, but its array keeps all bytes behind the fourth, whatever
-- the driver answers.
removed_key_keeps_bytes :
    (drv : Driver) (w : Wireless) (index : ℕ) (bssid : Option (List ℕ)) (all_ones : Bool)
    → (w.keys index).length ≢ 0
    → let k = (remove_key drv w index bssid all_ones).0.keys index in
      (k.length ≡ 0) × (k.key ≡ replicate 4 0 ++ drop 4 (w.keys index).key)
unfolding emptied
removed_key_keeps_bytes drv w index bssid all_ones h =
    let (keys, _) = remove_lem drv w index bssid all_ones h in rw keys (ground arith)

remove_IsKeys :
    (drv : Driver) (w : Wireless) (index : ℕ) (bssid : Option (List ℕ)) (all_ones : Bool)
    → index < 4
    → IsKeys w
    → IsKeys (remove_key drv w index bssid all_ones).0
unfolding remove_key
remove_IsKeys drv w index bssid all_ones i s = elim (Bool-cases ((w.keys index).length == 0)) [
  | inl unset ↦ rw unset s
  | inr set ↦
      let (keys, tx) = remove_lem drv w index bssid all_ones (λ e. ground arith) in
      let new = emptied-Fits (w.keys index) (s.fits index i).1 in
      record {
        tx = rw tx s.tx;
        fits = rw keys (λ j below. elim (Bool-cases (index == j)) [
          | inl e ↦ rw e new
          | inr n' ↦ rw n' (s.fits j below)
        ]);
      }
]

announce_IsKeys :
    (drv : Driver) (w : Wireless) (key : List ℕ) (n index : ℕ)
    → n ≤ length key
    → IsKeys w
    → IsKeys (announce_tx_key drv w key n index)
unfolding announce_tx_key
announce_IsKeys drv w key n index h s =
    let lonely = not (index == 0) && not (other_key w.keys index 4) in
    let w' = if lonely then (add_wep_key drv w key n (index - 1)).0 else w in
    let s' : IsKeys w' = pick lonely (add_IsKeys drv w key n (index - 1) h s) s in
    let (k, t) = essid_keys drv w' w'.essid in same_keys w' _ k t s'
  where
    pick : (b : Bool) {x y : Wireless} → IsKeys x → IsKeys y → IsKeys (if b then x else y)
    pick true p q = p
    pick false p q = q

-- What all four branches keep.
branches :
    (a b c : Bool) (p q r t : Wireless × ℤ)
    → (a ≡ true → IsKeys p.0)
    → (a ≡ false → IsKeys q.0)
    → (a ≡ false → IsKeys r.0)
    → (a ≡ false → IsKeys t.0)
    → IsKeys (if a then p else if b then q else if c then r else t).0
branches true b c p q r t f g h k = f refl
branches false true c p q r t f g h k = g refl
branches false false true p q r t f g h k = h refl
branches false false false p q r t f g h k = k refl

retarget :
    (b : Bool) (w : Wireless) (index : ℕ)
    → index < 4
    → IsKeys w
    → IsKeys (if b then record w { tx_key_index = index } else w)
retarget true w index i s = record { tx = i; fits = s.fits }
retarget false w index i s = s

use_IsKeys :
    (drv : Driver) (w : Wireless) (index : ℕ) (given : List ℕ)
    → index < 4
    → IsKeys w
    → IsKeys (use_wep_key drv w index given).0
unfolding use_wep_key
use_IsKeys drv w index given i s =
    let stored = length given == 0 in
    let old = w.keys index in
    let w2 = if stored then record w { tx_key_index = index } else w in
    let key = if stored then old.key else given in
    let n = if stored then old.length else length given in
    let (len, size) = s.fits index i in
    let fits : n ≤ length key = ground (arith, len, size) in
    let r = add_wep_key drv w2 key n index in
    let s3 : IsKeys r.0 = add_IsKeys drv w2 key n index fits (retarget stored w index i s) in
    branches (stored && (old.length == 0)) (not (eqb_ℤ r.1 (pos 0))) (index == r.0.tx_key_index)
      (w, einval) (r.0, einval) (announce_tx_key drv r.0 key n index, pos 0) (r.0, pos 0) (λ _. s)
      (λ _. s3) (λ _. announce_IsKeys drv r.0 key n index fits s3) (λ _. s3)

-- Whatever a user asks of the WEP keys and whatever the driver answers, iw_set_wep leaves the arrays
-- of the keys at 32 bytes, the lengths within them, and the index of the transmit key below 4.
pub set_wep-IsKeys :
    (drv : Driver) (w : Wireless) (field : ℕ) (disabled open_mode : Bool) (given : List ℕ)
    → IsKeys w
    → IsKeys (iw_set_wep drv w field disabled open_mode given).0
unfolding iw_set_wep
set_wep-IsKeys drv w field disabled open_mode given s =
    let index = if field == 0 then w.tx_key_index else field - 1 in
    let r = remove_key drv w index none false in
    let mode : ℕ = if open_mode then 0 else 1 in
    let a = set_ndis_auth_mode drv w mode in
    let (k1, t1) = auth_keys drv w mode in
    let s1 : IsKeys a.0 = same_keys w a.0 k1 t1 s in
    branches (leb 4 index) disabled (not (eqb_ℤ a.1 (pos 0))) (w, einval)
      (r.0, if eqb_ℤ r.1 (pos 0) then pos 0 else einval) (a.0, einval)
      (use_wep_key drv a.0 index given) (λ _. s)
      (λ low. remove_IsKeys drv w index none false (ground (arith, low)) s) (λ _. s1)
      (λ low. use_IsKeys drv a.0 index given (ground (arith, low)) s1)
