-- ===== src/Wireless/Keys.antt =====
-- driver/iw_ndis.c: the WEP keys: add_wep_key, remove_key, iw_set_wep and iw_get_encr.
use ndiswrapper.Base.{
  ℕ, zero, suc, ◌+◌, ◌-◌, ◌^◌, Bool, true, false, ◌&&◌, ◌||◌, not, Option, none, some, List, [],
  ◌++◌, ◌==◌, if◌then◌else◌, leb, ltb, ℤ, pos, eqb_ℤ, update, take, drop, replicate, length,
}
use ndiswrapper.Wireless.{
  Request, set_ssid, add_wep, remove_wep, remove_wpa, EncrKey, Wireless, Driver, einval, mp_set,
}
use ndiswrapper.Wireless.Auth.{set_iw_encr_mode, set_ndis_auth_mode}

-- NDIS_ESSID_MAX_SIZE is 32; the essid is the list of its bytes.
unfoldable pub set_essid : Driver → Wireless → List ℕ → Wireless × ℤ
unfolding mp_set
set_essid drv w ssid =
    let (w', res) = mp_set drv w (set_ssid ssid) in
    if ltb 32 (length ssid)
    then (w, einval)
    else if res == 0
    then (record w' { essid = ssid }, pos 0)
    else (w', einval)

-- The first `key_len` bytes of an array of 32 are replaced.
unfoldable pub stored_key : List ℕ → List ℕ → ℕ → EncrKey
stored_key old key key_len = record { length = key_len; key = take key_len key ++ drop key_len old }

-- NDIS_ENCODING_TOKEN_MAX is 32 and MAX_ENCR_KEYS 4. The transmit key is marked by the top bit of its
-- index, and switches encryption on: WEP104 is 16 and no cipher 1.
unfoldable pub add_wep_key : Driver → Wireless → List ℕ → ℕ → ℕ → Wireless × ℤ
unfolding set_iw_encr_mode mp_set stored_key
add_wep_key drv w key key_len index =
    let is_tx = index == w.tx_key_index in
    let w1 = if is_tx then (set_iw_encr_mode drv w 16 1).0 else w in
    let marked = if is_tx then index + 2 ^ 31 else index in
    let (w2, res) = mp_set drv w1 (add_wep marked (take key_len key)) in
    if key_len == 0 || ltb 32 key_len || leb 4 index
    then (w, einval)
    else if res == 0
    then (
      record w2 { keys = update w2.keys index (stored_key (w2.keys index).key key key_len) },
      pos 0,
    )
    else (w2, einval)

-- The array loses its first four bytes: the size of the field `length`.
unfoldable pub emptied : EncrKey → EncrKey
emptied k = record { length = 0; key = replicate 4 0 ++ drop 4 k.key }

-- The request to the driver. `bssid` is `none` for NULL, and `all_ones` says whether it is ff:..:ff. A
-- pairwise key is marked by bit 30. TKIP is 4 and CCMP 8.
unfoldable pub removal : Wireless → ℕ → Option (List ℕ) → Bool → Request
removal w index bssid all_ones =
    let wpa =
      w.cipher_pairwise == 4
      || w.cipher_pairwise == 8
      || w.cipher_group == 4
      || w.cipher_group == 8 in
    let marked : ℕ = elim bssid [
      | none ↦ index
      | some _ ↦ if all_ones then index else index + 2 ^ 30
    ] in
    if wpa then remove_wpa marked bssid else remove_wep index

unfoldable pub remove_key : Driver → Wireless → ℕ → Option (List ℕ) → Bool → Wireless × ℤ
unfolding emptied mp_set set_iw_encr_mode removal
remove_key drv w index bssid all_ones =
    let w1 = record w { keys = update w.keys index (emptied (w.keys index)) } in
    let (w2, res) = mp_set drv w1 (removal w index bssid all_ones) in
    let w3 = if index == w2.tx_key_index then (set_iw_encr_mode drv w2 1 1).0 else w2 in
    if (w.keys index).length == 0
    then (w, pos 0)
    else if res == 0
    then (w3, pos 0)
    else (w2, einval)

-- Whether one of the first `n` keys but that at `index` is set.
unfoldable pub other_key : (ℕ → EncrKey) → ℕ → ℕ → Bool
other_key keys index zero = false
other_key keys index (suc n) =
    (not (n == index) && not ((keys n).length == 0)) || other_key keys index n

-- The transmit key was added: another key may be needed, and the essid is set again.
unfoldable pub announce_tx_key : Driver → Wireless → List ℕ → ℕ → ℕ → Wireless
unfolding add_wep_key other_key set_essid
announce_tx_key drv w key key_len index =
    let lonely = not (index == 0) && not (other_key w.keys index 4) in
    let w' = if lonely then (add_wep_key drv w key key_len (index - 1)).0 else w in
    (set_essid drv w' w'.essid).0

-- iw_set_wep behind the authentication mode. Without bytes of its own the request makes the key at
-- `index` the transmit key.
unfoldable pub use_wep_key : Driver → Wireless → ℕ → List ℕ → Wireless × ℤ
unfolding add_wep_key announce_tx_key
use_wep_key drv w index given =
    let stored = length given == 0 in
    let old = w.keys index in
    let w2 = if stored then record w { tx_key_index = index } else w in
    let key = if stored then old.key else given in
    let key_len = if stored then old.length else length given in
    let (w3, bad) = add_wep_key drv w2 key key_len index in
    if stored && (old.length == 0)
    then (w, einval)
    else if not (eqb_ℤ bad (pos 0))
    then (w3, einval)
    else if index == w3.tx_key_index
    then (announce_tx_key drv w3 key key_len index, pos 0)
    else (w3, pos 0)

-- `field` is the index of the request, from 1, or 0 for the transmit key; `given` are its bytes.
unfoldable pub iw_set_wep : Driver → Wireless → ℕ → Bool → Bool → List ℕ → Wireless × ℤ
unfolding remove_key set_ndis_auth_mode use_wep_key
iw_set_wep drv w field disabled open_mode given =
    let index = if field == 0 then w.tx_key_index else field - 1 in
    let (removed, failed) = remove_key drv w index none false in
    let (w1, res) = set_ndis_auth_mode drv w (if open_mode then 0 else 1) in
    if leb 4 index
    then (w, einval)
    else if disabled
    then (removed, if eqb_ℤ failed (pos 0) then pos 0 else einval)
    else if not (eqb_ℤ res (pos 0))
    then (w1, einval)
    else use_wep_key drv w1 index given

-- What iw_get_encr tells of a key: ENABLED or DISABLED, and the bytes.
pub record KeyAnswer : Type 0 where
  pub enabled : Bool
  pub bytes : List ℕ

-- A key that is not the transmit key; `none` is an error. The answer for the transmit key asks the
-- driver, and is left out.
unfoldable pub get_other_key : Wireless → ℕ → Option KeyAnswer
get_other_key w field =
    let index = if field == 0 then w.tx_key_index else field - 1 in
    let k = w.keys index in
    if leb 4 index || (index == w.tx_key_index)
    then none
    else if k.length == 0
    then some (record { enabled = false; bytes = [] })
    else some (record { enabled = true; bytes = take k.length k.key })
