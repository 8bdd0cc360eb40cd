-- ===== src/Wireless/Auth.antt =====
-- driver/iw_ndis.c: authentication and encryption modes. The modes of NDIS are numbered from 0: open,
-- shared, automatic switch, WPA, WPA with a shared key, WPA without one, WPA2, WPA2 with a shared key.
-- WPA_VERSION_DISABLED, WPA and WPA2 are 1, 2 and 4; KEY_MGMT_802_1X and PSK 1 and 2; ALG_OPEN_SYSTEM
-- and SHARED_KEY 1 and 2; the ciphers none, WEP40, TKIP, CCMP and WEP104 are 1, 2, 4, 8 and 16.
use ndiswrapper.Base.{
  ℕ, ◌<◌, ◌≡◌, ◌≢◌, ◌∙◌, ◌||◌, [], ◌∷◌, ◌++◌, ◌==◌, if◌then◌else◌, ℤ, pos, arith,
}
use mathlib.Core.List.{append_assoc}
use ndiswrapper.Wireless.{set_number, Wireless, Driver, mp_set, set_error, has_bit}

-- The mode that set_iw_auth_mode asks for.
unfoldable pub iw_auth_mode : ℕ → ℕ → ℕ → ℕ
unfolding has_bit
iw_auth_mode key_mgmt wpa_version alg =
    if has_bit wpa_version 4
    then (if has_bit key_mgmt 1 then 6 else 7)
    else if has_bit wpa_version 2
    then (if has_bit key_mgmt 1 then 3 else if has_bit key_mgmt 2 then 4 else 5)
    else if has_bit alg 2
    then (if has_bit alg 1 then 2 else 1)
    else 0

-- OID_802_11_AUTHENTICATION_MODE is 0x0D010118.
unfoldable pub set_iw_auth_mode : Driver → Wireless → ℕ → ℕ → Wireless × ℤ
unfolding iw_auth_mode mp_set set_error
set_iw_auth_mode drv w wpa_version alg =
    let (w', res) =
      mp_set drv w (set_number 0x0D010118 (iw_auth_mode w.key_mgmt wpa_version alg)) in
    if res == 0
    then (record w' { wpa_version = wpa_version; auth_80211_alg = alg }, pos 0)
    else (w', set_error res)

unfoldable pub set_auth_mode : Driver → Wireless → Wireless × ℤ
unfolding set_iw_auth_mode
set_auth_mode drv w = set_iw_auth_mode drv w w.wpa_version w.auth_80211_alg

-- What set_ndis_auth_mode stores for a mode.
unfoldable pub store_auth_mode : Wireless → ℕ → Wireless
store_auth_mode w mode =
    if mode == 3
    then record w { wpa_version = 2; key_mgmt = 1 }
    else if mode == 4
    then record w { wpa_version = 2; key_mgmt = 2 }
    else if mode == 5
    then record w { wpa_version = 1; key_mgmt = 2 }
    else if mode == 6
    then record w { wpa_version = 4; key_mgmt = 1 }
    else if mode == 7
    then record w { wpa_version = 4; key_mgmt = 2 }
    else if mode == 0
    then record w { wpa_version = 1; auth_80211_alg = 1 }
    else if mode == 1
    then record w { wpa_version = 1; auth_80211_alg = 2 }
    else if mode == 2
    then record w { wpa_version = 1; auth_80211_alg = 3 }
    else w

unfoldable pub set_ndis_auth_mode : Driver → Wireless → ℕ → Wireless × ℤ
unfolding mp_set set_error store_auth_mode
set_ndis_auth_mode drv w mode =
    let (w', res) = mp_set drv w (set_number 0x0D010118 mode) in
    if res == 0 then (store_auth_mode w' mode, pos 0) else (w', set_error res)

-- 8021xWEP is 1 and AcceptAll 0; OID_802_11_PRIVACY_FILTER is 0x0D010119. A failure is ignored.
unfoldable pub set_priv_filter : Driver → Wireless → Wireless
unfolding mp_set has_bit
set_priv_filter drv w =
    let mode = if has_bit w.wpa_version 4 || has_bit w.wpa_version 2 then 1 else 0 in
    (mp_set drv w (set_number 0x0D010119 mode)).0

-- The mode that set_iw_encr_mode asks for: 6 for CCMP, 4 for TKIP, 0 for WEP and 1 for none.
unfoldable pub iw_encr_mode : ℕ → ℕ → ℕ
unfolding has_bit
iw_encr_mode pairwise group =
    if has_bit pairwise 8
    then 6
    else if has_bit pairwise 4
    then 4
    else if has_bit pairwise 2 || has_bit pairwise 16
    then 0
    else if has_bit group 8
    then 6
    else if has_bit group 4
    then 4
    else 1

-- OID_802_11_ENCRYPTION_STATUS is 0x0D01011B.
unfoldable pub set_iw_encr_mode : Driver → Wireless → ℕ → ℕ → Wireless × ℤ
unfolding iw_encr_mode mp_set set_error
set_iw_encr_mode drv w pairwise group =
    let (w', res) = mp_set drv w (set_number 0x0D01011B (iw_encr_mode pairwise group)) in
    if res == 0
    then (record w' { cipher_pairwise = pairwise; cipher_group = group }, pos 0)
    else (w', set_error res)

pub set_encr_mode : Driver → Wireless → Wireless × ℤ
unfolding set_iw_encr_mode
set_encr_mode drv w = set_iw_encr_mode drv w w.cipher_pairwise w.cipher_group

pub set_assoc_params : Driver → Wireless → Wireless
unfolding set_auth_mode set_priv_filter set_encr_mode
set_assoc_params drv w = (set_encr_mode drv (set_priv_filter drv (set_auth_mode drv w).0)).0

stored_lem :
    (w : Wireless) (mode : ℕ)
    → mode < 8
    → mode ≢ 5
    → let v = store_auth_mode w mode in
      (iw_auth_mode v.key_mgmt v.wpa_version v.auth_80211_alg ≡ mode) × (v.requests ≡ w.requests)
unfolding store_auth_mode iw_auth_mode has_bit
stored_lem w mode h n = ground arith

asked_lem :
    (drv : Driver) (w : Wireless)
    → (set_auth_mode drv w).0.requests
      ≡ w.requests
        ++ set_number 0x0D010118 (iw_auth_mode w.key_mgmt w.wpa_version w.auth_80211_alg) ∷ []
unfolding set_auth_mode set_iw_auth_mode mp_set
asked_lem drv w = ground arith

accepted_lem :
    (drv : Driver) (w : Wireless) (mode : ℕ)
    → drv w.requests (set_number 0x0D010118 mode) ≡ 0
    → (set_ndis_auth_mode drv w mode).0
      ≡ store_auth_mode (record w { requests = w.requests ++ set_number 0x0D010118 mode ∷ [] }) mode
unfolding set_ndis_auth_mode mp_set
accepted_lem drv w mode ok = ground (arith, ok)

-- The driver accepts an authentication mode other than WPA without a key. Then set_auth_mode, with what
-- the wrapper has stored, asks the driver for the same mode again.
pub auth_mode_is_kept :
    (drv : Driver) (w : Wireless) (mode : ℕ)
    → mode < 8
    → mode ≢ 5
    → drv w.requests (set_number 0x0D010118 mode) ≡ 0
    → (set_auth_mode drv (set_ndis_auth_mode drv w mode).0).0.requests
      ≡ w.requests ++ set_number 0x0D010118 mode ∷ set_number 0x0D010118 mode ∷ []
auth_mode_is_kept drv w mode h n ok =
    let w' = record w { requests = w.requests ++ set_number 0x0D010118 mode ∷ [] } in
    let v = store_auth_mode w' mode in
    let (same, kept) = stored_lem w' mode h n in
    rw (accepted_lem drv w mode ok)
      (asked_lem drv v ∙ rw (same, kept) (append_assoc w.requests _ _))

weak_mode : (alg : ℕ) → iw_auth_mode 2 1 alg < 3
unfolding iw_auth_mode has_bit
weak_mode alg = ground arith

-- For WPA without a key the wrapper stores that WPA is off, so it asks for an open, a shared or a
-- switching mode the next time, as the algorithm stood before.
wpa_none_is_lost :
    (drv : Driver) (w : Wireless)
    → drv w.requests (set_number 0x0D010118 5) ≡ 0
    → (mode : ℕ) × (mode < 3)
      × ((set_auth_mode drv (set_ndis_auth_mode drv w 5).0).0.requests
          ≡ w.requests ++ set_number 0x0D010118 5 ∷ set_number 0x0D010118 mode ∷ [])
unfolding store_auth_mode
wpa_none_is_lost drv w ok =
    let w' = record w { requests = w.requests ++ set_number 0x0D010118 5 ∷ [] } in
    let v = store_auth_mode w' 5 in
    (
      iw_auth_mode 2 1 w.auth_80211_alg,
      weak_mode w.auth_80211_alg,
      rw (accepted_lem drv w 5 ok) (asked_lem drv v ∙ append_assoc w.requests _ _),
    )
