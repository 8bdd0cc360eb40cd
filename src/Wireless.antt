-- ===== src/Wireless.antt =====
-- driver/iw_ndis.c: what the wireless extensions of Linux ask for, as requests to the driver. The state
-- is the wireless part of a device; the driver is a parameter, a function from the requests that it had
-- before and the new one to a status. Error numbers of Linux are negative integers.
pub mod Auth
pub mod Keys
pub mod Safety
pub mod Scan
use ndiswrapper.Base.{
  ℕ, suc, ◌-◌, ◌/◌, ◌%◌, Bool, true, false, Option, none, some, List, [], ◌∷◌, ◌++◌, ◌==◌,
  if◌then◌else◌, ℤ, pos, negsuc,
}

-- The requests: a number for an OID, an essid, and the keys. `bssid` is `none` for all ones.
pub data Request : Type 0 where
  set_number : ℕ → ℕ → Request
  set_ssid : List ℕ → Request
  add_wep : ℕ → List ℕ → Request
  remove_wep : ℕ → Request
  remove_wpa : ℕ → Option (List ℕ) → Request

-- `struct encr_key`, whose array has 32 bytes.
pub record EncrKey : Type 0 where
  pub length : ℕ
  pub key : List ℕ

-- The settings are sets of bits as Linux numbers them.
pub record Wireless : Type 0 where
  pub keys : ℕ → EncrKey
  pub tx_key_index : ℕ
  pub wpa_version : ℕ
  pub auth_80211_alg : ℕ
  pub key_mgmt : ℕ
  pub cipher_pairwise : ℕ
  pub cipher_group : ℕ
  pub essid : List ℕ
  pub requests : List Request

abbrev pub Driver : Type 0
Driver = List Request → Request → ℕ

abbrev pub einval : ℤ
einval = negsuc 21

abbrev pub eopnotsupp : ℤ
eopnotsupp = negsuc 94

unfoldable pub mp_set : Driver → Wireless → Request → Wireless × ℕ
mp_set drv w r = (record w { requests = w.requests ++ r ∷ [] }, drv w.requests r)

-- NDIS_STATUS_INVALID_DATA is 0xC0010015.
unfoldable pub set_error : ℕ → ℤ
set_error status = if status == 0xC0010015 then einval else eopnotsupp

-- A bit of a set.
unfoldable pub has_bit : ℕ → ℕ → Bool
has_bit set bit = (set / bit) % 2 == 1
