-- ===== src/Examples/Wireless.antt =====
-- driver/iw_ndis.c: wireless settings on concrete states: the driver accepts everything, and the key 1
-- is set, with five bytes.
use ndiswrapper.Base.{
  ℕ, ◌≡◌, refl, true, false, some, List, [], ◌∷◌, ◌++◌, ◌==◌, if◌then◌else◌, arith, map, replicate,
  All,
}
use ndiswrapper.Wireless.{set_number, EncrKey, Wireless, Driver}
use ndiswrapper.Wireless.Auth.{set_auth_mode, set_ndis_auth_mode, auth_mode_is_kept}
use ndiswrapper.Wireless.Keys.{iw_set_wep}
use ndiswrapper.Wireless.Safety.{IsKeys, set_wep-IsKeys}
use ndiswrapper.Wireless.Scan.{ie_loop, IsElement, concat, Ends, event_of, elements_are_events}

abbrev willing : Driver
willing before request = 0

abbrev keys_at : ℕ → EncrKey
keys_at index =
    if index == 1
    then record { length = 5; key = 1 ∷ 2 ∷ 3 ∷ 4 ∷ 5 ∷ replicate 27 0 }
    else record { length = 0; key = replicate 32 0 }

abbrev radio : Wireless
radio = record {
  keys = keys_at;
  tx_key_index = 1;
  wpa_version = 1;
  auth_80211_alg = 1;
  key_mgmt = 0;
  cipher_pairwise = 1;
  cipher_group = 1;
  essid = [];
  requests = [];
}

radio-IsKeys : IsKeys radio
radio-IsKeys = record { tx = omega arith; fits = λ i h. ground arith }

-- The key 1, which is the transmit key, gets thirteen bytes.
set_wep-IsKeys_example : IsKeys (iw_set_wep willing radio 2 false true (replicate 13 7)).0
set_wep-IsKeys_example = set_wep-IsKeys willing radio 2 false true (replicate 13 7) radio-IsKeys

auth_mode_is_kept_example :
    (set_auth_mode willing (set_ndis_auth_mode willing radio 7).0).0.requests
    ≡ [] ++ set_number 0x0D010118 7 ∷ set_number 0x0D010118 7 ∷ []
auth_mode_is_kept_example = auth_mode_is_kept willing radio 7 (omega arith) (λ e. omega arith) refl

elements_are_events_example :
    (ies : List (List ℕ)) × (rest : List ℕ) × (ie_loop 9 (1 ∷ 2 ∷ 7 ∷ 8 ∷ 5 ∷ 0 ∷ 6 ∷ 9 ∷ [])
      ≡ some (map event_of ies))
    × ((1 ∷ 2 ∷ 7 ∷ 8 ∷ 5 ∷ 0 ∷ 6 ∷ 9 ∷ []) ≡ concat ies ++ rest)
    × All IsElement ies
    × Ends rest
elements_are_events_example =
    elements_are_events 9 (1 ∷ 2 ∷ 7 ∷ 8 ∷ 5 ∷ 0 ∷ 6 ∷ 9 ∷ []) (omega arith)
