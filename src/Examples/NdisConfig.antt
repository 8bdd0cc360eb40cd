-- ===== src/Examples/NdisConfig.antt =====
-- driver/ndis.c: settings with numbers of one digit.
use ndiswrapper.Base.{
  ℕ, zero, suc, ◌+◌, ◌-◌, ◌≡◌, refl, Bool, true, false, ◌&&◌, some, List, [], ◌∷◌, ◌==◌, arith,
}
use ndiswrapper.NdisConfig.{
  Setting, Library, integer_type, ndis_read_configuration, ndis_write_configuration,
}
use ndiswrapper.NdisConfig.Settings.{number, written_number_is_read}

-- strncasecmp without the folding of case: the first bytes are equal, or both strings end before.
abbrev same_bytes : List ℕ → List ℕ → ℕ → Bool
same_bytes xs ys zero = true
same_bytes [] [] (suc n) = true
same_bytes (x ∷ xs) (y ∷ ys) (suc n) = x == y && same_bytes xs ys n
same_bytes _ _ (suc n) = false

abbrev digit_value : List ℕ → ℕ → ℕ
digit_value [] base = 0
digit_value (c ∷ cs) base = c - 48

abbrev library : Library
library = record {
  strtol = digit_value;
  print = λ n. (n + 48) ∷ [];
  print_hex = λ n. (n + 48) ∷ [];
  same_prefix = same_bytes;
}

-- The key "Rate" and a setting "Mode" with the value "1", which was read before.
abbrev rate : List ℕ
rate = 82 ∷ 97 ∷ 116 ∷ 101 ∷ []

abbrev mode : Setting
mode = record { name = 77 ∷ 111 ∷ 100 ∷ 101 ∷ []; value = 49 ∷ []; encoded = some (number 1) }

written_number_is_read_example :
    (device' : List Setting) × (ndis_write_configuration library true (mode ∷ []) rate (number 6)
      ≡ some (device', true))
    × (let r = ndis_read_configuration library true true device' [] rate integer_type in
        (r.1 ≡ true) × (r.2 ≡ some (number 6)))
written_number_is_read_example =
    written_number_is_read library rate (mode ∷ []) [] 6 true (omega arith) (refl, tt) refl refl
