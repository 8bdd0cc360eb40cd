-- ===== src/NdisConfig.antt =====
-- driver/ndis.c: the configuration parameters of a device (ndis_encode_setting, ndis_decode_setting,
-- read_setting, NdisReadConfiguration, NdisWriteConfiguration). Keys are the bytes after their
-- conversion by RtlUnicodeStringToAnsiString; simple_strtol, snprintf, strncasecmp and whether an
-- allocation succeeds are parameters. A string is the list of its bytes without the final 0.
pub mod Settings
use ndiswrapper.Base.{
  ℕ, zero, suc, ◌+◌, ◌-◌, ◌%◌, ◌^◌, Bool, true, false, ◌||◌, ◌&&◌, Option, none, some, List, [],
  ◌∷◌, ◌++◌, ◌==◌, if◌then◌else◌, is_some, not, ltb, leb, length, take, map,
}
use ndiswrapper.Rtl.Convert.{widen, narrow}

pub data ParameterType : Type 0 where
  integer_type hex_integer_type string_type multi_string_type binary_type : ParameterType

abbrev pub same_type : ParameterType → ParameterType → Bool
same_type integer_type t = elim t [ integer_type ↦ true | _ ↦ false ]
same_type hex_integer_type t = elim t [ hex_integer_type ↦ true | _ ↦ false ]
same_type string_type t = elim t [ string_type ↦ true | _ ↦ false ]
same_type multi_string_type t = elim t [ multi_string_type ↦ true | _ ↦ false ]
same_type binary_type t = elim t [ binary_type ↦ true | _ ↦ false ]

pub data ParameterData : Type 0 where
  integer : ℕ → ParameterData
  string : List ℕ → ParameterData

-- `struct ndis_configuration_parameter`.
pub record Parameter : Type 0 where
  pub type : ParameterType
  pub contents : ParameterData

-- `struct wrap_device_setting`.
pub record Setting : Type 0 where
  pub name : List ℕ
  pub value : List ℕ
  pub encoded : Option Parameter

-- The functions of Linux: simple_strtol of a string to a base, snprintf of a number with %u and with
-- %x, and whether strncasecmp of two strings and a length is 0.
pub record Library : Type 0 where
  pub strtol : List ℕ → ℕ → ℕ
  pub print : ℕ → List ℕ
  pub print_hex : ℕ → List ℕ
  pub same_prefix : List ℕ → List ℕ → ℕ → Bool

abbrev pub max_setting_value_len : ℕ
max_setting_value_len = 256

abbrev pub max_setting_name_len : ℕ
max_setting_name_len = 128

module _ (lib : Library) where
  -- The data of a parameter of a type, `none` where the code gives up. `allocates` says whether the
  -- buffer of a string can be allocated. `data.integer` has 32 bits.
  pub encode_data : Bool → List ℕ → ParameterType → Option ParameterData
  encode_data allocates value integer_type = some (integer (lib.strtol value 0 % 2 ^ 32))
  encode_data allocates value hex_integer_type = some (integer (lib.strtol value 16 % 2 ^ 32))
  encode_data allocates value string_type =
      if allocates then some (string (map widen value)) else none
  encode_data allocates value multi_string_type = none
  encode_data allocates value binary_type = some (integer (lib.strtol value 2 % 2 ^ 32))

  -- The setting and the parameter that is returned; the first flag says whether a parameter can be
  -- allocated, which is tried only where the setting has none.
  pub ndis_encode_setting : Bool → Bool → Setting → ParameterType → Setting × Option Parameter
  ndis_encode_setting allocates string_allocates setting type =
      let fresh = record setting { encoded = none } in
      let made : Setting × Option Parameter =
        elim (encode_data string_allocates setting.value type) [
          | none ↦ (fresh, none)
          | some d ↦
              let p : Parameter = record { type = type; contents = d } in
              (record setting { encoded = some p }, some p)
        ] in
      elim setting.encoded [
        | some p ↦ if same_type p.type type then (setting, some p) else made
        | none ↦ if allocates then made else (fresh, none)
      ]

  -- What is written to the value, if anything, and whether the code goes on. snprintf keeps one byte
  -- less than the buffer has; a string of just the size of the buffer is written and refused.
  pub decode_data : ParameterType → ParameterData → Option (List ℕ) × Bool
  decode_data integer_type (integer n) =
      (some (take (max_setting_value_len - 1) (lib.print n)), true)
  decode_data hex_integer_type (integer n) =
      (some (take (max_setting_value_len - 1) (lib.print_hex n)), true)
  decode_data string_type (string s) =
      if ltb max_setting_value_len (length s)
      then (none, false)
      else (some (map narrow s), ltb (length s) max_setting_value_len)
  decode_data _ _ = (none, false)

  pub ndis_decode_setting : Setting → Parameter → Setting × Bool
  ndis_decode_setting setting param =
      let encoded : Option Parameter = elim setting.encoded [
        | none ↦ none
        | some prev ↦ if same_type prev.type string_type then none else some prev
      ] in
      let s = record setting { encoded = encoded } in
      let (written, done) = decode_data param.type param.contents in
      elim written [ none ↦ (s, done) | some v ↦ (record s { value = v }, done) ]

  -- The first setting of the list whose name is found. `none` where there is none.
  pub read_setting :
      (Setting → Setting × Option Parameter)
      → List Setting
      → List ℕ
      → Option (List Setting × Option Parameter)
  read_setting encode [] key = none
  read_setting encode (s ∷ ss) key =
      let rest = read_setting encode ss key in
      if lib.same_prefix key s.name (length key)
      then (let (s', p) = encode s in some (s' ∷ ss, p))
      else (elim rest [ none ↦ none | some r ↦ some (s ∷ r.0, r.1) ])

  -- NdisReadConfiguration: the settings of the device, then those of the driver. The lists, whether
  -- the status is NDIS_STATUS_SUCCESS and the parameter.
  pub ndis_read_configuration :
      Bool
      → Bool
      → List Setting
      → List Setting
      → List ℕ
      → ParameterType
      → (List Setting × List Setting) × Bool × Option Parameter
  ndis_read_configuration allocates string_allocates device driver key type =
      let encode : Setting → Setting × Option Parameter =
        λ s. ndis_encode_setting allocates string_allocates s type in
      let of_driver : List Setting → (List Setting × List Setting) × Bool × Option Parameter = λ d.
        elim (read_setting encode driver key) [
          | some (ss, p) ↦ ((d, ss), is_some p, p)
          | none ↦ ((d, driver), false, none)
        ] in
      elim (read_setting encode device key) [
        | some (ss, some p) ↦ ((ss, driver), true, some p)
        | some (ss, none) ↦ of_driver ss
        | none ↦ of_driver device
      ]

  -- The first setting whose name is found is changed; `none` where there is none.
  pub write_setting : List Setting → List ℕ → Parameter → Option (List Setting × Bool)
  write_setting [] key param = none
  write_setting (s ∷ ss) key param =
      let rest = write_setting ss key param in
      if lib.same_prefix key s.name (length key)
      then (let (s', done) = ndis_decode_setting s param in some (s' ∷ ss, done))
      else (elim rest [ none ↦ none | some r ↦ some (s ∷ r.0, r.1) ])

  -- NdisWriteConfiguration: the list and whether the status is NDIS_STATUS_SUCCESS. A new setting is
  -- kept only if its value could be written. The key and a final 0 are copied to the 128 bytes of its
  -- name: `none` where they are written over the end.
  pub ndis_write_configuration :
      Bool → List Setting → List ℕ → Parameter → Option (List Setting × Bool)
  ndis_write_configuration allocates settings key param = elim (write_setting settings key param) [
    | some r ↦ some r
    | none ↦
        let (s, done) =
          ndis_decode_setting (record { name = key; value = []; encoded = none }) param in
        if not allocates
        then some (settings, false)
        else if leb max_setting_name_len (length key)
        then none
        else some (if done then (settings ++ s ∷ [], true) else (settings, false))
  ]
