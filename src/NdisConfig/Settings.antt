-- ===== src/NdisConfig/Settings.antt =====
-- driver/ndis.c: what NdisReadConfiguration returns after NdisWriteConfiguration.
use ndiswrapper.Base.{
  ℕ, ◌%◌, ◌^◌, ◌<◌, ◌≡◌, refl, ap, ◌∙◌, Bool, true, false, Option, none, some, List, [], ◌∷◌, ◌++◌,
  arith, leb, length, take, All,
}
use ndiswrapper.NdisConfig.{
  Parameter, integer_type, Setting, Library, integer, ndis_encode_setting, ndis_decode_setting,
  decode_data, encode_data, read_setting, write_setting, ndis_read_configuration,
  ndis_write_configuration,
}

abbrev pub number : ℕ → Parameter
number n = record { type = integer_type; contents = integer n }

module _ (lib : Library) (key : List ℕ) where
  -- No setting of the list is found under the key.
  abbrev pub Unknown : List Setting → Type 0
  Unknown ss = All (λ s. lib.same_prefix key s.name (length key) ≡ false) ss

  write-Unknown :
      (ss : List Setting) (p : Parameter) → Unknown ss → write_setting lib ss key p ≡ none
  unfolding write_setting
  write-Unknown [] p u = refl
  write-Unknown (s ∷ ss) p u = rw (u.0, write-Unknown ss p u.1) refl

  read_last :
      (encode : Setting → Setting × Option Parameter) (ss : List Setting) (s : Setting)
      → Unknown ss
      → lib.same_prefix key s.name (length key) ≡ true
      → read_setting lib encode (ss ++ s ∷ []) key ≡ some (ss ++ (encode s).0 ∷ [], (encode s).1)
  unfolding read_setting
  read_last encode [] s u k = rw k refl
  read_last encode (x ∷ ss) s u k = rw (u.0, read_last encode ss s u.1 k) refl

  -- The setting that a write of a number makes.
  made : ℕ → Setting
  made n = record { name = key; value = take 255 (lib.print n); encoded = none }

  write_new :
      (ss : List Setting) (n : ℕ)
      → length key < 128
      → Unknown ss
      → ndis_write_configuration lib true ss key (number n) ≡ some (ss ++ made n ∷ [], true)
  unfolding ndis_write_configuration ndis_decode_setting decode_data made
  write_new ss n short u =
      let fits : leb 128 (length key) ≡ false = ground arith in
      rw (ndis_write_configuration, write-Unknown ss (number n) u, fits) refl

  encode_made :
      (n : ℕ) (string_allocates : Bool)
      → lib.strtol (take 255 (lib.print n)) 0 % 2 ^ 32 ≡ n
      → (ndis_encode_setting lib true string_allocates (made n) integer_type).1 ≡ some (number n)
  unfolding ndis_encode_setting encode_data made
  encode_made n b e = rw e refl

  -- The settings of the device answer.
  device_answers :
      (device driver ss : List Setting) (p : Parameter) (string_allocates : Bool)
      → read_setting lib
          (λ s. ndis_encode_setting lib true string_allocates s integer_type)
          device
          key
        ≡ some (ss, some p)
      → ndis_read_configuration lib true string_allocates device driver key integer_type
        ≡ ((ss, driver), true, some p)
  unfolding ndis_read_configuration
  device_answers device driver ss p b e = rw (ndis_read_configuration, e) refl

  -- A number that is written as an integer, in decimal, under a new key of fewer than 128 bytes is read
  -- back as an integer under that key, and both calls succeed, if memory can be allocated, strncasecmp finds a key equal to itself, and simple_strtol reads what
  -- snprintf printed of this number.
  pub written_number_is_read :
      (device driver : List Setting) (n : ℕ) (string_allocates : Bool)
      → length key < 128
      → Unknown device
      → lib.same_prefix key key (length key) ≡ true
      → lib.strtol (take 255 (lib.print n)) 0 % 2 ^ 32 ≡ n
      → (device' : List Setting) × (ndis_write_configuration lib true device key (number n)
          ≡ some (device', true))
        × (let r =
              ndis_read_configuration lib true string_allocates device' driver key integer_type in
            (r.1 ≡ true) × (r.2 ≡ some (number n)))
  written_number_is_read device driver n b short u k e =
      let encode : Setting → Setting × Option Parameter =
        λ s. ndis_encode_setting lib true b s integer_type in
      let write = write_new device n short u in
      let found = read_last encode device (made n) u (unfold made in k) in
      let answer : read_setting lib encode (device ++ made n ∷ []) key
          ≡ some (device ++ (encode (made n)).0 ∷ [], some (number n)) =
        found ∙ ap (λ p. some (device ++ (encode (made n)).0 ∷ [], p)) (encode_made n b e) in
      let read = device_answers (device ++ made n ∷ []) driver _ (number n) b answer in
      (device ++ made n ∷ [], write, (ap (λ r. r.1) read, ap (λ r. r.2) read))

  changed : Setting → ℕ → Setting
  changed s n = record s { value = take 255 (lib.print n) }

  decode_changed :
      (s : Setting) (old n : ℕ)
      → s.encoded ≡ some (number old)
      → ndis_decode_setting lib s (number n) ≡ (changed s n, true)
  unfolding ndis_decode_setting decode_data changed
  decode_changed s old n e = rw (ndis_decode_setting, e) refl

  write_changed :
      (s : Setting) (ss : List Setting) (old n : ℕ)
      → lib.same_prefix key s.name (length key) ≡ true
      → s.encoded ≡ some (number old)
      → write_setting lib (s ∷ ss) key (number n) ≡ some (changed s n ∷ ss, true)
  unfolding write_setting
  write_changed s ss old n k e = rw (k, decode_changed s old n e) refl

  encode_stale :
      (s : Setting) (old n : ℕ) (b : Bool)
      → s.encoded ≡ some (number old)
      → ndis_encode_setting lib true b (changed s n) integer_type ≡ (changed s n, some (number old))
  unfolding ndis_encode_setting changed
  encode_stale s old n b e = ground (arith, e)

  write_found :
      (s : Setting) (ss : List Setting) (old n : ℕ)
      → lib.same_prefix key s.name (length key) ≡ true
      → s.encoded ≡ some (number old)
      → ndis_write_configuration lib true (s ∷ ss) key (number n) ≡ some (changed s n ∷ ss, true)
  unfolding ndis_write_configuration
  write_found s ss old n k e = rw (ndis_write_configuration, write_changed s ss old n k e) refl

  read_first :
      (s : Setting) (ss : List Setting) (old n : ℕ) (b : Bool)
      → lib.same_prefix key s.name (length key) ≡ true
      → s.encoded ≡ some (number old)
      → read_setting lib (λ x. ndis_encode_setting lib true b x integer_type) (changed s n ∷ ss) key
        ≡ some (changed s n ∷ ss, some (number old))
  unfolding read_setting
  read_first s ss old n b k e =
      let same : lib.same_prefix key (changed s n).name (length key) ≡ true = unfold changed in k in
      rw (same, encode_stale s old n b e) refl

  -- A setting under the key has been read as a number before. A number is written, with success, and
  -- is read again: the read returns the parameter of the first read, not what was written.
  written_number_is_stale :
      (s : Setting) (device driver : List Setting) (old n : ℕ) (string_allocates : Bool)
      → lib.same_prefix key s.name (length key) ≡ true
      → s.encoded ≡ some (number old)
      → (device' : List Setting) × (ndis_write_configuration lib true (s ∷ device) key (number n)
          ≡ some (device', true))
        × (let r =
              ndis_read_configuration lib true string_allocates device' driver key integer_type in
            (r.1 ≡ true) × (r.2 ≡ some (number old)))
  written_number_is_stale s device driver old n b k e =
      let read =
        device_answers (changed s n ∷ device) driver _ (number old) b
          (read_first s device old n b k e) in
      (
        changed s n ∷ device,
        write_found s device old n k e,
        (ap (λ r. r.1) read, ap (λ r. r.2) read),
      )
