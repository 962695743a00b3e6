-- ===== src/Compression/Script.antt =====
-- Compressed scripts (bitcoincorecompression/compression.go, the second section).
-- btcec's public keys are a parameter. The result `none` is a panic; a nil slice is empty.
pub mod Shapes
pub mod Sizes
pub mod RoundTrip
use bitcoin_utxo_indexer.Prelude.{
  ℕ, ◌+◌, ◌-◌, ◌*◌, ◌%◌, ◌^◌, ◌≡◌, bit_and, bit_or, List, [], ◌∷◌, ◌++◌, Option, none, some, Bool,
  true, false, ◌&&◌, ◌||◌, length, set, get_or, replicate, take, drop, ltb, leb, ◌==◌,
  if◌then◌else◌,
}
use bitcoin_utxo_indexer.Prelude.Slices.{slice, copy_at}
use bitcoin_utxo_indexer.Compression.Vlq.{serialize_size_vlq, put_vlq, deserialize_vlq}

-- What the package uses of btcec: `none` is a failing `ParsePubKey`.
pub record Curve : Type 1 where
  pub Key : Type 0
  pub parse_pub_key : List ℕ → Option Key
  pub serialize_uncompressed : Key → List ℕ

-- The opcodes of txscript that the package names.
abbrev pub op_dup : ℕ
op_dup = 0x76

abbrev pub op_hash160 : ℕ
op_hash160 = 0xa9

abbrev pub op_data_20 : ℕ
op_data_20 = 0x14

abbrev pub op_data_33 : ℕ
op_data_33 = 0x21

abbrev pub op_data_65 : ℕ
op_data_65 = 0x41

abbrev pub op_equal : ℕ
op_equal = 0x87

abbrev pub op_equalverify : ℕ
op_equalverify = 0x88

abbrev pub op_checksig : ℕ
op_checksig = 0xac

abbrev pub num_special_scripts : ℕ
num_special_scripts = 6

-- The byte of a script whose length was tested before.
abbrev pub byte_at : List ℕ → ℕ → ℕ
byte_at s i = get_or s i 0

-- `none` is the answer `(false, nil)`.
unfoldable pub is_pub_key_hash : List ℕ → Option (List ℕ)
is_pub_key_hash script =
    if length script == 25
      && byte_at script 0 == op_dup
      && byte_at script 1 == op_hash160
      && byte_at script 2 == op_data_20
      && byte_at script 23 == op_equalverify
      && byte_at script 24 == op_checksig
    then some (take 20 (drop 3 script))
    else none

unfoldable pub is_script_hash : List ℕ → Option (List ℕ)
is_script_hash script =
    if length script == 23
      && byte_at script 0 == op_hash160
      && byte_at script 1 == op_data_20
      && byte_at script 22 == op_equal
    then some (take 20 (drop 2 script))
    else none

-- The tests of `isPubKey` before it parses the key.
abbrev pub has_compressed_form : List ℕ → Bool
has_compressed_form script =
    length script == 35
    && byte_at script 0 == op_data_33
    && byte_at script 34 == op_checksig
    && (byte_at script 1 == 0x02 || byte_at script 1 == 0x03)

abbrev pub has_uncompressed_form : List ℕ → Bool
has_uncompressed_form script =
    length script == 67
    && byte_at script 0 == op_data_65
    && byte_at script 66 == op_checksig
    && byte_at script 1 == 0x04

module _ (curve : Curve) where
  open curve use {Key, parse_pub_key, serialize_uncompressed}

  -- The key, where it is valid.
  pub if_valid : List ℕ → Option (List ℕ) → Option (List ℕ)
  if_valid key otherwise = elim (parse_pub_key key) [ none ↦ otherwise | some _ ↦ some key ]

  pub uncompressed_pub_key : List ℕ → Option (List ℕ)
  uncompressed_pub_key script =
      if has_uncompressed_form script then if_valid (take 65 (drop 1 script)) none else none

  unfoldable pub is_pub_key : List ℕ → Option (List ℕ)
  unfolding if_valid uncompressed_pub_key
  is_pub_key script =
      if has_compressed_form script
      then if_valid (take 33 (drop 1 script)) (uncompressed_pub_key script)
      else uncompressed_pub_key script

  unfoldable pub compressed_script_size : List ℕ → ℕ
  compressed_script_size script = elim (is_pub_key_hash script) [
    | some _ ↦ 21
    | none ↦ elim (is_script_hash script) [
      | some _ ↦ 21
      | none ↦ elim (is_pub_key script) [
        | some _ ↦ 33
        | none ↦ serialize_size_vlq ((length script + num_special_scripts) % 2 ^ 64) + length script
      ]
    ]
  ]

  -- target[0] = code; copy(target[1:width], bytes): the slice expression needs `width` bytes.
  pub put_special : List ℕ → ℕ → List ℕ → ℕ → Option (List ℕ × ℕ)
  put_special target code bytes width =
      if ltb (length target) width then none else some (copy_at (set target 0 code) 1 bytes, width)

  pub put_plain : List ℕ → List ℕ → Option (List ℕ × ℕ)
  put_plain target script = elim (put_vlq target ((length script + num_special_scripts) % 2 ^ 64)) [
    | none ↦ none
    | some (target', size) ↦ some (copy_at target' size script, size + length script)
  ]

  -- The `switch pubKeyFormat` of `PutCompressedScript`.
  pub put_pub_key : List ℕ → List ℕ → List ℕ → Option (List ℕ × ℕ)
  unfolding put_special put_plain
  put_pub_key target script key =
      let format = byte_at key 0 in
      if format == 0x02 || format == 0x03
      then put_special target format (take 32 (drop 1 key)) 33
      else if format == 0x04
      then put_special target (bit_or format (bit_and (byte_at key 64) 0x01)) (take 32 (drop 1 key))
          33
      else put_plain target script

  unfoldable pub put_compressed_script : List ℕ → List ℕ → Option (List ℕ × ℕ)
  unfolding put_pub_key
  put_compressed_script target script = elim (is_pub_key_hash script) [
    | some hash ↦ put_special target 0 hash 21
    | none ↦ elim (is_script_hash script) [
      | some hash ↦ put_special target 1 hash 21
      | none ↦ elim (is_pub_key script) [
        | some key ↦ put_pub_key target script key
        | none ↦ put_plain target script
      ]
    ]
  ]

  -- pkScript := make([]byte, 67), its first byte, the copied key and its last byte.
  abbrev pub pay_to_uncompressed : List ℕ → List ℕ
  pay_to_uncompressed serialized =
      set (copy_at (set (replicate 67 0) 0 op_data_65) 1 serialized) 66 op_checksig

  -- copy(compressedKey[1:], compressedPkScript[1:]) into 33 bytes.
  pub compressed_key : ℕ → List ℕ → List ℕ
  compressed_key encoded_size compressed =
      copy_at (set (replicate 33 0) 0 ((encoded_size - 2) % 256)) 1 (take 32 (drop 1 compressed))

  -- The scripts of the special cases, from the bytes behind the script type.
  pub pay_to_pub_key_hash : Option (List ℕ) → Option (List ℕ)
  pay_to_pub_key_hash none = none
  pay_to_pub_key_hash (some hash) =
      some (op_dup ∷ op_hash160 ∷ op_data_20 ∷ (hash ++ (op_equalverify ∷ op_checksig ∷ [])))

  pub pay_to_script_hash : Option (List ℕ) → Option (List ℕ)
  pay_to_script_hash none = none
  pay_to_script_hash (some hash) = some (op_hash160 ∷ op_data_20 ∷ (hash ++ (op_equal ∷ [])))

  pub pay_to_pub_key : ℕ → Option (List ℕ) → Option (List ℕ)
  pay_to_pub_key encoded_size none = none
  pay_to_pub_key encoded_size (some x) =
      some (op_data_33 ∷ (encoded_size % 256) ∷ (x ++ (op_checksig ∷ [])))

  -- An invalid key gives a nil script.
  pub pay_to_parsed : Option Key → Option (List ℕ)
  pay_to_parsed none = some []
  pay_to_parsed (some key) = some (pay_to_uncompressed (serialize_uncompressed key))

  unfoldable pub decompress_script : List ℕ → Option (List ℕ)
  unfolding pay_to_pub_key_hash pay_to_script_hash pay_to_pub_key pay_to_parsed compressed_key
  decompress_script [] = some []
  decompress_script (b ∷ bs) =
      let compressed : List ℕ = b ∷ bs in
      let (encoded_size, read) = deserialize_vlq compressed in
      if encoded_size == 0
      then pay_to_pub_key_hash (slice compressed read (read + 20))
      else if encoded_size == 1
      then pay_to_script_hash (slice compressed read (read + 20))
      else if encoded_size == 2 || encoded_size == 3
      then pay_to_pub_key encoded_size (slice compressed read (read + 32))
      else if encoded_size == 4 || encoded_size == 5
      then pay_to_parsed (parse_pub_key (compressed_key encoded_size compressed))
      else slice compressed read (read + (encoded_size - num_special_scripts))

  -- The number of bytes that a compressed script takes at the front of `serialized`.
  unfoldable pub decode_compressed_script_size : List ℕ → ℕ
  decode_compressed_script_size serialized =
      let (script_size, read) = deserialize_vlq serialized in
      if read == 0
      then 0
      else if script_size == 0 || script_size == 1
      then 21
      else if script_size == 2 || script_size == 3 || script_size == 4 || script_size == 5
      then 33
      else (script_size - num_special_scripts + read) % 2 ^ 64
