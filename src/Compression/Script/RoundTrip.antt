-- ===== src/Compression/Script/RoundTrip.antt =====
-- Scripts survive compression.
use bitcoin_utxo_indexer.Prelude.{
  ℕ, suc, ◌+◌, ◌-◌, ◌%◌, ◌^◌, ◌<◌, ◌≤◌, ◌≡◌, refl, ap, ◌∙◌, sym, arith, List, [], ◌∷◌, ◌++◌,
  append_assoc, append-nil, some, length, take, drop, get_or, set, replicate, length-append,
  length-drop, inl, inr, Option-cases, bit_and, bit_or, false, set-length, take-length,
  get_or-append_right, ltb, ◌⊎◌,
}
use bitcoin_utxo_indexer.Prelude.Bits.{bit_and-one}
use bitcoin_utxo_indexer.Prelude.Slices.{
  slice, copy_at, slice_lem, copy_at_fit, drop-drop, take_all,
}
use bitcoin_utxo_indexer.Compression.Vlq.{IsU64, deserialize_vlq, put_vlq, serialize_size_vlq}
use bitcoin_utxo_indexer.Compression.Vlq.Encode.{
  encoding, put_vlq-encoding, serialize_size_vlq-encoding, encoding_shape,
}
use bitcoin_utxo_indexer.Compression.Vlq.RoundTrip.{deserialize_vlq-encoding}
use bitcoin_utxo_indexer.Compression.Script.{
  Curve, op_dup, op_hash160, op_data_20, op_data_33, op_data_65, op_equal, op_equalverify,
  op_checksig, is_pub_key_hash, is_script_hash, is_pub_key, compressed_script_size,
  put_compressed_script, decompress_script, decode_compressed_script_size, put_special, put_plain,
  put_pub_key, pay_to_uncompressed, compressed_key, num_special_scripts,
}
use bitcoin_utxo_indexer.Compression.Script.Sizes.{
  code_byte, parity_cases, hash_size, script_hash_size, compressed_key_size, uncompressed_key_size,
  plain_size,
}
use bitcoin_utxo_indexer.Compression.Script.Shapes.{
  is_pub_key_hash-shape, is_script_hash-shape, is_pub_key-form, PubKeyForm, compressed_form,
  uncompressed_form,
}

-- What btcec promises of the keys that it parses: an uncompressed key is serialised to the bytes
-- that it was parsed from, and its X value with the oddness of Y stands for the same key.
pub record IsCurve (curve : Curve) : Type 0 where
  pub serialize-parse :
      (x y : List ℕ) (key : curve.Key)
      → length x ≡ 32
      → length y ≡ 32
      → curve.parse_pub_key (4 ∷ (x ++ y)) ≡ some key
      → curve.serialize_uncompressed key ≡ 4 ∷ (x ++ y)
  pub parse_x :
      (x y : List ℕ) (key : curve.Key)
      → length x ≡ 32
      → length y ≡ 32
      → curve.parse_pub_key (4 ∷ (x ++ y)) ≡ some key
      → curve.parse_pub_key ((2 + get_or y 31 0 % 2) ∷ x) ≡ some key

code_slice :
    (c : ℕ) (bytes : List ℕ) (n : ℕ) → length bytes ≡ n → slice (c ∷ bytes) 1 (1 + n) ≡ some bytes
code_slice c bytes n h =
    ap (λ (r : List ℕ). slice (c ∷ r) 1 (1 + n)) (sym (append-nil bytes))
    ∙ slice_lem (c ∷ []) bytes [] 1 (1 + n) refl (omega arith)

-- The compressed form that a run of `PutCompressedScript` left in `target`.
pub record Written (curve : Curve) (script target : List ℕ) (size : ℕ) : Type 0 where
  pub compressed : List ℕ
  pub width : length compressed ≡ size
  pub put : put_compressed_script curve target script ≡ some (compressed ++ drop size target, size)
  pub restored : decompress_script curve compressed ≡ some script
  pub sized :
      (rest : List ℕ) → decode_compressed_script_size curve (compressed ++ rest) ≡ size % 2 ^ 64

put_special_lem :
    (curve : Curve) (target bytes : List ℕ) (code width : ℕ)
    → width ≡ suc (length bytes)
    → width ≤ length target
    → put_special curve target code bytes width ≡ some ((code ∷ bytes) ++ drop width target, width)
unfolding put_special
put_special_lem curve [] bytes code width e h = absurd (omega arith)
put_special_lem curve (t ∷ ts) bytes code width e h =
    let room : ltb (suc (length ts)) (suc (length bytes)) ≡ false = ground arith in
    rw (e, room, copy_at_fit (code ∷ []) ts bytes 1 refl (omega arith))

put_plain_lem :
    (curve : Curve) (target script : List ℕ)
    → IsU64 (length script + num_special_scripts)
    → serialize_size_vlq (length script + num_special_scripts) + length script ≤ length target
    → let enc = encoding (length script + num_special_scripts) in
      put_plain curve target script
      ≡ some
          (enc ++ (script ++ drop (length enc + length script) target), length enc + length script)
unfolding put_plain
put_plain_lem curve target script h room =
    let n : ℕ = length script + num_special_scripts in
    let enc : List ℕ = encoding n in
    let size : serialize_size_vlq n ≡ length enc = serialize_size_vlq-encoding n in
    let no_wrap : n % 2 ^ 64 ≡ n = omega arith in
    let fits : length script ≤ length (drop (length enc) target) =
      omega (arith, length-drop (length enc) target) in
    let here : put_vlq target (n % 2 ^ 64) ≡ some (enc ++ drop (length enc) target, length enc) =
      rw no_wrap ((put_vlq-encoding n target).0 (omega arith)) in
    rw (
      here,
      put_plain,
      copy_at_fit enc (drop (length enc) target) script (length enc) refl fits,
      drop-drop (length script) (length enc) target,
    )

decompress_from_6 :
    (curve : Curve) (compressed : List ℕ) (n read : ℕ)
    → 1 ≤ length compressed
    → deserialize_vlq compressed ≡ (n, read)
    → 6 ≤ n
    → decompress_script curve compressed ≡ slice compressed read (read + (n - num_special_scripts))
unfolding decompress_script
decompress_from_6 curve [] n read h e six = absurd (omega arith)
decompress_from_6 curve (b ∷ bs) n read h e six = rw e (ground arith)

decompress_plain :
    (curve : Curve) (script : List ℕ)
    → IsU64 (length script + num_special_scripts)
    → decompress_script curve (encoding (length script + num_special_scripts) ++ script)
      ≡ some script
decompress_plain curve script h =
    let n : ℕ = length script + num_special_scripts in
    let (_, long, _) = encoding_shape n h in
    decompress_from_6 curve (encoding n ++ script) n (length (encoding n))
      (omega (arith, length-append (encoding n) script)) (deserialize_vlq-encoding n script h)
      (omega arith)
    ∙ ap
        (λ (r : List ℕ).
          slice (encoding n ++ r) (length (encoding n))
            (length (encoding n) + (n - num_special_scripts)))
        (sym (append-nil script))
    ∙ slice_lem (encoding n) script [] _ _ refl (omega arith)

-- The four special forms.
decompress_hash :
    (curve : Curve) (hash : List ℕ)
    → length hash ≡ 20
    → decompress_script curve (0 ∷ hash)
      ≡ some (op_dup ∷ op_hash160 ∷ op_data_20 ∷ (hash ++ (op_equalverify ∷ op_checksig ∷ [])))
unfolding decompress_script
decompress_hash curve hash h = rw (code_byte 0 hash (omega arith), code_slice 0 hash 20 h)

decompress_script_hash :
    (curve : Curve) (hash : List ℕ)
    → length hash ≡ 20
    → decompress_script curve (1 ∷ hash)
      ≡ some (op_hash160 ∷ op_data_20 ∷ (hash ++ (op_equal ∷ [])))
unfolding decompress_script
decompress_script_hash curve hash h = rw (code_byte 1 hash (omega arith), code_slice 1 hash 20 h)

decompress_compressed_key :
    (curve : Curve) (format : ℕ) (x : List ℕ)
    → (format ≡ 2) ⊎ (format ≡ 3)
    → length x ≡ 32
    → decompress_script curve (format ∷ x) ≡ some (op_data_33 ∷ format ∷ (x ++ (op_checksig ∷ [])))
unfolding decompress_script
decompress_compressed_key curve format x (inl two) h =
    rw (two, code_byte 2 x (omega arith), code_slice 2 x 32 h)
decompress_compressed_key curve format x (inr three) h =
    rw (three, code_byte 3 x (omega arith), code_slice 3 x 32 h)

compressed_key_lem :
    (curve : Curve) (code : ℕ) (x : List ℕ)
    → 2 ≤ code
    → code < 256
    → length x ≡ 32
    → compressed_key curve code (code ∷ x) ≡ (code - 2) ∷ x
unfolding compressed_key
compressed_key_lem curve code x h small hx =
    let byte : (code - 2) % 256 ≡ code - 2 = omega arith in
    rw
      (
        byte,
        take_all x 32 (omega arith),
        copy_at_fit ((code - 2) ∷ []) (replicate 32 0) x 1 refl (omega arith),
        hx,
      )
      (ap (λ (r : List ℕ). (code - 2) ∷ r) (append-nil x))

pay_to_uncompressed_lem :
    (curve : Curve) (key : List ℕ)
    → length key ≡ 65
    → pay_to_uncompressed curve key ≡ op_data_65 ∷ (key ++ (op_checksig ∷ []))
pay_to_uncompressed_lem curve key h =
    let copied : copy_at (op_data_65 ∷ replicate 66 0) 1 key ≡ op_data_65 ∷ (key ++ (0 ∷ [])) =
      rw (copy_at_fit (op_data_65 ∷ []) (replicate 66 0) key 1 refl (omega arith), h) refl in
    let place : 66 ≡ length (op_data_65 ∷ key) = omega arith in
    rw copied (
      ap (λ (i : ℕ). set (op_data_65 ∷ (key ++ (0 ∷ []))) i op_checksig) place
      ∙ set-length (op_data_65 ∷ key) 0 op_checksig [])

-- An uncompressed key is written as its X value and the oddness of its last byte.
uncompressed_code : (y : ℕ) → bit_or 4 (bit_and y 0x01) ≡ 4 + y % 2
uncompressed_code y = elim (parity_cases y) [
  | inl even ↦ rw (bit_and-one y, even)
  | inr odd ↦ rw (bit_and-one y, odd)
]

decompress_uncompressed_key :
    (curve : Curve)
    → IsCurve curve
    → (x y : List ℕ) (key : curve.Key) → length x ≡ 32
    → length y ≡ 32
    → curve.parse_pub_key (4 ∷ (x ++ y)) ≡ some key
    → decompress_script curve ((4 + get_or y 31 0 % 2) ∷ x)
      ≡ some (op_data_65 ∷ ((4 ∷ (x ++ y)) ++ (op_checksig ∷ [])))
unfolding decompress_script
decompress_uncompressed_key curve laws x y key hx hy parsed =
    let long : length (4 ∷ (x ++ y)) ≡ 65 = omega (arith, length-append x y) in
    let whole : pay_to_uncompressed curve (curve.serialize_uncompressed key)
        ≡ op_data_65 ∷ ((4 ∷ (x ++ y)) ++ (op_checksig ∷ [])) =
      ap (pay_to_uncompressed curve) (laws.serialize-parse x y key hx hy parsed)
      ∙ pay_to_uncompressed_lem curve (4 ∷ (x ++ y)) long in
    elim (parity_cases (get_or y 31 0)) [
      | inl even ↦ rw (
        even,
        code_byte 4 x (omega arith),
        compressed_key_lem curve 4 x (omega arith) (omega arith) hx,
        rw even at (laws.parse_x x y key hx hy parsed),
        whole,
      )
      | inr odd ↦ rw (
        odd,
        code_byte 5 x (omega arith),
        compressed_key_lem curve 5 x (omega arith) (omega arith) hx,
        rw odd at (laws.parse_x x y key hx hy parsed),
        whole,
      )
    ]

-- The four ways through `PutCompressedScript`, each with the size that was announced for it.
special-Written :
    (curve : Curve) (script target bytes : List ℕ) (code width : ℕ)
    → compressed_script_size curve script ≡ width
    → put_compressed_script curve target script ≡ put_special curve target code bytes width
    → width ≡ suc (length bytes)
    → compressed_script_size curve script ≤ length target
    → decompress_script curve (code ∷ bytes) ≡ some script
    → ((rest : List ℕ) → decode_compressed_script_size curve (code ∷ (bytes ++ rest)) ≡ width)
    → width < 2 ^ 64
    → Written curve script target (compressed_script_size curve script)
special-Written curve script target bytes code width size way long room back sized small =
    rw size (record {
      compressed = code ∷ bytes;
      width = omega (arith, long);
      put = way ∙ put_special_lem curve target bytes code width long (omega arith);
      restored = back;
      sized = λ rest. sized rest ∙ omega arith;
    })

plain-Written :
    (curve : Curve) (script target : List ℕ)
    → compressed_script_size curve script
      ≡ serialize_size_vlq ((length script + num_special_scripts) % 2 ^ 64) + length script
    → put_compressed_script curve target script ≡ put_plain curve target script
    → IsU64 (length script + num_special_scripts)
    → compressed_script_size curve script ≤ length target
    → Written curve script target (compressed_script_size curve script)
plain-Written curve script target size way h room =
    let n : ℕ = length script + num_special_scripts in
    let no_wrap : n % 2 ^ 64 ≡ n = omega arith in
    let size' : compressed_script_size curve script ≡ length (encoding n) + length script =
      size ∙ rw (no_wrap, serialize_size_vlq-encoding n) in
    rw size' (record {
      compressed = encoding n ++ script;
      width = length-append (encoding n) script;
      put =
          way
          ∙ put_plain_lem curve target script h (omega (arith, serialize_size_vlq-encoding n))
          ∙ rw (
              append_assoc (encoding n) script (drop (length (encoding n) + length script) target));
      restored = decompress_plain curve script h;
      sized = λ rest. plain_size curve rest script h;
    })

put_pub_key_compressed :
    (curve : Curve) (target script x : List ℕ) (format : ℕ)
    → (format ≡ 2) ⊎ (format ≡ 3)
    → length x ≡ 32
    → put_pub_key curve target script (format ∷ x) ≡ put_special curve target format x 33
unfolding put_pub_key
put_pub_key_compressed curve target script x format (inl two) hx =
    rw (two, take_all x 32 (omega arith))
put_pub_key_compressed curve target script x format (inr three) hx =
    rw (three, take_all x 32 (omega arith))

last_byte : (x y : List ℕ) → length x ≡ 32 → get_or (x ++ y) 63 0 ≡ get_or y 31 0
last_byte x y hx =
    let place : 63 ≡ length x + 31 = omega arith in rw (place, get_or-append_right x y 31 0)

put_pub_key_uncompressed :
    (curve : Curve) (target script x y : List ℕ)
    → length x ≡ 32
    → length y ≡ 32
    → put_pub_key curve target script (4 ∷ (x ++ y))
      ≡ put_special curve target (4 + get_or y 31 0 % 2) x 33
unfolding put_pub_key
put_pub_key_uncompressed curve target script x y hx hy =
    let front : take 32 (x ++ y) ≡ x = rw hx at (take-length x y) in
    rw (last_byte x y hx, uncompressed_code, front)

pub_key-Written :
    (curve : Curve)
    → IsCurve curve
    → (script target key : List ℕ) → PubKeyForm curve script key
    → compressed_script_size curve script ≡ 33
    → put_compressed_script curve target script ≡ put_pub_key curve target script key
    → compressed_script_size curve script ≤ length target
    → Written curve script target (compressed_script_size curve script)
pub_key-Written curve laws script target key (compressed_form format x kind hx ek es) size way
      room =
    special-Written curve script target x format 33 size
      (way ∙ rw ek (put_pub_key_compressed curve target script x format kind hx)) (omega arith) room
      (decompress_compressed_key curve format x kind hx ∙ ap some (sym es))
      (λ rest. compressed_key_size curve (x ++ rest) format kind) (omega arith)
pub_key-Written curve laws script target key (uncompressed_form x y hx hy ek es k parsed) size way
      room =
    special-Written curve script target x (4 + get_or y 31 0 % 2) 33 size
      (way ∙ rw ek (put_pub_key_uncompressed curve target script x y hx hy)) (omega arith) room
      (decompress_uncompressed_key curve laws x y k hx hy (rw ek at parsed)
        ∙ ap some (sym (es ∙ ap (λ (r : List ℕ). op_data_65 ∷ (r ++ (op_checksig ∷ []))) ek)))
      (λ rest. uncompressed_key_size curve (x ++ rest) (get_or y 31 0)) (omega arith)

-- Every script, recognised or not, is written in as many bytes as `compressedScriptSize` says, and
-- comes back from them.
pub compress-Written :
    (curve : Curve)
    → IsCurve curve
    → (script target : List ℕ) → IsU64 (length script + num_special_scripts)
    → compressed_script_size curve script ≤ length target
    → Written curve script target (compressed_script_size curve script)
unfolding compressed_script_size put_compressed_script
compress-Written curve laws script target h room = elim (Option-cases (is_pub_key_hash script)) [
  | inr (hash, e) ↦
      let (long, shape) = is_pub_key_hash-shape script hash e in
      special-Written curve script target hash 0 21 (ground arith) (ground arith) (omega arith) room
        (decompress_hash curve hash long ∙ ap some (sym shape))
        (λ rest. hash_size curve (hash ++ rest)) (omega arith)
  | inl e ↦ elim (Option-cases (is_script_hash script)) [
    | inr (hash, e') ↦
        let (long, shape) = is_script_hash-shape script hash e' in
        special-Written curve script target hash 1 21 (ground arith) (ground arith) (omega arith)
          room (decompress_script_hash curve hash long ∙ ap some (sym shape))
          (λ rest. script_hash_size curve (hash ++ rest)) (omega arith)
    | inl e' ↦ elim (Option-cases (is_pub_key curve script)) [
      | inr (key, e'') ↦
          pub_key-Written curve laws script target key (is_pub_key-form curve script key e'')
            (ground arith) (ground arith) room
      | inl e'' ↦ plain-Written curve script target (ground arith) (ground arith) h room
    ]
  ]
]
