-- ===== src/Compression/Tests.antt =====
-- The compressed forms on concrete values.
use bitcoin_utxo_indexer.Prelude.{
  ℕ, ◌≤◌, ◌≡◌, refl, ◌∙◌, ap, sym, arith, ◌||◌, List, [], ◌∷◌, ◌++◌, none, some, if◌then◌else◌,
  length, take, drop, replicate, inl, inr, Bool-cases, take-length, drop-length,
}
use bitcoin_utxo_indexer.Prelude.Str.{str_eq, str_eq_iff}
use bitcoin_utxo_indexer.Compression.Vlq.{put_vlq, deserialize_vlq, serialize_size_vlq}
use bitcoin_utxo_indexer.Compression.Vlq.Encode.{encoding, serialize_size_vlq-encoding}
use bitcoin_utxo_indexer.Compression.Vlq.RoundTrip.{deserialize_vlq-put_vlq}
use bitcoin_utxo_indexer.Compression.Amount.{compress_tx_out_amount, decompress_tx_out_amount}
use bitcoin_utxo_indexer.Compression.Amount.RoundTrip.{decompress-compress}
use bitcoin_utxo_indexer.Compression.TxOut.{
  compressed_tx_out_size, put_compressed_tx_out, decode_compressed_tx_out, decoded,
}
use bitcoin_utxo_indexer.Compression.TxOut.RoundTrip.{decode_compressed_tx_out-put}
use bitcoin_utxo_indexer.Compression.Script.{
  Curve, compressed_script_size, is_pub_key_hash, is_script_hash, is_pub_key,
}
use bitcoin_utxo_indexer.Compression.Script.RoundTrip.{IsCurve, Written, compress-Written}

deserialize_vlq-put_vlq_example :
    (written : List ℕ) × (put_vlq (replicate 4 0) 16511 ≡ some (written, serialize_size_vlq 16511))
    × (deserialize_vlq written ≡ (16511, serialize_size_vlq 16511))
    × (drop (serialize_size_vlq 16511) written ≡ drop (serialize_size_vlq 16511) (replicate 4 0))
unfolding serialize_size_vlq
deserialize_vlq-put_vlq_example =
    deserialize_vlq-put_vlq 16511 (replicate 4 0) (omega arith) (ground arith)

serialize_size_vlq-encoding_example : serialize_size_vlq 300 ≡ length (encoding 300)
serialize_size_vlq-encoding_example = serialize_size_vlq-encoding 300

decompress-compress_example :
    decompress_tx_out_amount (compress_tx_out_amount 5000000000) ≡ 5000000000
decompress-compress_example = decompress-compress 5000000000 (omega arith)

-- A curve of one key.
abbrev x₀ : List ℕ
x₀ = replicate 32 7

abbrev y₀ : List ℕ
y₀ = replicate 32 9

abbrev one_key : Curve
one_key = record {
  Key = Unit;
  parse_pub_key = λ k. if str_eq k (4 ∷ (x₀ ++ y₀)) || str_eq k (3 ∷ x₀) then some tt else none;
  serialize_uncompressed = λ k. 4 ∷ (x₀ ++ y₀);
}

the_key :
    (x y : List ℕ) (key : one_key.Key)
    → one_key.parse_pub_key (4 ∷ (x ++ y)) ≡ some key
    → 4 ∷ (x ++ y) ≡ 4 ∷ (x₀ ++ y₀)
unfolding str_eq
the_key x y key h = elim (Bool-cases (str_eq (4 ∷ (x ++ y)) (4 ∷ (x₀ ++ y₀)))) [
  | inl same ↦ (str_eq_iff (4 ∷ (x ++ y)) (4 ∷ (x₀ ++ y₀))).0 same
  | inr other ↦ absurd (let h' : none ≡ some key = rw other at h in cc)
]

one_key-IsCurve : IsCurve one_key
unfolding str_eq
one_key-IsCurve = record {
  serialize-parse = λ x y key hx hy h. sym (the_key x y key h);
  parse_x = λ x y key hx hy h.
      let same : x ++ y ≡ x₀ ++ y₀ = cc (the_key x y key h) in
      let is_x : x ≡ x₀ = sym (rw hx at (take-length x y)) ∙ ap (take 32) same in
      let is_y : y ≡ y₀ = sym (rw hx at (drop-length x y)) ∙ ap (drop 32) same in
      rw (is_x, is_y) refl;
}

abbrev script₀ : List ℕ
script₀ = 0x21 ∷ 3 ∷ (x₀ ++ (0xac ∷ []))

size₀ : compressed_script_size one_key script₀ ≡ 33
unfolding compressed_script_size is_pub_key_hash is_script_hash is_pub_key str_eq
size₀ = refl

room : compressed_script_size one_key script₀ ≤ 40
room = omega (arith, size₀)

compress-Written_example :
    Written one_key script₀ (replicate 40 0) (compressed_script_size one_key script₀)
compress-Written_example =
    compress-Written one_key one_key-IsCurve script₀ (replicate 40 0) (omega arith) room

tx_out_size₀ : compressed_tx_out_size one_key 5000000000 script₀ ≤ 40
unfolding compressed_tx_out_size serialize_size_vlq compress_tx_out_amount
tx_out_size₀ = omega (arith, size₀)

decode_compressed_tx_out-put_example :
    let size = compressed_tx_out_size one_key 5000000000 script₀ in
    let target : List ℕ = replicate 40 0 in
    (written : List ℕ) × (put_compressed_tx_out one_key target 5000000000 script₀
      ≡ some (written, size))
    × (decode_compressed_tx_out one_key written ≡ decoded 5000000000 script₀ size)
    × (drop size written ≡ drop size target)
decode_compressed_tx_out-put_example =
    decode_compressed_tx_out-put one_key one_key-IsCurve 5000000000 script₀ (replicate 40 0)
      (omega arith) (omega arith) (omega arith) tx_out_size₀
