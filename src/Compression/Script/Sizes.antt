-- ===== src/Compression/Script/Sizes.antt =====
-- What `decodeCompressedScriptSize` reads at the front of each compressed form.
use bitcoin_utxo_indexer.Prelude.{
  ℕ, ◌+◌, ◌%◌, ◌^◌, ◌<◌, ◌≡◌, ◌∙◌, arith, List, ◌∷◌, ◌++◌, length, append_assoc, ◌⊎◌, inl, inr,
}
use native.Mathlib.Decide.{dec_lt}
use bitcoin_utxo_indexer.Compression.Vlq.{IsU64, deserialize_vlq}
use bitcoin_utxo_indexer.Compression.Vlq.Encode.{encoding, encoding_shape}
use bitcoin_utxo_indexer.Compression.Vlq.RoundTrip.{last_round, deserialize_vlq-encoding}
use bitcoin_utxo_indexer.Compression.Script.{
  Curve, decode_compressed_script_size, num_special_scripts,
}

pub code_byte : (c : ℕ) (rest : List ℕ) → c < 128 → deserialize_vlq (c ∷ rest) ≡ (c, 1)
unfolding deserialize_vlq
code_byte c rest h = last_round 0 c 0 rest h (omega arith) ∙ ground arith

pub parity_cases : (y : ℕ) → (y % 2 ≡ 0) ⊎ (y % 2 ≡ 1)
parity_cases y = elim (dec_lt (y % 2) 1) [
  | yes even ↦ inl (omega arith)
  | no odd ↦ inr (omega arith)
]

module _ (curve : Curve) (rest : List ℕ) where
  pub hash_size : decode_compressed_script_size curve (0 ∷ rest) ≡ 21
  unfolding decode_compressed_script_size
  hash_size = rw (code_byte 0 rest (omega arith))

  pub script_hash_size : decode_compressed_script_size curve (1 ∷ rest) ≡ 21
  unfolding decode_compressed_script_size
  script_hash_size = rw (code_byte 1 rest (omega arith))

  pub compressed_key_size :
      (format : ℕ)
      → (format ≡ 2) ⊎ (format ≡ 3)
      → decode_compressed_script_size curve (format ∷ rest) ≡ 33
  unfolding decode_compressed_script_size
  compressed_key_size format (inl two) = rw (two, code_byte 2 rest (omega arith))
  compressed_key_size format (inr three) = rw (three, code_byte 3 rest (omega arith))

  pub uncompressed_key_size :
      (y : ℕ) → decode_compressed_script_size curve ((4 + y % 2) ∷ rest) ≡ 33
  unfolding decode_compressed_script_size
  uncompressed_key_size y = elim (parity_cases y) [
    | inl even ↦ rw (even, code_byte 4 rest (omega arith))
    | inr odd ↦ rw (odd, code_byte 5 rest (omega arith))
  ]

  pub plain_size :
      (script : List ℕ)
      → IsU64 (length script + num_special_scripts)
      → decode_compressed_script_size curve
          ((encoding (length script + num_special_scripts) ++ script) ++ rest)
        ≡ (length (encoding (length script + num_special_scripts)) + length script) % 2 ^ 64
  unfolding decode_compressed_script_size
  plain_size script h =
      let n : ℕ = length script + num_special_scripts in
      let (_, long, _) = encoding_shape n h in
      rw (append_assoc (encoding n) script rest, deserialize_vlq-encoding n (script ++ rest) h)
        (ground arith)
