-- ===== src/Compression/TxOut.antt =====
-- Compressed transaction outputs (bitcoincorecompression/compression.go, the last section). The
-- functions on amounts there are those of Compression/Amount, line by line.
pub mod RoundTrip
use bitcoin_utxo_indexer.Prelude.{
  ℕ, ◌+◌, ◌^◌, List, ◌++◌, Option, none, some, length, take, drop, leb, ltb, if◌then◌else◌,
}
use bitcoin_utxo_indexer.Compression.Vlq.{put_vlq, deserialize_vlq, serialize_size_vlq}
use bitcoin_utxo_indexer.Compression.Amount.{compress_tx_out_amount, decompress_tx_out_amount}
use bitcoin_utxo_indexer.Compression.Script.{
  Curve, compressed_script_size, put_compressed_script, decompress_script,
  decode_compressed_script_size,
}

-- The two errors of `decodeCompressedTxOut`.
pub data TxOutError : Type 0 where
  end_after_amount : TxOutError
  end_after_script_size : TxOutError

-- What a call of `decodeCompressedTxOut` ends with, the count of bytes last.
pub data DecodedTxOut : Type 0 where
  decoded : ℕ → List ℕ → ℕ → DecodedTxOut
  not_decoded : TxOutError → ℕ → DecodedTxOut
  decode_panics : DecodedTxOut

module _ (curve : Curve) where
  unfoldable pub compressed_tx_out_size : ℕ → List ℕ → ℕ
  compressed_tx_out_size amount script =
      serialize_size_vlq (compress_tx_out_amount amount) + compressed_script_size curve script

  -- `PutCompressedScript(target[offset:], pkScript)` writes into the slice behind the amount.
  abbrev pub put_script_behind : Option (List ℕ × ℕ) → List ℕ → Option (List ℕ × ℕ)
  put_script_behind none script = none
  put_script_behind (some (target, offset)) script =
      elim (put_compressed_script curve (drop offset target) script) [
        | none ↦ none
        | some (behind, size) ↦ some (take offset target ++ behind, offset + size)
      ]

  pub put_compressed_tx_out : List ℕ → ℕ → List ℕ → Option (List ℕ × ℕ)
  put_compressed_tx_out target amount script =
      put_script_behind (put_vlq target (compress_tx_out_amount amount)) script

  pub decoded_script : ℕ → Option (List ℕ) → ℕ → DecodedTxOut
  decoded_script amount none read = decode_panics
  decoded_script amount (some script) read = decoded amount script read

  -- Behind the amount. A size from 2 ^ 63 on is a negative int, which passes the test and panics in
  -- the slice expression.
  pub decode_script_behind : ℕ → ℕ → List ℕ → DecodedTxOut
  unfolding decoded_script
  decode_script_behind amount read behind =
      let size = decode_compressed_script_size curve behind in
      if leb (2 ^ 63) size
      then decode_panics
      else if ltb (length behind) size
      then not_decoded end_after_script_size read
      else decoded_script (decompress_tx_out_amount amount)
          (decompress_script curve (take size behind)) (read + size)

  pub decode_compressed_tx_out : List ℕ → DecodedTxOut
  unfolding decode_script_behind
  decode_compressed_tx_out serialized =
      let (amount, read) = deserialize_vlq serialized in
      if leb (length serialized) read
      then not_decoded end_after_amount read
      else decode_script_behind amount read (drop read serialized)
