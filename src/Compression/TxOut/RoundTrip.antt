-- ===== src/Compression/TxOut/RoundTrip.antt =====
-- A compressed output comes back from the slice that it was put into.
use bitcoin_utxo_indexer.Prelude.{
  ℕ, ◌+◌, ◌*◌, ◌%◌, ◌^◌, ◌<◌, ◌≤◌, ◌≡◌, refl, ap, ◌∙◌, arith, List, ◌++◌, some, length, take, drop,
  leb, ltb, false, length-append, length-drop, take-length, drop-length,
}
use bitcoin_utxo_indexer.Prelude.Slices.{drop-drop}
use bitcoin_utxo_indexer.Compression.Vlq.{IsU64, deserialize_vlq, put_vlq, serialize_size_vlq}
use bitcoin_utxo_indexer.Compression.Vlq.Encode.{
  encoding, put_vlq-encoding, serialize_size_vlq-encoding, encoding_shape,
}
use bitcoin_utxo_indexer.Compression.Vlq.RoundTrip.{deserialize_vlq-encoding}
use bitcoin_utxo_indexer.Compression.Amount.{compress_tx_out_amount, decompress_tx_out_amount}
use bitcoin_utxo_indexer.Compression.Amount.RoundTrip.{decompress-compress, compress-IsU64}
use bitcoin_utxo_indexer.Compression.Script.{Curve, num_special_scripts, compressed_script_size}
use bitcoin_utxo_indexer.Compression.Script.RoundTrip.{IsCurve, Written, compress-Written}
use bitcoin_utxo_indexer.Compression.TxOut.{
  decoded, compressed_tx_out_size, put_compressed_tx_out, put_script_behind, decode_script_behind,
  decode_compressed_tx_out, decoded_script,
}

compressed_script_size_pos :
    (curve : Curve) (script : List ℕ) → 1 ≤ compressed_script_size curve script
unfolding compressed_script_size
compressed_script_size_pos curve script =
    let n : ℕ = (length script + num_special_scripts) % 2 ^ 64 in
    let (_, long, _) = encoding_shape n (omega arith) in
    ground (arith, serialize_size_vlq-encoding n)

module _ (curve : Curve) (script : List ℕ) {behind : List ℕ} {size : ℕ}
    (w : Written curve script behind size) where
  open w use {compressed, width, put, restored, sized}

  put_behind :
      (front : List ℕ)
      → put_script_behind curve (some (front ++ behind, length front)) script
        ≡ some (front ++ (compressed ++ drop size behind), length front + size)
  put_behind front = rw (drop-length front behind, put_script_behind, put, take-length front behind)

  read_behind :
      (amount read : ℕ) (rest : List ℕ)
      → size < 2 ^ 63
      → decode_script_behind curve amount read (compressed ++ rest)
        ≡ decoded (decompress_tx_out_amount amount) script (read + size)
  unfolding decode_script_behind decoded_script
  read_behind amount read rest small =
      let whole : size % 2 ^ 64 ≡ size = omega arith in
      let positive : leb (2 ^ 63) size ≡ false = ground arith in
      let fits : ltb (length (compressed ++ rest)) size ≡ false =
        ground (arith, length-append compressed rest) in
      let front : take size (compressed ++ rest) ≡ compressed =
        rw width at (take-length compressed rest) in
      rw (sized rest, whole, positive, fits, front, restored)

-- The whole of an output from its two parts: an encoding in front, and the script behind it.
joined :
    (curve : Curve) (amount : ℕ) (script target front behind : List ℕ) (n size total : ℕ)
    → total ≡ length front + size
    → put_vlq target n ≡ some (front ++ behind, length front)
    → ((rest : List ℕ) → deserialize_vlq (front ++ rest) ≡ (n, length front))
    → n ≡ compress_tx_out_amount amount
    → decompress_tx_out_amount n ≡ amount
    → behind ≡ drop (length front) target
    → 1 ≤ size
    → size < 2 ^ 63
    → Written curve script behind size
    → (written : List ℕ) × (put_compressed_tx_out curve target amount script
        ≡ some (written, total))
      × (decode_compressed_tx_out curve written ≡ decoded amount script total)
      × (drop total written ≡ drop total target)
unfolding put_compressed_tx_out decode_compressed_tx_out
joined curve amount script target front behind n size total whole put read packed restored cut pos
      int w =
    let rest : List ℕ = drop size behind in
    let wide : length (w.compressed ++ rest) ≡ size + length rest =
      length-append w.compressed rest ∙ ap (λ (c : ℕ). c + length rest) w.width in
    let long : leb (length (front ++ (w.compressed ++ rest))) (length front) ≡ false =
      ground (arith, length-append front (w.compressed ++ rest)) in
    let tail : drop size (w.compressed ++ rest) ≡ rest =
      rw w.width at (drop-length w.compressed rest) in
    (
      front ++ (w.compressed ++ rest),
      rw (← packed, put, whole) (put_behind curve script w front),
      rw (read (w.compressed ++ rest), long, drop-length front (w.compressed ++ rest), whole)
          (read_behind curve script w n (length front) rest int ∙ rw restored),
      rw (
        whole,
        ← drop-drop size (length front) (front ++ (w.compressed ++ rest)),
        drop-length front (w.compressed ++ rest),
        tail,
        cut,
        drop-drop size (length front) target,
      ),
    )

-- An output that is put into a slice with room for `compressedTxOutSize` bytes is decoded from that
-- slice, amount and script, in as many bytes as were announced and written; what stands behind them
-- is not touched. The amount is below the bound where its compression wraps, and lengths are ints.
pub decode_compressed_tx_out-put :
    (curve : Curve)
    → IsCurve curve
    → (amount : ℕ) (script target : List ℕ) → 9 * amount + 10 ≤ 2 ^ 64
    → IsU64 (length script + num_special_scripts)
    → length target < 2 ^ 63
    → compressed_tx_out_size curve amount script ≤ length target
    → let size = compressed_tx_out_size curve amount script in
      (written : List ℕ) × (put_compressed_tx_out curve target amount script ≡ some (written, size))
      × (decode_compressed_tx_out curve written ≡ decoded amount script size)
      × (drop size written ≡ drop size target)
unfolding compressed_tx_out_size
decode_compressed_tx_out-put curve laws amount script target h hs int room =
    let n : ℕ = compress_tx_out_amount amount in
    let front : List ℕ = encoding n in
    let k : serialize_size_vlq n ≡ length front = serialize_size_vlq-encoding n in
    let size : ℕ = compressed_script_size curve script in
    let behind : List ℕ = drop (length front) target in
    let left : length behind + length front ≡ length target =
      omega (arith, length-drop (length front) target) in
    joined curve amount script target front behind n size (serialize_size_vlq n + size)
      (ap (λ (c : ℕ). c + size) k) ((put_vlq-encoding n target).0 (omega arith))
      (λ rest. deserialize_vlq-encoding n rest (compress-IsU64 amount)) refl
      (decompress-compress amount h) refl (compressed_script_size_pos curve script) (omega arith)
      (compress-Written curve laws script behind hs (omega arith))
