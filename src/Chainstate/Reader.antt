-- ===== src/Chainstate/Reader.antt =====
-- binaryutils/utils.go: reading from a byte reader, and reversed copies.
pub mod Bytes
use bitcoin_utxo_indexer.Prelude.{
  ℕ, zero, suc, ◌+◌, ◌-◌, ◌*◌, ◌^◌, ◌%◌, bit_and, bit_or, not, List, [], ◌∷◌, ◌++◌, length, ◌==◌,
  if◌then◌else◌,
}
use bitcoin_utxo_indexer.Prelude.Reverse.{reverse_loop}

-- The bytes that are left are the reader's state; at their end the loop stops.
unfoldable pub read_vlq : List ℕ → ℕ → ℕ → (ℕ × ℕ) × List ℕ
read_vlq [] n size = ((n, size), [])
read_vlq (val ∷ rest) n size =
    let n' = bit_or (n * 2 ^ 7 % 2 ^ 64) (bit_and val 0x7f) in
    let more = read_vlq rest ((n' + 1) % 2 ^ 64) (size + 1) in
    if not (bit_and val 0x80 == 0x80) then ((n', size + 1), rest) else more

-- DeserializeVLQ
unfoldable pub deserialize_vlq_from : List ℕ → (ℕ × ℕ) × List ℕ
unfolding read_vlq
deserialize_vlq_from reader = read_vlq reader 0 0

unfoldable pub reverse_bytes_with_copy : List ℕ → List ℕ
reverse_bytes_with_copy input = reverse_loop input 0 (length input - 1)

-- buildTxIDKey of chainstate/db.go; `C` is 0x43.
unfoldable pub build_tx_id_key : List ℕ → List ℕ
unfolding reverse_bytes_with_copy
build_tx_id_key tx_id = 0x43 ∷ reverse_bytes_with_copy tx_id

-- buildTxOutBytes of chainstate/iterator.go
unfoldable pub build_tx_out_bytes : List ℕ → List ℕ → List ℕ
build_tx_out_bytes outpoint coin = outpoint ++ coin
