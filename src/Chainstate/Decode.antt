-- ===== src/Chainstate/Decode.antt =====
-- Coin.Deserialize and TxOut.Deserialize of bitcoincore/utxo, with the scripts of
-- bitcoincore/utxocompression, on a bytes.Reader.
use bitcoin_utxo_indexer.Prelude.{
  ℕ, ◌+◌, ◌-◌, ◌/◌, ◌%◌, ◌||◌, List, [], ◌∷◌, Option, none, some, length, take, drop, set,
  replicate, ◌==◌, ltb, leb, if◌then◌else◌,
}
use bitcoin_utxo_indexer.Prelude.Slices.{copy_at}
use bitcoin_utxo_indexer.Prelude.Str.{Str}
use bitcoin_utxo_indexer.Compression.Amount.{decompress_tx_out_amount}
use bitcoin_utxo_indexer.Compression.Script.{
  Curve, op_dup, op_hash160, op_data_20, op_data_33, op_data_65, op_equal, op_equalverify,
  op_checksig, num_special_scripts,
}
use bitcoin_utxo_indexer.Utxo.Outcome.{Outcome, ok, err, failed, ◌>>=◌}
use bitcoin_utxo_indexer.Chainstate.Coin.{Coin, TxOut}
use bitcoin_utxo_indexer.Chainstate.Reader.{deserialize_vlq_from, reverse_bytes_with_copy}

-- A bytes.Reader: its slice, and how many bytes of it were read.
pub record BytesReader : Type 0 where
  pub bytes : List ℕ
  pub position : ℕ

unfoldable pub next_vlq : BytesReader → ℕ × BytesReader
next_vlq r =
    let ((n, size), rest) = deserialize_vlq_from (drop r.position r.bytes) in
    (n, record r { position = r.position + size })

-- Read into a slice of zeros: at the end of the bytes it is an error, and else it may fill less than
-- the slice.
unfoldable pub read_into : ℕ → BytesReader → Outcome (List ℕ × BytesReader)
read_into size r =
    if leb (length r.bytes) r.position
    then err failed
    else (let found = take size (drop r.position r.bytes) in
        ok (copy_at (replicate size 0) 0 found, record r { position = r.position + length found }))

unfoldable pub unread_byte : BytesReader → Outcome BytesReader
unread_byte r = if r.position == 0 then err failed else ok (record r { position = r.position - 1 })

unfoldable pub get_script_size : ℕ → ℕ
get_script_size script_type =
    if ltb script_type 2
    then 20
    else (if ltb script_type 6 then 32 else script_type - num_special_scripts)

module _ (curve : Curve) where
  open curve use {Key, parse_pub_key, serialize_uncompressed}

  -- An invalid key gives a nil script.
  pub uncompressed_script : Option Key → List ℕ
  uncompressed_script none = []
  uncompressed_script (some key) =
      set (copy_at (set (replicate 67 0) 0 op_data_65) 1 (serialize_uncompressed key)) 66
        op_checksig

  unfoldable pub decompress_typed_script : ℕ → List ℕ → List ℕ
  unfolding uncompressed_script
  decompress_typed_script script_type compressed =
      if script_type == 0
      then set
          (set (copy_at (op_dup ∷ op_hash160 ∷ op_data_20 ∷ replicate 22 0) 3 compressed) 23
            op_equalverify)
          24 op_checksig
      else if script_type == 1
      then set (copy_at (op_hash160 ∷ op_data_20 ∷ replicate 21 0) 2 compressed) 22 op_equal
      else if script_type == 2 || script_type == 3
      then set (copy_at (op_data_33 ∷ replicate 34 0) 1 compressed) 34 op_checksig
      else if script_type == 4 || script_type == 5
      then uncompressed_script (
          parse_pub_key
            (copy_at (((script_type - 2) % 256) ∷ replicate 32 0) 1 (drop 1 compressed)))
      else compressed

-- The type of a public key is its first byte, and is read again with it.
unfoldable pub script_of : ℕ → BytesReader → Outcome (ℕ × BytesReader)
unfolding unread_byte
script_of script_type r =
    if ltb 1 script_type
    then (if ltb script_type 6
        then (unread_byte r >>= λ r'. ok (get_script_size script_type + 1, r'))
        else ok (get_script_size script_type, r))
    else ok (get_script_size script_type, r)

unfoldable pub read_script : ℕ × BytesReader → Outcome (List ℕ × BytesReader)
read_script (size, r) = if ltb 10000 size then err failed else read_into size r

module _ (curve : Curve) where
  -- The value is the uint64 whose bits wire.TxOut keeps as an int64.
  unfoldable pub deserialize_coin : BytesReader → Outcome (Coin × BytesReader)
  unfolding script_of read_script
  deserialize_coin r =
      let (code, r₁) = next_vlq r in
      let (amount, r₂) = next_vlq r₁ in
      let (script_type, r₃) = next_vlq r₂ in
      script_of script_type r₃ >>= λ sized. read_script sized >>= λ found. ok (
        record {
          is_coin_base = code % 2 == 1;
          block_height = code / 2;
          out = record {
            value = decompress_tx_out_amount amount;
            pk_script = decompress_typed_script curve script_type found.0;
          };
        },
        found.1,
      )

  -- `encode_to_string` is hex's.
  unfoldable pub deserialize_tx_out : (List ℕ → Str) → BytesReader → Outcome TxOut
  deserialize_tx_out encode_to_string r = read_into 32 r >>= λ id.
      (let (index, r') = next_vlq id.1 in
        deserialize_coin r' >>= λ found. ok (record {
          tx_id = encode_to_string (reverse_bytes_with_copy id.0);
          index = index;
          coin = found.0;
        }))
