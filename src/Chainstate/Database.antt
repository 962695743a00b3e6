-- ===== src/Chainstate/Database.antt =====
-- bitcoincore/chainstate: db.go and iterator.go. What LevelDB's iterator visits is a list of keys and
-- values.
use bitcoin_utxo_indexer.Prelude.{
  ℕ, suc, Bool, false, List, [], ◌∷◌, length, drop, ltb, ◌==◌, if◌then◌else◌,
}
use bitcoin_utxo_indexer.Prelude.Str.{Str}
use bitcoin_utxo_indexer.Compression.Script.{Curve}
use bitcoin_utxo_indexer.Utxo.Outcome.{Outcome, ok, err, not_found, ◌>>=◌}
use bitcoin_utxo_indexer.Chainstate.Coin.{TxOut}
use bitcoin_utxo_indexer.Chainstate.Obfuscation.{ChainstateDeobfuscator, deobfuscate}
use bitcoin_utxo_indexer.Chainstate.Reader.{reverse_bytes_with_copy, build_tx_out_bytes}
use bitcoin_utxo_indexer.Chainstate.Decode.{deserialize_tx_out}

abbrev pub Entries : Type 0
Entries = List (List ℕ × List ℕ)

starts_with_c : List ℕ → Bool
starts_with_c [] = false
starts_with_c (b ∷ key) = b == 0x43

unfoldable pub is_outpoint : List ℕ → Bool
unfolding starts_with_c
is_outpoint key = if ltb (length key) 34 then false else starts_with_c key

-- ApproximateSize, for an iterator without an error.
unfoldable pub approximate_size : Entries → ℕ
approximate_size [] = 0
approximate_size (entry ∷ entries) = suc (approximate_size entries)

module _ (curve : Curve) (encode_to_string : List ℕ → Str) (d : ChainstateDeobfuscator) where
  pub read_entry : List ℕ → List ℕ → Outcome TxOut
  read_entry key value = deobfuscate d value >>= λ coin.
      deserialize_tx_out curve encode_to_string
        (record { bytes = build_tx_out_bytes (drop 1 key) coin; position = 0 })

  -- Next, with the entries that are left; `err not_found` is ErrNoKeysMore.
  unfoldable pub next_utxo : Entries → Outcome TxOut × Entries
  unfolding is_outpoint read_entry
  next_utxo [] = (err not_found, [])
  next_utxo ((key, value) ∷ entries) =
      let rest = next_utxo entries in
      if is_outpoint key then (read_entry key value, entries) else rest

  -- GetBlockHash, from LevelDB's answer for the key `B`.
  pub get_chainstate_block_hash : Outcome (List ℕ) → Outcome (List ℕ)
  get_chainstate_block_hash stored =
      stored >>= λ hash. deobfuscate d hash >>= λ found. ok (reverse_bytes_with_copy found)
