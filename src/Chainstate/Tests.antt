-- ===== src/Chainstate/Tests.antt =====
-- Outputs of two transactions, with a spent one between them.
use bitcoin_utxo_indexer.Compression.Vlq.{deserialize_vlq}
use bitcoin_utxo_indexer.Chainstate.Obfuscation.{deobfuscate_value, xor_from}
use bitcoin_utxo_indexer.Chainstate.Reader.{deserialize_vlq_from, read_vlq}
use bitcoin_utxo_indexer.Chainstate.Decode.{
  BytesReader, next_vlq, deserialize_coin, get_script_size, read_into,
}
use bitcoin_utxo_indexer.Chainstate.Reader.Bytes.{deserialize_vlq_from-deserialize_vlq}
use bitcoin_utxo_indexer.Prelude.{
  refl, drop, All, ◌≡◌, arith, false, [], ◌∷◌, Option, none, some, ℕ, List,
}
use bitcoin_utxo_indexer.Prelude.Str.{Str, codes}
use bitcoin_utxo_indexer.Compression.Script.{Curve}
use bitcoin_utxo_indexer.Compression.Script.RoundTrip.{IsCurve}
use bitcoin_utxo_indexer.Utxo.Outcome.{ok, err, failed}
use bitcoin_utxo_indexer.Utxo.Types.{Env}
use bitcoin_utxo_indexer.Utxo.Block.{pos}
use bitcoin_utxo_indexer.Chainstate.Coin.{TxOut}
use bitcoin_utxo_indexer.Chainstate.Migration.{TxOutputsEntry, push_element_to_place, group_utxos}
use bitcoin_utxo_indexer.Chainstate.Migration.Placed.{Placed, push_element_to_place-Placed}
use bitcoin_utxo_indexer.Chainstate.Migration.Grouped.{IsStored}
use bitcoin_utxo_indexer.Chainstate.Migration.Total.{group_utxos_complete}

-- No key is valid.
abbrev no_keys : Curve
no_keys = record { Key = Unit; parse_pub_key = λ k. none; serialize_uncompressed = λ k. [] }

no_keys-IsCurve : IsCurve no_keys
no_keys-IsCurve = record {
  serialize-parse = λ x y key hx hy h. absurd cc;
  parse_x = λ x y key hx hy h. absurd cc;
}

abbrev env : Env
env = record {
  curve = no_keys;
  extract_pk_script_addrs = λ script. some [];
  encode_to_string = λ bytes. bytes;
}

abbrev utxo : Str → ℕ → TxOut
utxo tx_id index = record {
  tx_id = tx_id;
  index = index;
  coin = record {
    is_coin_base = false;
    block_height = 7;
    out = record { value = 50; pk_script = 0x51 ∷ [] };
  };
}

abbrev utxos : List TxOut
utxos = utxo (codes "x") 0 ∷ utxo (codes "x") 2 ∷ utxo (codes "y") 1 ∷ []

push_element_to_place-Placed_example :
    (result : List (Option ℕ)) × ((push_element_to_place (some 4 ∷ []) (some 9) (pos 3) ≡ ok result)
      × Placed (some 4 ∷ []) (some 9) 3 result)
push_element_to_place-Placed_example = push_element_to_place-Placed (some 4 ∷ []) (some 9) 3

group_utxos_complete_example :
    (entries : List TxOutputsEntry) × ((group_utxos env utxos ≡ ok entries)
      × All (λ u. IsStored env entries u.tx_id u.index) utxos)
group_utxos_complete_example =
    group_utxos_complete env no_keys-IsCurve utxos (omega arith, (omega arith, (omega arith, tt)))

-- The beginning of the value in the test of deobfuscation_test.go.
deobfuscated :
    deobfuscate_value (0x27 ∷ 0xc7 ∷ 0x81 ∷ []) (0x26 ∷ 0xc3 ∷ []) ≡ ok (0x01 ∷ 0x04 ∷ [])
unfolding deobfuscate_value xor_from
deobfuscated = refl

deserialize_vlq_from-deserialize_vlq_example : deserialize_vlq_from (0x80 ∷ 0x00 ∷ 0x51 ∷ []) ≡ (
  deserialize_vlq (0x80 ∷ 0x00 ∷ 0x51 ∷ []),
  drop (deserialize_vlq (0x80 ∷ 0x00 ∷ 0x51 ∷ [])).1 (0x80 ∷ 0x00 ∷ 0x51 ∷ []),
)
deserialize_vlq_from-deserialize_vlq_example =
    deserialize_vlq_from-deserialize_vlq (0x80 ∷ 0x00 ∷ 0x51 ∷ [])

-- A coin of height 1 with no amount and an empty script, as Bitcoin Core stores it.
abbrev empty_script : BytesReader
empty_script = record { bytes = 2 ∷ 0 ∷ 6 ∷ []; position = 0 }

-- An empty script ends behind its type.
empty_refused : deserialize_coin no_keys empty_script ≡ err failed
unfolding deserialize_coin next_vlq deserialize_vlq_from read_vlq get_script_size read_into
empty_refused = refl
