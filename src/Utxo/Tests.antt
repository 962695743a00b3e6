-- ===== src/Utxo/Tests.antt =====
-- Stored outputs, on concrete values.
use bitcoin_utxo_indexer.Prelude.{◌≡◌, arith, [], ◌∷◌, none, some}
use bitcoin_utxo_indexer.Compression.Script.{Curve}
use bitcoin_utxo_indexer.Compression.Script.RoundTrip.{IsCurve}
use bitcoin_utxo_indexer.Utxo.Types.{Env, TransactionOutput, set_script_bytes, get_script_bytes}
use bitcoin_utxo_indexer.Utxo.Types.RoundTrip.{get-set_script_bytes}

-- No key is valid.
abbrev no_keys : Curve
no_keys = record { Key = Unit; parse_pub_key = λ k. none; serialize_uncompressed = λ k. [] }

no_keys-IsCurve : IsCurve no_keys
no_keys-IsCurve = record {
  serialize-parse = λ x y key hx hy h. absurd cc;
  parse_x = λ x y key hx hy h. absurd cc;
}

-- The address of a script is the script.
abbrev env : Env
env = record {
  curve = no_keys;
  extract_pk_script_addrs =
      λ script. some (record { script_address = script; pub_key_hash = none } ∷ []);
  encode_to_string = λ bytes. bytes;
}

abbrev output₀ : TransactionOutput
output₀ = record { compressed_script = []; compressed_amount = 4 }

get-set_script_bytes_example :
    (t' : TransactionOutput) × (set_script_bytes env output₀ (0x51 ∷ 0x52 ∷ []) ≡ some t')
    × (get_script_bytes env t' ≡ some (0x51 ∷ 0x52 ∷ []))
    × (t'.compressed_amount ≡ 4)
get-set_script_bytes_example =
    get-set_script_bytes env no_keys-IsCurve output₀ (0x51 ∷ 0x52 ∷ []) (omega arith)
