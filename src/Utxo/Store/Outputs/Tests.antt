-- ===== src/Utxo/Store/Outputs/Tests.antt =====
-- One transaction with two outputs of one address, in the database in memory.
use mathlib.Core.Logic.{◌↔◌}
use bitcoin_utxo_indexer.Prelude.Among.{Among}
use bitcoin_utxo_indexer.Prelude.{◌≡◌, ◌⊎◌, refl, true, [], ◌∷◌, none, some, if◌then◌else◌}
use bitcoin_utxo_indexer.Prelude.Str.{Str, codes, str_eq, contains}
use bitcoin_utxo_indexer.Compression.Script.{Curve, decompress_script}
use bitcoin_utxo_indexer.Utxo.Outcome.{ok}
use bitcoin_utxo_indexer.Utxo.Types.{Env, get_addresses, get_script_bytes, TransactionOutput}
use bitcoin_utxo_indexer.Utxo.Key.Distinct.{tx_key, address_key}
use bitcoin_utxo_indexer.Utxo.Backend.{Value, outputs_value}
use bitcoin_utxo_indexer.Utxo.Memory.{memory, memory_laws, view_of}
use bitcoin_utxo_indexer.Prelude.Slices.{slice}
use bitcoin_utxo_indexer.Compression.Vlq.{deserialize_vlq}
use bitcoin_utxo_indexer.Utxo.Key.{
  to_string, new_address_utxo_tx_ids_set_key, new_transaction_id_key,
}
use bitcoin_utxo_indexer.Utxo.Store.{
  Store, if_consistent, get_address_utxo_transaction_ids, decode_outputs,
}
use bitcoin_utxo_indexer.Utxo.Store.Outputs.{
  UtxoEntry, unspent_of, decode_entries, decode_entry, all_unspent, unspent_outputs,
}
use bitcoin_utxo_indexer.Utxo.Store.Outputs.Methods.{
  read_entries, read_unspent_outputs_by_address, get_unspent_outputs_by_address,
}
use bitcoin_utxo_indexer.Utxo.Store.Outputs.ByAddress.{
  IsUnspent, IsSilent, get_unspent_outputs_by_address-IsUnspent,
}

abbrev no_keys : Curve
no_keys = record { Key = Unit; parse_pub_key = λ k. none; serialize_uncompressed = λ k. [] }

abbrev env : Env
env = record {
  curve = no_keys;
  extract_pk_script_addrs =
      λ script. some (record { script_address = script; pub_key_hash = none } ∷ []);
  encode_to_string = λ bytes. bytes;
}

abbrev ver : Str
ver = codes "1"

-- The script of the outputs, which is their address too.
abbrev address : Str
address = 0x51 ∷ []

abbrev coin : TransactionOutput
coin = record { compressed_script = 7 ∷ 0x51 ∷ []; compressed_amount = 9 }

abbrev with_value : Value → Store memory
with_value v = record {
  world = record {
    values = λ k. if str_eq (tx_key ver (codes "x")) k then some v else none;
    sets = λ k. if str_eq (address_key ver address) k then codes "x" ∷ [] else [];
    file = none;
  };
  is_consist = true;
}

-- The first output was spent.
abbrev indexed : Store memory
indexed = with_value (outputs_value (record { block_height = 6; outputs = none ∷ some coin ∷ [] }))

abbrev entry : UtxoEntry
entry = record { tx_id = codes "x"; vout = 1; output = coin; block_height = 6 }

found : (get_unspent_outputs_by_address memory ver env address indexed).0 ≡ ok (entry ∷ [])
unfolding get_unspent_outputs_by_address if_consistent get_address_utxo_transaction_ids str_eq
    to_string new_address_utxo_tx_ids_set_key unspent_of decode_entries decode_entry
    new_transaction_id_key decode_outputs all_unspent unspent_outputs get_addresses get_script_bytes
    decompress_script deserialize_vlq slice contains read_entries read_unspent_outputs_by_address
found = refl

get_unspent_outputs_by_address-IsUnspent_example :
    ((e : UtxoEntry) → Among e (entry ∷ []) ↔ IsUnspent env ver address (view_of indexed.world) e)
    ⊎ ((entry ∷ [] ≡ [])
        × IsSilent env ver address memory memory_laws
            (memory.get_set indexed.world (address_key ver address)).0)
get_unspent_outputs_by_address-IsUnspent_example =
    get_unspent_outputs_by_address-IsUnspent env ver address memory memory_laws indexed (entry ∷ [])
      found
