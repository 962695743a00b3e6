-- ===== src/Chainstate/Migration/Batches/Tests.antt =====
-- A migration of three outputs in batches of one entry, into an empty database in memory.
use bitcoin_utxo_indexer.Prelude.{ℕ, ◌≡◌, refl, false, true, List, [], ◌∷◌, ◌++◌, none, some}
use bitcoin_utxo_indexer.Prelude.Str.{Str, codes}
use bitcoin_utxo_indexer.Compression.Script.{Curve}
use bitcoin_utxo_indexer.Utxo.Outcome.{ok}
use bitcoin_utxo_indexer.Utxo.Types.{Env}
use bitcoin_utxo_indexer.Chainstate.Coin.{TxOut}
use bitcoin_utxo_indexer.Chainstate.Migration.{TxOutputsEntry, group_utxos}
use bitcoin_utxo_indexer.Chainstate.Migration.Batches.{Migration, migrate}
use bitcoin_utxo_indexer.Chainstate.Migration.Stored.{Migrator, store_utxo_batch}
use bitcoin_utxo_indexer.Chainstate.Migration.Batches.Complete.{logged, migrate-group_utxos}
use bitcoin_utxo_indexer.Utxo.Memory.{Memory, memory}
use bitcoin_utxo_indexer.Chainstate.Migration.{
  take_utxo, group_entry, push_element_to_place, convert_utxo_list_to_transaction_output_list,
  block_height_of, last_of, change_transaction, close_group, convert_utxo, new_batch,
}
use bitcoin_utxo_indexer.Prelude.Str.{str_eq, insert, lookup}
use bitcoin_utxo_indexer.Utxo.Types.{set_script_bytes, get_addresses, get_script_bytes, set_amount}
use bitcoin_utxo_indexer.Compression.Script.{
  put_compressed_script, is_pub_key_hash, is_script_hash, is_pub_key, decompress_script,
}
use bitcoin_utxo_indexer.Compression.Vlq.{put_vlq, deserialize_loop, deserialize_vlq}
use bitcoin_utxo_indexer.Utxo.Store.Outputs.Methods.{
  are_exists_outputs, add_transaction_outputs_batch, queue_batch, queue_outputs,
  read_are_exists_outputs, run_batch,
}
use bitcoin_utxo_indexer.Utxo.Store.{if_consistent, run_get}
use bitcoin_utxo_indexer.Chainstate.Migration.Batches.{
  after_batch, finish, finish_batches, migrate_loop, migrate_sized, set_block, store_full_batch,
  store_last_batch,
}
use bitcoin_utxo_indexer.Chainstate.Migration.Stored.{restore_from, update_utxo_batch}
use bitcoin_utxo_indexer.Compression.Amount.{compress_tx_out_amount}
use bitcoin_utxo_indexer.Prelude.Order.{lt_wf}
use bitcoin_utxo_indexer.Prelude.Slices.{slice, copy_at}
use bitcoin_utxo_indexer.Utxo.Key.{new_transaction_id_key, to_string}
use bitcoin_utxo_indexer.Utxo.Store.Outputs.{index_addresses, tx_ids_by_address}

abbrev no_keys : Curve
no_keys = record { Key = Unit; parse_pub_key = λ k. none; serialize_uncompressed = λ k. [] }

abbrev env : Env
env = record {
  curve = no_keys;
  extract_pk_script_addrs = λ script. some [];
  encode_to_string = λ bytes. bytes;
}

abbrev utxo : Str → ℕ → TxOut
utxo tx_id index = record {
  tx_id = tx_id;
  index = index;
  coin = record {
    is_coin_base = false;
    block_height = 7;
    out = record { value = 50; pk_script = 0x51 ∷ [] };
  };
}

abbrev utxos : List TxOut
utxos = utxo (codes "x") 0 ∷ utxo (codes "x") 2 ∷ utxo (codes "y") 1 ∷ []

-- The program's storeUTXOBatch over the database in memory.
abbrev migration : Migration (Migrator memory (codes "1") env)
migration = record {
  approximate_size = ok 3;
  batch_size = 1;
  store_utxo_batch = store_utxo_batch memory (codes "1") env;
  block_hash = ok (codes "h");
  chainstate_block_height = 7;
  set_block_hash = λ hash s. (ok tt, s);
  set_block_height = λ height s. (ok tt, s);
  sleep = λ s. s;
}

abbrev empty_memory : Memory
empty_memory = record { values = λ k. none; sets = λ k. []; file = none }

abbrev empty : Migrator memory (codes "1") env
empty = record { utxo_store = record { world = empty_memory; is_consist = true }; restored = false }

ended :
    (s' : Migrator memory (codes "1") env × List TxOutputsEntry) × (migrate env
        (logged migration)
        1
        utxos
        none
        (empty, [])
      ≡ some (ok tt, s'))
unfolding migrate logged store_utxo_batch take_utxo str_eq group_entry push_element_to_place
    convert_utxo_list_to_transaction_output_list set_script_bytes put_compressed_script
    is_pub_key_hash is_script_hash is_pub_key put_vlq block_height_of last_of are_exists_outputs
    if_consistent run_get add_transaction_outputs_batch after_batch finish finish_batches
    migrate_loop migrate_sized set_block store_full_batch store_last_batch restore_from
    update_utxo_batch change_transaction close_group convert_utxo new_batch compress_tx_out_amount
    decompress_script deserialize_loop deserialize_vlq lt_wf slice insert lookup
    new_transaction_id_key to_string queue_batch queue_outputs read_are_exists_outputs run_batch
    index_addresses tx_ids_by_address get_addresses get_script_bytes set_amount copy_at
ended = (_, refl)

migrate-group_utxos_example :
    (entries : List TxOutputsEntry) × (group_utxos env utxos ≡ ok entries)
    × (ended.0.1 ≡ [] ++ entries)
migrate-group_utxos_example =
    migrate-group_utxos env migration 1 utxos none (empty, []) ended.0 ended.1
