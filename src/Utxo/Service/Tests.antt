-- ===== src/Utxo/Service/Tests.antt =====
-- The checkpoint of a small block, over the backend in memory.
use bitcoin_utxo_indexer.Prelude.{
  ℕ, ◌≡◌, refl, Bool, true, false, ◌⊎◌, [], ◌∷◌, none, some, if◌then◌else◌,
}
use bitcoin_utxo_indexer.Prelude.Str.{Str, codes, str_eq, str_eq_refl, lookup, insert, contains}
use bitcoin_utxo_indexer.Compression.Script.{Curve}
use bitcoin_utxo_indexer.Utxo.Outcome.{Outcome, ok}
use bitcoin_utxo_indexer.Utxo.Types.{Env, set_script_bytes, get_script_bytes, set_amount}
use bitcoin_utxo_indexer.Utxo.Key.Distinct.{hash_key, height_key, tx_key}
use bitcoin_utxo_indexer.Utxo.Checkpoint.{CheckpointBlock, UtxoSpendingCheckpoint}
use bitcoin_utxo_indexer.Utxo.Backend.{hash_value, height_value, outputs_value}
use bitcoin_utxo_indexer.Utxo.Memory.{Memory, memory, memory_laws, view_of}
use bitcoin_utxo_indexer.Utxo.Store.{Store}
use bitcoin_utxo_indexer.Utxo.Block.{BlockEnv, Block, pos}
use bitcoin_utxo_indexer.Utxo.Service.{
  first_checkpoint, new_checkpoint_from_next_block, add_from_block,
}
use bitcoin_utxo_indexer.Utxo.Service.Typed.{IsTyped, IsEntry, add_from_block-IsTyped}
use bitcoin_utxo_indexer.Utxo.Types.{TransactionOutputs}
use bitcoin_utxo_indexer.Utxo.Key.Distinct.{hash_key-tx_key, height_key-tx_key, hash_key-height_key}
use bitcoin_utxo_indexer.Utxo.Service.Added.{Stored, add_from_block-Stored}
use bitcoin_utxo_indexer.Utxo.Store.{commit_checkpoint}
use bitcoin_utxo_indexer.Utxo.Service.Taken.{Taken, new_checkpoint_from_next_block-Taken}
use bitcoin_utxo_indexer.Utxo.Store.{
  get_block_hash, decode_hash, get_block_height, decode_height, get_outputs_by_tx_id,
  decode_outputs, read_block_hash, read_block_height, read_outputs_by_tx_id,
}
use bitcoin_utxo_indexer.Utxo.Key.{
  to_string, new_block_hash_key, new_block_height_key, new_transaction_id_key,
}
use bitcoin_utxo_indexer.Utxo.Spending.{
  deref_addresses, convert_output, extract_address_references_from_outputs,
  get_all_spendable_outputs, spend_all_outputs, spend_inputs, spend_output, spend_transactions,
}
use bitcoin_utxo_indexer.Utxo.Block.{is_spendable}
use bitcoin_utxo_indexer.Utxo.Types.{get_addresses}
use bitcoin_utxo_indexer.Prelude.Slices.{slice, copy_at}
use bitcoin_utxo_indexer.Compression.Vlq.{deserialize_vlq, put_vlq}
use bitcoin_utxo_indexer.Compression.Script.{
  decompress_script, put_compressed_script, is_pub_key_hash, is_script_hash, is_pub_key,
}
use bitcoin_utxo_indexer.Compression.Amount.{compress_tx_out_amount}

-- No key is valid.
abbrev no_keys : Curve
no_keys = record { Key = Unit; parse_pub_key = λ k. none; serialize_uncompressed = λ k. [] }

-- The address of a script is the script.
abbrev env : Env
env = record {
  curve = no_keys;
  extract_pk_script_addrs =
      λ script. some (record { script_address = script; pub_key_hash = none } ∷ []);
  encode_to_string = λ bytes. bytes;
}

abbrev block_env : BlockEnv
block_env = record {
  base = env;
  AmountValue = ℕ;
  uint64 = λ value decimals. value;
  decode_string = λ hex. some hex;
  is_unspendable = λ script. false;
}

abbrev ver : Str
ver = codes "1"

-- The block spends the only output of the transaction x and makes one of its own.
abbrev block₈ : Block block_env
block₈ = record {
  height = 8;
  hash = codes "h8";
  transactions =
      record {
        id = codes "y";
        vout =
            record {
              value = some 5;
              script_pub_key = some (record { type_name = codes "k"; hex = 0x51 ∷ [] });
            }
            ∷ [];
        vin = none ∷ some (record { tx_id = codes "x"; vout = pos 0 }) ∷ [];
      }
      ∷ [];
}

abbrev m₇ : Memory
m₇ = record {
  values = λ k.
      if str_eq (hash_key ver) k
      then some (hash_value (codes "h7"))
      else (if str_eq (height_key ver) k
          then some (height_value 7)
          else (if str_eq (tx_key ver (codes "x")) k
              then some (
                  outputs_value (record {
                    block_height = 6;
                    outputs =
                        some (record { compressed_script = 7 ∷ 0x51 ∷ []; compressed_amount = 9 })
                        ∷ [];
                  }))
              else none));
  sets = λ k. [];
  file = none;
}

abbrev s₇ : Store memory
s₇ = record { world = m₇; is_consist = true }

abbrev result : Outcome UtxoSpendingCheckpoint
result = (new_checkpoint_from_next_block memory ver block_env 8 block₈ s₇).0

abbrev checkpoint_of : Outcome UtxoSpendingCheckpoint → UtxoSpendingCheckpoint
checkpoint_of (ok c) = c
checkpoint_of other = first_checkpoint memory ver block_env 8 block₈

returned : result ≡ ok (checkpoint_of result)
unfolding new_checkpoint_from_next_block get_block_hash decode_hash get_block_height decode_height
    get_outputs_by_tx_id decode_outputs read_block_hash read_block_height read_outputs_by_tx_id
    str_eq to_string new_block_hash_key new_block_height_key new_transaction_id_key deref_addresses
    convert_output is_spendable extract_address_references_from_outputs get_all_spendable_outputs
    spend_all_outputs spend_inputs spend_output spend_transactions insert contains lookup
    get_addresses get_script_bytes set_script_bytes set_amount slice deserialize_vlq put_vlq
    decompress_script put_compressed_script is_pub_key_hash is_script_hash is_pub_key
    compress_tx_out_amount copy_at
returned = refl

new_checkpoint_from_next_block-Taken_example :
    ((checkpoint_of result ≡ first_checkpoint memory ver block_env 8 block₈)
      × ((view_of m₇).values (hash_key ver) ≡ none))
    ⊎ ((previous : CheckpointBlock) × Taken ver
          (view_of m₇)
          block_env
          8
          block₈
          (checkpoint_of result)
          previous)
new_checkpoint_from_next_block-Taken_example =
    new_checkpoint_from_next_block-Taken memory memory_laws ver block_env 8 block₈ s₇
      (checkpoint_of result) returned

added : (add_from_block memory ver block_env 8 block₈ s₇).0 ≡ ok tt
unfolding add_from_block commit_checkpoint new_checkpoint_from_next_block get_block_hash decode_hash
    get_block_height decode_height get_outputs_by_tx_id decode_outputs read_block_hash
    read_block_height read_outputs_by_tx_id str_eq to_string new_block_hash_key new_block_height_key
    new_transaction_id_key deref_addresses convert_output is_spendable
    extract_address_references_from_outputs get_all_spendable_outputs spend_all_outputs spend_inputs
    spend_output spend_transactions insert contains lookup get_addresses get_script_bytes
    set_script_bytes set_amount slice deserialize_vlq put_vlq decompress_script
    put_compressed_script is_pub_key_hash is_script_hash is_pub_key compress_tx_out_amount copy_at
added = refl

add_from_block-Stored_example :
    let s' = (add_from_block memory ver block_env 8 block₈ s₇).1 in
    Stored ver block_env 8 block₈ (view_of m₇) (memory_laws.view s'.world)
    × (memory_laws.file s'.world ≡ none)
    × (s'.is_consist ≡ true)
add_from_block-Stored_example =
    add_from_block-Stored memory memory_laws ver block_env 8 block₈ s₇ added

if-IsEntry :
    (same : Bool) (entry : TransactionOutputs)
    → IsEntry (if same then some (outputs_value entry) else none)
if-IsEntry true entry = tt
if-IsEntry false entry = tt

m₇-IsTyped : IsTyped ver (view_of m₇)
m₇-IsTyped = record {
  hash = rw (str_eq_refl (hash_key ver)) tt;
  height = rw (hash_key-height_key ver, str_eq_refl (height_key ver)) tt;
  entries = λ t.
      rw (hash_key-tx_key ver t, height_key-tx_key ver t)
        (if-IsEntry (str_eq (tx_key ver (codes "x")) (tx_key ver t)) _);
}

add_from_block-IsTyped_example :
    IsTyped ver (memory_laws.view (add_from_block memory ver block_env 8 block₈ s₇).1.world)
add_from_block-IsTyped_example =
    add_from_block-IsTyped memory memory_laws ver block_env 8 block₈ s₇ m₇-IsTyped
