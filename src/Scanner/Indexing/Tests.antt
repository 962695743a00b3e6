-- ===== src/Scanner/Indexing/Tests.antt =====
-- A scanner over the store in memory, and a store that a commit left inconsistent.
use bitcoin_utxo_indexer.Prelude.{
  ℕ, ◌≡◌, refl, ◌⊎◌, true, false, [], ◌∷◌, none, some, if◌then◌else◌,
}
use bitcoin_utxo_indexer.Prelude.Str.{Str, codes, str_eq}
use bitcoin_utxo_indexer.Compression.Script.{Curve}
use bitcoin_utxo_indexer.Utxo.Outcome.{ok, err, block_already_stored}
use bitcoin_utxo_indexer.Utxo.Types.{Env}
use bitcoin_utxo_indexer.Utxo.Key.{to_string, new_block_hash_key, new_block_height_key}
use bitcoin_utxo_indexer.Utxo.Key.Distinct.{hash_key, height_key}
use bitcoin_utxo_indexer.Utxo.Backend.{hash_value, height_value}
use bitcoin_utxo_indexer.Utxo.Memory.{Memory, memory, memory_laws}
use bitcoin_utxo_indexer.Utxo.Store.{
  get_block_hash, get_block_height, read_block_hash, read_block_height, decode_hash, decode_height,
  commit_checkpoint,
}
use bitcoin_utxo_indexer.Utxo.Block.{BlockEnv, Block}
use bitcoin_utxo_indexer.Utxo.Service.{add_from_block}
use bitcoin_utxo_indexer.Utxo.Service.Added.{Stored}
use bitcoin_utxo_indexer.Scanner.{scan_blocks}
use bitcoin_utxo_indexer.Scanner.State.{new_in_memory_state, update_last_scanned_block_hash}
use bitcoin_utxo_indexer.Scanner.Indexing.{Indexer, index_block, indexing_scanner}
use bitcoin_utxo_indexer.Scanner.Indexing.Recorded.{index_block-Recorded, index_block-same_height}
use bitcoin_utxo_indexer.Scanner.Indexing.Stuck.{IsStuck, scan_blocks-IsStuck}

-- No key is valid.
abbrev no_keys : Curve
no_keys = record { Key = Unit; parse_pub_key = λ k. none; serialize_uncompressed = λ k. [] }

abbrev env : Env
env = record {
  curve = no_keys;
  extract_pk_script_addrs =
      λ script. some (record { script_address = script; pub_key_hash = none } ∷ []);
  encode_to_string = λ bytes. bytes;
}

abbrev block_env : BlockEnv
block_env = record {
  base = env;
  AmountValue = ℕ;
  uint64 = λ value decimals. value;
  decode_string = λ hex. some hex;
  is_unspendable = λ script. false;
}

abbrev ver : Str
ver = codes "1"

-- Another block at the height that is stored.
abbrev other₇ : Block block_env
other₇ = record { height = 7; hash = codes "g7"; transactions = [] }

abbrev m₇ : Memory
m₇ = record {
  values = λ k.
      if str_eq (hash_key ver) k
      then some (hash_value (codes "h7"))
      else (if str_eq (height_key ver) k then some (height_value 7) else none);
  sets = λ k. [];
  file = none;
}

abbrev indexer₇ : Indexer memory
indexer₇ = record {
  store = record { world = m₇; is_consist = true };
  state = new_in_memory_state (codes "h7");
}

index_block-same_height_example :
    let i' = (index_block memory ver block_env 8 other₇ indexer₇).1 in
    ((index_block memory ver block_env 8 other₇ indexer₇).0 ≡ ok tt)
    × (i'.state.last_scanned_block_hash ≡ codes "g7")
    × (memory_laws.view i'.store.world ≡ memory_laws.view m₇)
unfolding get_block_hash get_block_height read_block_hash read_block_height decode_hash
    decode_height str_eq to_string new_block_hash_key new_block_height_key
index_block-same_height_example =
    index_block-same_height memory memory_laws ver block_env 8 other₇ indexer₇ (codes "h7") refl
      refl

-- The first block, of an empty database.
abbrev genesis : Block block_env
genesis = record { height = 0; hash = codes "h0"; transactions = [] }

abbrev m₀ : Memory
m₀ = record { values = λ k. none; sets = λ k. []; file = none }

abbrev indexer₀ : Indexer memory
indexer₀ = record {
  store = record { world = m₀; is_consist = true };
  state = new_in_memory_state (codes "h0");
}

index_block-Recorded_example :
    let i' = (index_block memory ver block_env 8 genesis indexer₀).1 in
    (i'.state.last_scanned_block_hash ≡ codes "h0")
    × ((Stored ver block_env 8 genesis (memory_laws.view m₀) (memory_laws.view i'.store.world)
          × (i'.store.is_consist ≡ true))
        ⊎ ((add_from_block memory ver block_env 8 genesis indexer₀.store).0
            ≡ err block_already_stored))
unfolding index_block add_from_block commit_checkpoint get_block_hash read_block_hash decode_hash
    update_last_scanned_block_hash
index_block-Recorded_example =
    index_block-Recorded memory memory_laws ver block_env 8 genesis indexer₀ refl

abbrev shut₇ : Indexer memory
shut₇ = record {
  store = record { world = m₇; is_consist = false };
  state = new_in_memory_state (codes "h7");
}

scan_blocks-IsStuck_example :
    IsStuck
      (λ i. false)
      (scan_blocks
        (indexing_scanner memory ver block_env 8 (λ hash i. (ok [], i)) (λ i. false) (λ i. i))
        100
        (other₇ ∷ [])
        shut₇)
scan_blocks-IsStuck_example =
    scan_blocks-IsStuck memory memory_laws ver block_env 8 (λ hash i. (ok [], i)) (λ i. false)
      (λ i. i) (λ i. refl) 100 other₇ [] shut₇ refl
