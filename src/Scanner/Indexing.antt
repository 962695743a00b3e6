-- ===== src/Scanner/Indexing.antt =====
-- The scanner that the main command runs (cmd/utxo-indexer/main.go, runUTXOScanner): it starts at
-- the block that the store holds (internal/pkg/di/di.go) and adds every block to the store.
pub mod Stuck
pub mod Recorded
mod Tests
use bitcoin_utxo_indexer.Prelude.{ℕ, Bool, List, [], Option, none, some, if◌then◌else◌}
use bitcoin_utxo_indexer.Prelude.Str.{Str, str_eq}
use bitcoin_utxo_indexer.Utxo.Outcome.{
  Outcome, ok, err, panic, block_hash_not_found, block_already_stored, failed,
}
use bitcoin_utxo_indexer.Utxo.Method.{Method}
use bitcoin_utxo_indexer.Utxo.Backend.{Backend}
use bitcoin_utxo_indexer.Utxo.Store.{Store, get_block_hash}
use bitcoin_utxo_indexer.Utxo.Block.{BlockEnv, Block}
use bitcoin_utxo_indexer.Utxo.Service.{add_from_block}
use bitcoin_utxo_indexer.Scanner.{Scanner}
use bitcoin_utxo_indexer.Scanner.State.{
  InMemoryState, new_in_memory_state, get_last_scanned_block_hash, update_last_scanned_block_hash,
}

pub record Indexer (b : Backend) : Type 0 where
  pub store : Store b
  pub state : InMemoryState

module _ (b : Backend) (db_ver : Str) (env : BlockEnv) (decimals : ℕ) where
  -- The hash to start from, by the store's hash and the node's answer for the genesis block.
  pub start_hash : Str → Option Str → Outcome InMemoryState
  start_hash last none = err failed
  start_hash last (some genesis) =
      ok (new_in_memory_state (if str_eq last [] then genesis else last))

  pub state_after_hash : Outcome Str → Option Str → Outcome InMemoryState
  unfolding start_hash
  state_after_hash (ok last) genesis = start_hash last genesis
  state_after_hash (err block_hash_not_found) genesis = start_hash [] genesis
  state_after_hash (err e) genesis = err e
  state_after_hash panic genesis = panic

  pub scanner_state : Option Str → Method (Store b) InMemoryState
  unfolding state_after_hash
  scanner_state genesis s =
      let (last, s') = get_block_hash b db_ver s in (state_after_hash last genesis, s')

  -- `UpdateLastScannedBlockHash` at the end of the handler.
  pub update_scanned : Block env → Method (Indexer b) (Unit {0})
  update_scanned block i =
      let (r, state) = update_last_scanned_block_hash block.hash i.state in
      (r, record i { state = state })

  -- A block that is stored already counts as scanned.
  pub after_adding : Block env → Outcome (Unit {0}) → Method (Indexer b) (Unit {0})
  unfolding update_scanned
  after_adding block (ok _) i = update_scanned block i
  after_adding block (err block_already_stored) i = update_scanned block i
  after_adding block (err e) i = (err e, i)
  after_adding block panic i = (panic, i)

  pub index_block : Block env → Method (Indexer b) (Unit {0})
  unfolding after_adding
  index_block block i =
      let (r, s) = add_from_block b db_ver env decimals block i.store in
      after_adding block r (record i { store = s })

  pub last_scanned : Method (Indexer b) Str
  last_scanned i =
      let (hash, state) = get_last_scanned_block_hash i.state in (hash, record i { state = state })

  -- The iterator's blocks, the context and the sleep are arguments.
  pub indexing_scanner :
      (Str → Method (Indexer b) (List (Block env)))
      → (Indexer b → Bool)
      → (Indexer b → Indexer b)
      → Scanner (Indexer b) (Block env)
  unfolding last_scanned index_block
  indexing_scanner iterate cancelled wait = record {
    get_last_scanned_block_hash = last_scanned;
    iterate = iterate;
    handle_blocks = index_block;
    cancelled = cancelled;
    wait = wait;
  }
