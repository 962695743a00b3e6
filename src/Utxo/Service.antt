-- ===== src/Utxo/Service.antt =====
-- utxospending's reads of the store, `NewCheckpointFromNextBlock`, and service.AddFromBlock.
pub mod Checkpoints
pub mod Taken
pub mod Reading
pub mod Added
pub mod Typed
mod Tests
use bitcoin_utxo_indexer.Prelude.{
  ℕ, ◌+◌, Bool, true, false, not, List, [], ◌∷◌, Option, none, some, if◌then◌else◌, ◌==◌,
}
use bitcoin_utxo_indexer.Prelude.Str.{Str, GoMap, insert, contains}
use bitcoin_utxo_indexer.Utxo.Outcome.{
  Outcome, ok, err, panic, not_found, block_hash_not_found, no_diff, next_block_too_far,
  block_already_stored,
}
use bitcoin_utxo_indexer.Utxo.Method.{Method, continue, pure, raise, ◌>>=◌, ◌>>◌}
use bitcoin_utxo_indexer.Utxo.Types.{TransactionOutputs}
use bitcoin_utxo_indexer.Utxo.Checkpoint.{CheckpointBlock, UtxoSpendingCheckpoint}
use bitcoin_utxo_indexer.Utxo.Backend.{Backend}
use bitcoin_utxo_indexer.Utxo.Store.{
  Store, return_outcome, get_block_hash, get_block_height, get_outputs_by_tx_id, commit_checkpoint,
}
use bitcoin_utxo_indexer.Utxo.Block.{BlockEnv, SpendingOutput, Transaction, Block}
use bitcoin_utxo_indexer.Utxo.Spending.{
  spend_all_outputs, extract_address_references_from_outputs, deref_addresses,
}

module _ (b : Backend) (db_ver : Str) (env : BlockEnv) (decimals : ℕ) where
  -- A missing entry is passed over when its transaction is one of the block's, up to this one.
  pub keep_found :
      List Str
      → GoMap TransactionOutputs
      → Str
      → Outcome TransactionOutputs
      → Outcome (GoMap TransactionOutputs)
  keep_found current found tx_id (ok entry) = ok (insert found tx_id entry)
  keep_found current found tx_id (err not_found) =
      if contains current tx_id then ok found else err not_found
  keep_found current found tx_id (err e) = err e
  keep_found current found tx_id panic = panic

  pub extract_input :
      List Str
      → GoMap TransactionOutputs
      → Option SpendingOutput
      → Method (Store b) (GoMap TransactionOutputs)
  unfolding keep_found
  extract_input current found none s = (ok found, s)
  extract_input current found (some input) s =
      let (r, s') = get_outputs_by_tx_id b db_ver input.tx_id s in
      (keep_found current found input.tx_id r, s')

  pub extract_inputs :
      List Str
      → GoMap TransactionOutputs
      → List (Option SpendingOutput)
      → Method (Store b) (GoMap TransactionOutputs)
  unfolding extract_input
  extract_inputs current found [] = pure found
  extract_inputs current found (input ∷ inputs) = do
    found' ← extract_input current found input
    extract_inputs current found' inputs

  pub extract_transactions :
      List Str
      → GoMap TransactionOutputs
      → List (Transaction env)
      → Method (Store b) (GoMap TransactionOutputs)
  unfolding extract_inputs
  extract_transactions current found [] = pure found
  extract_transactions current found (tx ∷ txs) = do
    found' ← extract_inputs (tx.id ∷ current) found tx.vin
    extract_transactions (tx.id ∷ current) found' txs

  pub extract_spending_outputs_from_block : Block env → Method (Store b) (GoMap TransactionOutputs)
  unfolding extract_transactions
  extract_spending_outputs_from_block block = extract_transactions [] [] block.transactions

  pub new_block_point : Block env → CheckpointBlock
  new_block_point block = record { height = block.height; hash = block.hash }

  -- The first block is taken with nothing spent and nothing added.
  pub first_checkpoint : Block env → UtxoSpendingCheckpoint
  unfolding new_block_point
  first_checkpoint block = record {
    prev_block = none;
    new_block = new_block_point block;
    txs_before_update = [];
    dereferenced_addresses_txs = [];
    new_tx_outputs = [];
    new_address_references = [];
  }

  pub checkpoint_after : CheckpointBlock → Block env → Method (Store b) UtxoSpendingCheckpoint
  unfolding new_block_point extract_spending_outputs_from_block
  checkpoint_after previous block = do
    spending ← extract_spending_outputs_from_block block
    gone ← return_outcome b db_ver (deref_addresses env decimals spending block)
    new_outputs ← return_outcome b db_ver (spend_all_outputs env decimals spending block)
    references ←
        return_outcome b db_ver (extract_address_references_from_outputs env decimals block)
    pure (record {
      prev_block = some previous;
      new_block = new_block_point block;
      txs_before_update = spending;
      dereferenced_addresses_txs = gone;
      new_tx_outputs = new_outputs;
      new_address_references = references;
    })

  pub checkpoint_at : Str → Block env → Method (Store b) UtxoSpendingCheckpoint
  unfolding checkpoint_after
  checkpoint_at current_hash block = do
    current_height ← get_block_height b db_ver
    if block.height == current_height
        then raise no_diff
        else if not (current_height + 1 == block.height)
        then raise next_block_too_far
        else checkpoint_after (record { height = current_height; hash = current_hash }) block

  -- What the hash that was read leads to.
  pub after_hash : Block env → Outcome Str → Method (Store b) UtxoSpendingCheckpoint
  unfolding checkpoint_at first_checkpoint
  after_hash block (ok current_hash) s = checkpoint_at current_hash block s
  after_hash block (err block_hash_not_found) s = (ok (first_checkpoint block), s)
  after_hash block (err e) s = (err e, s)
  after_hash block panic s = (panic, s)

  pub new_checkpoint_from_next_block : Block env → Method (Store b) UtxoSpendingCheckpoint
  unfolding after_hash
  new_checkpoint_from_next_block block s =
      let (r, s') = get_block_hash b db_ver s in after_hash block r s'

  -- service.AddFromBlock: one error is given another name.
  pub already_stored : Outcome UtxoSpendingCheckpoint → Outcome UtxoSpendingCheckpoint
  already_stored (ok c) = ok c
  already_stored (err no_diff) = err block_already_stored
  already_stored (err e) = err e
  already_stored panic = panic

  unfoldable pub add_from_block : Block env → Method (Store b) (Unit {0})
  unfolding already_stored new_checkpoint_from_next_block
  add_from_block block s =
      let (r, s') = new_checkpoint_from_next_block block s in
      continue (already_stored r) (commit_checkpoint b db_ver) s'
