-- ===== src/Utxo/Store/Rollback.antt =====
-- utxostore/utxostore.go: the check of the store against the last checkpoint when it is opened, and
-- the way back to the state before that checkpoint.
pub mod Commands
pub mod Writes
pub mod Restores
pub mod Check
pub mod Unread
pub mod Recovery
mod Tests
use bitcoin_utxo_indexer.Prelude.{
  ℕ, Bool, true, false, not, List, [], ◌∷◌, ◌++◌, Option, none, some, ◌==◌, if◌then◌else◌,
}
use bitcoin_utxo_indexer.Prelude.Str.{Str, str_eq, GoMap, lookup}
use bitcoin_utxo_indexer.Utxo.Outcome.{Error, Outcome, ok, err, panic, not_found, failed}
use bitcoin_utxo_indexer.Utxo.Method.{Method, pure, raise, crash, for_each, for_all, ◌>>=◌, ◌>>◌}
use bitcoin_utxo_indexer.Utxo.Types.{TransactionOutputs, is_all_spent}
use bitcoin_utxo_indexer.Utxo.Checkpoint.{CheckpointBlock, UtxoSpendingCheckpoint}
use bitcoin_utxo_indexer.Utxo.Backend.{Backend}
use bitcoin_utxo_indexer.Utxo.Store.{
  Store, deep_equal, read_block_height, read_block_hash, read_outputs_by_tx_id, write_block_hash,
  write_block_height, write_transaction_outputs, delete_outputs, delete_address_tx_ids,
  add_address_tx_ids, get_address_utxo_transaction_ids, remove_latest_checkpoint,
}

module _ (b : Backend) (db_ver : Str) where
  -- `for txID := range newTxOutputs`: the outputs that did not exist before go.
  pub down_new_outputs :
      UtxoSpendingCheckpoint → Str × TransactionOutputs → Method (Store b) (Unit {0})
  down_new_outputs c (tx_id, entry) = elim (lookup c.txs_before_update tx_id) [
    | none ↦ delete_outputs b db_ver tx_id
    | some before ↦ pure tt
  ]

  -- `downCheckpoint`. A checkpoint of the first block has no previous one: nil is dereferenced.
  pub down_from : UtxoSpendingCheckpoint → CheckpointBlock → Method (Store b) (Unit {0})
  unfolding down_new_outputs
  down_from c previous = do
    write_block_hash b db_ver previous.hash
    write_block_height b db_ver previous.height
    for_each c.new_address_references (λ e. delete_address_tx_ids b db_ver e.0 e.1)
    for_each c.dereferenced_addresses_txs (λ e. add_address_tx_ids b db_ver e.0 e.1)
    for_each c.new_tx_outputs (down_new_outputs c)
    for_each c.txs_before_update (λ e. write_transaction_outputs b db_ver e.0 e.1)

  pub down_checkpoint : UtxoSpendingCheckpoint → Method (Store b) (Unit {0})
  unfolding down_from
  down_checkpoint c = elim c.prev_block [ none ↦ crash | some previous ↦ down_from c previous ]

  -- The tests of `isConsistenceWithCheckpoint` on one entry of each map.
  pub references_present : Str × List Str → Method (Store b) Bool
  references_present (address, ids) = do
    current ← get_address_utxo_transaction_ids b db_ver address
    pure (b.every current ids)

  pub references_absent : Str × List Str → Method (Store b) Bool
  references_absent (address, ids) = do
    current ← get_address_utxo_transaction_ids b db_ver address
    pure (b.none_of current ids)

  -- A transaction whose outputs are all spent must be gone.
  pub is_absent : Outcome TransactionOutputs → Outcome Bool
  is_absent (ok found) = ok false
  is_absent (err not_found) = ok true
  is_absent (err e) = err e
  is_absent panic = panic

  pub same_outputs : TransactionOutputs → Outcome TransactionOutputs → Outcome Bool
  same_outputs entry (ok current) = ok (deep_equal current entry)
  same_outputs entry (err e) = err e
  same_outputs entry panic = panic

  pub outputs_present : Str × TransactionOutputs → Method (Store b) Bool
  unfolding is_absent same_outputs
  outputs_present (tx_id, entry) s =
      let (r, s') = read_outputs_by_tx_id b db_ver tx_id s in
      if is_all_spent entry.outputs then (is_absent r, s') else (same_outputs entry r, s')

  pub tests_after_height : UtxoSpendingCheckpoint → Method (Store b) Bool
  unfolding references_present references_absent outputs_present
  tests_after_height c = do
    present ← for_all c.new_address_references references_present
    if not present then pure false else do
      absent ← for_all c.dereferenced_addresses_txs references_absent
      if not absent then pure false else for_all c.new_tx_outputs outputs_present

  pub is_consistence_with_checkpoint : UtxoSpendingCheckpoint → Method (Store b) Bool
  unfolding tests_after_height
  is_consistence_with_checkpoint c = do
    hash ← read_block_hash b db_ver
    if not (str_eq hash c.new_block.hash) then pure false else do
      height ← read_block_height b db_ver
      if not (height == c.new_block.height) then pure false else tests_after_height c

  pub last_checkpoint : Method (Store b) (Option UtxoSpendingCheckpoint)
  last_checkpoint s =
      let (w, r) = b.last_checkpoint s.world in
      (elim r [ none ↦ err failed | some c ↦ ok c ], record s { world = w })

  pub mark_consistent : Method (Store b) (Unit {0})
  mark_consistent s = (ok tt, record s { is_consist = true })

  -- The error of the check is not wrapped: it becomes another one.
  pub hide_error {ℓ} : {A : Type ℓ} → Method (Store b) A → Method (Store b) A
  hide_error m s = (elim (m s).0 [ ok a ↦ ok a | err e ↦ err failed | panic ↦ panic ], (m s).1)

  -- What follows the check; only the first way out marks the store consistent.
  pub finish_check : UtxoSpendingCheckpoint → Bool → Method (Store b) (Unit {0})
  unfolding mark_consistent down_checkpoint
  finish_check c true = do remove_latest_checkpoint b db_ver; mark_consistent
  finish_check c false = do down_checkpoint c; remove_latest_checkpoint b db_ver

  pub fix_with : Option UtxoSpendingCheckpoint → Method (Store b) (Unit {0})
  unfolding finish_check hide_error is_consistence_with_checkpoint
  fix_with none = mark_consistent
  fix_with (some c) = do same ← hide_error (is_consistence_with_checkpoint c); finish_check c same

  pub check_consistency_and_try_to_fix : Method (Store b) (Unit {0})
  unfolding fix_with last_checkpoint
  check_consistency_and_try_to_fix s =
      if s.is_consist then (ok tt, s) else (last_checkpoint >>= fix_with) s

  -- `New`: an error of the check leaves no store.
  pub new : b.World → Outcome (Store b) × b.World
  unfolding check_consistency_and_try_to_fix
  new w =
      let (r, s) = check_consistency_and_try_to_fix (record { world = w; is_consist = false }) in
      (elim r [ ok _ ↦ ok s | err e ↦ err e | panic ↦ panic ], s.world)
