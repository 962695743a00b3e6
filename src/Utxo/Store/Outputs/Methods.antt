-- ===== src/Utxo/Store/Outputs/Methods.antt =====
-- utxostore/utxostore.go: the exported methods that find, add and spend outputs, with their
-- unexported halves.
use bitcoin_utxo_indexer.Prelude.{
  ℕ, Bool, true, false, List, [], ◌∷◌, ◌++◌, Option, none, some, if◌then◌else◌, map,
}
use bitcoin_utxo_indexer.Prelude.Str.{Str, GoMap}
use bitcoin_utxo_indexer.Utxo.Outcome
use bitcoin_utxo_indexer.Utxo.Outcome.{Outcome, ok, err, panic, failed, not_found}
use bitcoin_utxo_indexer.Utxo.Method.{Method, pure, for_each, ◌>>=◌, ◌>>◌}
use bitcoin_utxo_indexer.Utxo.Types.{TransactionOutput, TransactionOutputs, Env, is_all_spent}
use bitcoin_utxo_indexer.Utxo.Block.{ℤ}
use bitcoin_utxo_indexer.Utxo.Key.Distinct.{tx_key}
use bitcoin_utxo_indexer.Utxo.Backend.{
  Backend, outputs_value, list_value, Command, set_value, delete,
}
use bitcoin_utxo_indexer.Utxo.Store.{
  Store, run_get, run_write, return_outcome, decoded, if_consistent, reference_command,
  get_address_utxo_transaction_ids, write_block_hash, write_block_height, delete_outputs,
  delete_address_tx_ids, add_address_tx_ids, write_transaction_outputs,
}
use bitcoin_utxo_indexer.Utxo.Store.Outputs.{
  UtxoEntry, decode_list, unspent_of, tx_ids_by_address, spend_from_list,
}

module _ (b : Backend) (db_ver : Str) where
  pub set_block_height : ℕ → Method (Store b) (Unit {0})
  set_block_height height = if_consistent b db_ver (write_block_height b db_ver height)

  pub set_block_hash : Str → Method (Store b) (Unit {0})
  set_block_hash hash = if_consistent b db_ver (write_block_hash b db_ver hash)

  pub remove_address_tx_ids : Str → List Str → Method (Store b) (Unit {0})
  remove_address_tx_ids address ids =
      if_consistent b db_ver (delete_address_tx_ids b db_ver address ids)

  pub set_transaction_outputs : Str → TransactionOutputs → Method (Store b) (Unit {0})
  set_transaction_outputs tx_id entry =
      if_consistent b db_ver (write_transaction_outputs b db_ver tx_id entry)

  pub spend_all_tx_outputs : Str → Method (Store b) (Unit {0})
  spend_all_tx_outputs tx_id = if_consistent b db_ver (delete_outputs b db_ver tx_id)

  -- A value of any type can be unmarshalled into `any`.
  unfoldable pub read_are_exists_outputs : Str → Method (Store b) Bool
  read_are_exists_outputs tx_id = do
    v ← run_get b db_ver (tx_key db_ver tx_id)
    pure (elim v [ none ↦ false | some _ ↦ true ])

  unfoldable pub are_exists_outputs : Str → Method (Store b) Bool
  unfolding read_are_exists_outputs
  are_exists_outputs tx_id = if_consistent b db_ver (read_are_exists_outputs tx_id)

  module _ (env : Env) where
    unfoldable pub read_entries : Str → List Str → Method (Store b) (List UtxoEntry)
    read_entries address [] s = (ok [], s)
    read_entries address (id ∷ ids) s =
        let (w, r) = b.mul_get s.world (map (tx_key db_ver) (id ∷ ids)) in
        (unspent_of env address (id ∷ ids) r, record s { world = w })

    unfoldable pub read_unspent_outputs_by_address : Str → Method (Store b) (List UtxoEntry)
    unfolding read_entries
    read_unspent_outputs_by_address address = do
      ids ← get_address_utxo_transaction_ids b db_ver address
      read_entries address ids

    unfoldable pub get_unspent_outputs_by_address : Str → Method (Store b) (List UtxoEntry)
    unfolding read_unspent_outputs_by_address
    get_unspent_outputs_by_address address =
        if_consistent b db_ver (read_unspent_outputs_by_address address)

    unfoldable pub create_address_utxo_tx_id_index :
        Str → List (Option TransactionOutput) → Method (Store b) (Unit {0})
    create_address_utxo_tx_id_index tx_id outputs = do
      refs ← return_outcome b db_ver (tx_ids_by_address env tx_id [] outputs)
      for_each refs (λ e. add_address_tx_ids b db_ver e.0 e.1)

    unfoldable pub insert_transaction_outputs :
        Str → TransactionOutputs → Method (Store b) (Unit {0})
    unfolding create_address_utxo_tx_id_index
    insert_transaction_outputs tx_id entry = do
      write_transaction_outputs b db_ver tx_id entry
      create_address_utxo_tx_id_index tx_id entry.outputs

    pub add_transaction_outputs : Str → TransactionOutputs → Method (Store b) (Unit {0})
    add_transaction_outputs tx_id entry =
        if_consistent b db_ver (insert_transaction_outputs tx_id entry)

    -- What `addTransactionOutputs` queues on a store with a transaction.
    unfoldable pub queue_outputs : Str → TransactionOutputs → Outcome (List Command)
    queue_outputs tx_id entry =
        Outcome.◌>>=◌ (tx_ids_by_address env tx_id [] entry.outputs) (λ refs. ok (
          set_value (tx_key db_ver tx_id) (outputs_value entry)
          ∷ map (reference_command b db_ver) refs))

    unfoldable pub queue_batch : GoMap TransactionOutputs → Outcome (List Command)
    unfolding queue_outputs
    queue_batch [] = ok []
    queue_batch ((tx_id, entry) ∷ batch) =
        Outcome.◌>>=◌ (queue_outputs tx_id entry)
          (λ commands. Outcome.◌>>=◌ (queue_batch batch) (λ rest. ok (commands ++ rest)))

    -- A batch whose commands cannot be made is rolled back; else they are run as one transaction.
    unfoldable pub run_batch : Outcome (List Command) → Method (Store b) (Unit {0})
    run_batch (ok commands) s =
        let (w, done) = b.exec s.world [] commands in
        (if done then ok tt else err failed, record s { world = w })
    run_batch (err e) s = (err e, s)
    run_batch panic s = (panic, s)

    unfoldable pub add_transaction_outputs_batch :
        GoMap TransactionOutputs → Method (Store b) (Unit {0})
    unfolding queue_batch run_batch
    add_transaction_outputs_batch batch = if_consistent b db_ver (run_batch (queue_batch batch))

    unfoldable pub left_command : Str → List (Option TransactionOutput) → Command
    left_command tx_id left =
        if is_all_spent left
        then delete (tx_key db_ver tx_id)
        else set_value (tx_key db_ver tx_id) (list_value left)

    unfoldable pub spend_output_from_list :
        Str → ℤ → List (Option TransactionOutput) → Method (Store b) (List Str × TransactionOutput)
    unfolding left_command
    spend_output_from_list tx_id idx outputs = do
      (left, result) ← return_outcome b db_ver (spend_from_list env outputs idx)
      run_write b db_ver (left_command tx_id left)
      pure result

    pub spend_output_from_retrieved_outputs :
        Str → List (Option TransactionOutput) → ℤ → Method (Store b) (List Str × TransactionOutput)
    spend_output_from_retrieved_outputs tx_id outputs idx =
        if_consistent b db_ver (spend_output_from_list tx_id idx outputs)

    unfoldable pub read_and_spend_output : Str → ℤ → Method (Store b) (List Str × TransactionOutput)
    unfolding spend_output_from_list
    read_and_spend_output tx_id idx = do
      v ← run_get b db_ver (tx_key db_ver tx_id)
      outputs ← return_outcome b db_ver (decoded b db_ver decode_list (err not_found) v)
      spend_output_from_list tx_id idx outputs

    unfoldable pub spend_tx_output : Str → ℤ → Method (Store b) (List Str × TransactionOutput)
    unfolding read_and_spend_output
    spend_tx_output tx_id idx = if_consistent b db_ver (read_and_spend_output tx_id idx)
