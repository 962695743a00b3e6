-- ===== src/Chainstate/Migration/Stored.antt =====
-- The part of the migration that talks to the store: `storeUTXOBatch`, `updateUTXObatch` and the
-- loop that tries a batch again.
use bitcoin_utxo_indexer.Prelude.{Bool, true, false, List, [], ◌∷◌, if◌then◌else◌}
use bitcoin_utxo_indexer.Prelude.Str.{Str}
use bitcoin_utxo_indexer.Utxo.Outcome.{ok}
use bitcoin_utxo_indexer.Utxo.Method.{Method, continue}
use bitcoin_utxo_indexer.Utxo.Types.{Env}
use bitcoin_utxo_indexer.Utxo.Backend.{Backend}
use bitcoin_utxo_indexer.Utxo.Store.{Store}
use bitcoin_utxo_indexer.Utxo.Store.Outputs.Methods.{
  are_exists_outputs, add_transaction_outputs_batch,
}
use bitcoin_utxo_indexer.Chainstate.Migration.{TxOutputsEntry, new_batch, last_of}

module _ (b : Backend) (db_ver : Str) (env : Env) where
  -- What the migrator changes: the store, and `restoredLastSavedTxID`.
  pub record Migrator : Type 0 where
    pub utxo_store : Store b
    pub restored : Bool

  pub on_store {ℓ} : {A : Type ℓ} → Method (Store b) A → Method Migrator A
  on_store m s =
      let (r, store) = m s.utxo_store in (r, record { utxo_store = store; restored = s.restored })

  unfoldable pub update_utxo_batch : List TxOutputsEntry → Method Migrator (Unit {0})
  unfolding on_store
  update_utxo_batch batch =
      on_store (add_transaction_outputs_batch b db_ver env (new_batch [] batch))

  -- A batch whose last transaction is in the store is passed over, until one is not.
  unfoldable pub restore_from : List TxOutputsEntry → Bool → Method Migrator (Unit {0})
  unfolding update_utxo_batch
  restore_from batch true s = (ok tt, s)
  restore_from batch false s = update_utxo_batch batch (record s { restored = true })

  unfoldable pub store_utxo_batch : List TxOutputsEntry → Method Migrator (Unit {0})
  unfolding restore_from update_utxo_batch on_store
  store_utxo_batch [] s = (ok tt, s)
  store_utxo_batch (entry ∷ batch) s =
      if s.restored
      then update_utxo_batch (entry ∷ batch) s
      else (let (r, s') = on_store (are_exists_outputs b db_ver (last_of entry batch).tx_id) s in
          continue r (restore_from (entry ∷ batch)) s')
