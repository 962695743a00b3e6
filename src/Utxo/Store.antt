-- ===== src/Utxo/Store.antt =====
-- utxostore/utxostore.go and indexbyaddress.go: the store's methods over a backend. `Store` holds
-- what a method can change: the world outside, and the flag `isConsist`.
pub mod Effect
pub mod Commit
pub mod Atomic
pub mod Reads
pub mod Rollback
pub mod Outputs
use mathlib.Core.Bool.{cond}
use native.Mathlib.Decide.{ℕ_discrete}
use bitcoin_utxo_indexer.Prelude.{
  ℕ, Bool, true, false, not, List, [], ◌∷◌, ◌++◌, Option, none, some, ◌==◌, if◌then◌else◌, map,
}
use bitcoin_utxo_indexer.Prelude.Str.{Str, str_eq, GoMap, lookup}
use bitcoin_utxo_indexer.Utxo.Outcome.{
  Error, Outcome, ok, err, panic, not_found, block_hash_not_found, inconsistence_state, failed,
}
use bitcoin_utxo_indexer.Utxo.Method.{Method, pure, raise, crash, for_each, for_all, ◌>>=◌, ◌>>◌}
use bitcoin_utxo_indexer.Utxo.Types.{TransactionOutput, TransactionOutputs, is_all_spent}
use bitcoin_utxo_indexer.Utxo.Key.Distinct.{height_key, hash_key, tx_key, address_key}
use bitcoin_utxo_indexer.Utxo.Checkpoint.{CheckpointBlock, UtxoSpendingCheckpoint}
use bitcoin_utxo_indexer.Utxo.Backend.{
  Backend, Value, hash_value, height_value, outputs_value, Command, set_value, delete, add_to_set,
  remove_from_set,
}

-- reflect.DeepEqual on entries.
pub TransactionOutputs-discrete : Discrete TransactionOutputs
TransactionOutputs-discrete = hlevel ℕ_discrete

unfoldable pub deep_equal : TransactionOutputs → TransactionOutputs → Bool
deep_equal s t = elim (TransactionOutputs-discrete s t) [ yes _ ↦ true | no _ ↦ false ]

-- Unmarshalling a value into a variable of each type.
unfoldable pub decode_hash : Value → Option Str
decode_hash (hash_value h) = some h
decode_hash _ = none

unfoldable pub decode_height : Value → Option ℕ
decode_height (height_value h) = some h
decode_height _ = none

unfoldable pub decode_outputs : Value → Option TransactionOutputs
decode_outputs (outputs_value o) = some o
decode_outputs _ = none

pub record Store (b : Backend) : Type 0 where
  pub world : b.World
  pub is_consist : Bool

module _ (b : Backend) (db_ver : Str) where
  -- The calls of the backend, as methods.
  pub run_write : Command → Method (Store b) (Unit {0})
  run_write c s =
      let (w, done) = b.write s.world c in
      (if done then ok tt else err failed, record s { world = w })

  unfoldable pub run_get : Str → Method (Store b) (Option Value)
  run_get k s =
      let (w, r) = b.get s.world k in
      (elim r [ none ↦ err failed | some v ↦ ok v ], record s { world = w })

  -- addressUTXOIds.getAddressUTXOTransactionIds
  pub get_address_utxo_transaction_ids : Str → Method (Store b) (List Str)
  get_address_utxo_transaction_ids address s =
      let (w, r) = b.get_set s.world (address_key db_ver address) in
      (elim r [ none ↦ err failed | some ids ↦ ok ids ], record s { world = w })

  pub decoded {ℓ} : {A : Type ℓ} → (Value → Option A) → Outcome A → Option Value → Outcome A
  decoded decode missing none = missing
  decoded decode missing (some v) = elim (decode v) [ none ↦ err failed | some a ↦ ok a ]

  pub return_outcome {ℓ} : {A : Type ℓ} → Outcome A → Method (Store b) A
  return_outcome r s = (r, s)

  -- A missing height is 0, the value that the variable was declared with.
  unfoldable pub read_block_height : Method (Store b) ℕ
  unfolding run_get decoded return_outcome
  read_block_height = do
    v ← run_get (height_key db_ver)
    return_outcome (decoded decode_height (ok 0) v)

  unfoldable pub read_block_hash : Method (Store b) Str
  unfolding run_get decoded return_outcome
  read_block_hash = do
    v ← run_get (hash_key db_ver)
    return_outcome (decoded decode_hash (err block_hash_not_found) v)

  unfoldable pub read_outputs_by_tx_id : Str → Method (Store b) TransactionOutputs
  unfolding run_get decoded return_outcome
  read_outputs_by_tx_id tx_id = do
    v ← run_get (tx_key db_ver tx_id)
    return_outcome (decoded decode_outputs (err not_found) v)

  pub write_block_hash : Str → Method (Store b) (Unit {0})
  unfolding run_write
  write_block_hash hash = run_write (set_value (hash_key db_ver) (hash_value hash))

  pub write_block_height : ℕ → Method (Store b) (Unit {0})
  unfolding run_write
  write_block_height height = run_write (set_value (height_key db_ver) (height_value height))

  pub write_transaction_outputs : Str → TransactionOutputs → Method (Store b) (Unit {0})
  unfolding run_write
  write_transaction_outputs tx_id entry =
      run_write (set_value (tx_key db_ver tx_id) (outputs_value entry))

  pub delete_outputs : Str → Method (Store b) (Unit {0})
  unfolding run_write
  delete_outputs tx_id = run_write (delete (tx_key db_ver tx_id))

  pub delete_address_tx_ids : Str → List Str → Method (Store b) (Unit {0})
  unfolding run_write
  delete_address_tx_ids address ids = run_write (remove_from_set (address_key db_ver address) ids)

  pub add_address_tx_ids : Str → List Str → Method (Store b) (Unit {0})
  unfolding run_write
  add_address_tx_ids address ids = run_write (add_to_set (address_key db_ver address) ids)

  -- Every exported method begins with this test.
  unfoldable pub if_consistent {ℓ} : {A : Type ℓ} → Method (Store b) A → Method (Store b) A
  if_consistent m s = if s.is_consist then m s else (err inconsistence_state, s)

  unfoldable pub get_block_height : Method (Store b) ℕ
  unfolding if_consistent read_block_height
  get_block_height = if_consistent read_block_height

  unfoldable pub get_block_hash : Method (Store b) Str
  unfolding if_consistent read_block_hash
  get_block_hash = if_consistent read_block_hash

  unfoldable pub get_outputs_by_tx_id : Str → Method (Store b) TransactionOutputs
  unfolding if_consistent read_outputs_by_tx_id
  get_outputs_by_tx_id tx_id = if_consistent (read_outputs_by_tx_id tx_id)

  -- The commands that the transaction of `spendOutputsWithNewBlockInfo` queues.
  pub outputs_command : Str × TransactionOutputs → Command
  outputs_command (tx_id, entry) =
      if is_all_spent entry.outputs
      then delete (tx_key db_ver tx_id)
      else set_value (tx_key db_ver tx_id) (outputs_value entry)

  pub reference_command : Str × List Str → Command
  reference_command (address, ids) = add_to_set (address_key db_ver address) ids

  pub dereference_command : Str × List Str → Command
  dereference_command (address, ids) = remove_from_set (address_key db_ver address) ids

  pub transaction_commands : UtxoSpendingCheckpoint → List Command
  unfolding outputs_command reference_command dereference_command
  transaction_commands c =
      set_value (hash_key db_ver) (hash_value c.new_block.hash)
      ∷ set_value (height_key db_ver) (height_value c.new_block.height)
      ∷ (map outputs_command c.new_tx_outputs
          ++ (map reference_command c.new_address_references
              ++ map dereference_command c.dereferenced_addresses_txs))

  abbrev pub keys {ℓ} : {V : Type ℓ} → GoMap V → List Str
  keys m = map (λ e. e.0) m

  pub get_store_keys_to_watch : List Str → List Str → List Str → List Str
  get_store_keys_to_watch tx_ids dereferenced references =
      height_key db_ver
      ∷ height_key db_ver
      ∷ (map (tx_key db_ver) tx_ids
          ++ (map (address_key db_ver) dereferenced ++ map (address_key db_ver) references))

  pub spend_outputs_with_new_block_info : UtxoSpendingCheckpoint → Method (Store b) (Unit {0})
  unfolding transaction_commands get_store_keys_to_watch
  spend_outputs_with_new_block_info c s =
      let watch =
        get_store_keys_to_watch (keys c.new_tx_outputs) (keys c.dereferenced_addresses_txs)
          (keys c.new_address_references) in
      let (w, done) = b.exec s.world watch (transaction_commands c) in
      if done
      then (ok tt, record s { world = w })
      else (err failed, record s { world = w; is_consist = false })

  pub save_checkpoint : UtxoSpendingCheckpoint → Method (Store b) (Unit {0})
  save_checkpoint c s =
      let (w, done) = b.save_checkpoint s.world c in
      (if done then ok tt else err failed, record s { world = w })

  pub remove_latest_checkpoint : Method (Store b) (Unit {0})
  remove_latest_checkpoint s =
      let (w, done) = b.remove_latest_checkpoint s.world in
      (if done then ok tt else err failed, record s { world = w })

  unfoldable pub commit_checkpoint : UtxoSpendingCheckpoint → Method (Store b) (Unit {0})
  unfolding if_consistent save_checkpoint spend_outputs_with_new_block_info remove_latest_checkpoint
  commit_checkpoint c =
      if_consistent
        (do save_checkpoint c; spend_outputs_with_new_block_info c; remove_latest_checkpoint)
