-- ===== src/Chainstate/Migration.antt =====
-- chainstatemigration/migration.go.
pub mod Placed
pub mod Stored
pub mod Grouped
pub mod Total
pub mod Batches
use bitcoin_utxo_indexer.Prelude.{
  ℕ, zero, suc, ◌+◌, ◌-◌, Bool, true, false, not, List, [], ◌∷◌, ◌++◌, Option, none, some, ◌==◌,
  if◌then◌else◌, ltb, length, set, get_elem?, replicate,
}
use bitcoin_utxo_indexer.Prelude.Str.{Str, str_eq, GoMap, insert}
use bitcoin_utxo_indexer.Utxo.Outcome.{Outcome, ok, err, panic, failed, or_panic, ◌>>=◌}
use bitcoin_utxo_indexer.Utxo.Types.{
  TransactionOutput, TransactionOutputs, Env, set_script_bytes, set_amount,
}
use bitcoin_utxo_indexer.Utxo.Block.{ℤ, pos, negsuc}
use bitcoin_utxo_indexer.Chainstate.Coin.{TxOut}

-- `PushElementToPlace` on a list of pointers, whose zero value is nil. The new list is made with
-- nothing but the element, and the old one is copied in front of it.
unfoldable pub push_element_to_place {ℓ} :
    {A : Type ℓ} → List (Option A) → Option A → ℤ → Outcome (List (Option A))
push_element_to_place list element (negsuc n) = err failed
push_element_to_place list element (pos place) =
    if ltb place (length list)
    then ok (set list place element)
    else (if length list == place
        then ok (list ++ (element ∷ []))
        else ok (list ++ (replicate (place - length list) none ++ (element ∷ []))))

abbrev zero_output : TransactionOutput
zero_output = record { compressed_script = []; compressed_amount = 0 }

module _ (env : Env) where
  pub convert_utxo : TxOut → Outcome TransactionOutput
  convert_utxo utxo = do
    converted ← or_panic (set_script_bytes env zero_output utxo.coin.out.pk_script)
    ok (set_amount converted utxo.coin.out.value)

  unfoldable pub convert_utxo_list_to_transaction_output_list :
      List (Option TxOut) → Outcome (List (Option TransactionOutput))
  unfolding convert_utxo
  convert_utxo_list_to_transaction_output_list [] = ok []
  convert_utxo_list_to_transaction_output_list (none ∷ utxos) = do
    outputs ← convert_utxo_list_to_transaction_output_list utxos
    ok (none ∷ outputs)
  convert_utxo_list_to_transaction_output_list (some utxo ∷ utxos) = do
    output ← convert_utxo utxo
    outputs ← convert_utxo_list_to_transaction_output_list utxos
    ok (some output ∷ outputs)

pub record TxOutputsEntry : Type 0 where
  pub tx_id : Str
  pub block_height : ℕ
  pub outputs : List (Option TransactionOutput)

-- The map that `updateUTXObatch` builds.
unfoldable pub new_batch : GoMap TransactionOutputs → List TxOutputsEntry → GoMap TransactionOutputs
new_batch batch [] = batch
new_batch batch (entry ∷ entries) =
    new_batch
      (insert batch entry.tx_id
        (record { block_height = entry.block_height; outputs = entry.outputs }))
      entries

-- The last element of a batch that is not empty.
unfoldable pub last_of {ℓ} : {A : Type ℓ} → A → List A → A
last_of a [] = a
last_of a (x ∷ xs) = last_of x xs

-- The variables of the loop of `Migrate`.
pub record Grouping : Type 0 where
  pub current_tx_id : Str
  pub utxo_by_tx_id : List (Option TxOut)
  pub utxo_batch : List TxOutputsEntry

module _ (env : Env) where
  -- The height is the last output's, which is dereferenced.
  unfoldable pub block_height_of : Option TxOut → Outcome ℕ
  block_height_of none = panic
  block_height_of (some utxo) = ok utxo.coin.block_height

  -- The entry of a transaction, if it has outputs.
  unfoldable pub group_entry : Str → List (Option TxOut) → Outcome (List TxOutputsEntry)
  group_entry tx_id [] = ok []
  group_entry tx_id (utxo ∷ utxos) = do
    outputs ← convert_utxo_list_to_transaction_output_list env (utxo ∷ utxos)
    height ← block_height_of (last_of utxo utxos)
    ok (record { tx_id = tx_id; block_height = height; outputs = outputs } ∷ [])

  -- An output of another transaction closes the group.
  unfoldable pub change_transaction : Bool → Grouping → TxOut → Outcome Grouping
  change_transaction true g utxo = ok g
  change_transaction false g utxo = do
    entries ← group_entry g.current_tx_id g.utxo_by_tx_id
    ok (record {
      current_tx_id = utxo.tx_id;
      utxo_by_tx_id = [];
      utxo_batch = g.utxo_batch ++ entries;
    })

  -- One round of the loop, up to the batch that is full.
  unfoldable pub take_utxo : Grouping → TxOut → Outcome Grouping
  unfolding change_transaction
  take_utxo g utxo = do
    g' ← change_transaction (str_eq g.current_tx_id utxo.tx_id) g utxo
    list ← push_element_to_place g'.utxo_by_tx_id (some utxo) (pos utxo.index)
    ok (record g' { utxo_by_tx_id = list })

  unfoldable pub take_utxos : Grouping → List TxOut → Outcome Grouping
  take_utxos g [] = ok g
  take_utxos g (utxo ∷ utxos) = do g' ← take_utxo g utxo; take_utxos g' utxos

  -- After the iterator's last output.
  unfoldable pub close_group : Grouping → Outcome (List TxOutputsEntry)
  close_group g = do
    entries ← group_entry g.current_tx_id g.utxo_by_tx_id
    ok (g.utxo_batch ++ entries)

  -- All the entries that are stored, batch after batch.
  unfoldable pub group_utxos : List TxOut → Outcome (List TxOutputsEntry)
  unfolding take_utxos close_group
  group_utxos utxos = do
    g ← take_utxos (record { current_tx_id = []; utxo_by_tx_id = []; utxo_batch = [] }) utxos
    close_group g
