-- ===== src/Utxo/Store/Outputs.antt =====
-- utxostore/utxostore.go: what the methods that find, add and spend outputs outside a checkpoint
-- compute from what they read. Methods holds the methods.
pub mod Methods
pub mod Unspent
pub mod Entries
pub mod ByAddress
mod Tests
use bitcoin_utxo_indexer.Prelude.{
  ℕ, zero, suc, ◌+◌, ◌%◌, ◌^◌, Bool, true, false, not, List, [], ◌∷◌, ◌++◌, Option, none, some, ◌≡◌,
  if◌then◌else◌, map, length, ltb, set, get_elem?,
}
use bitcoin_utxo_indexer.Prelude.Str.{Str, GoMap, lookup, insert, contains}
use bitcoin_utxo_indexer.Utxo.Outcome.{
  Outcome, ok, err, panic, not_found, already_spent, failed, ◌>>=◌,
}
use bitcoin_utxo_indexer.Utxo.Method.{Method, pure, raise, for_each}
use bitcoin_utxo_indexer.Utxo.Method
use bitcoin_utxo_indexer.Utxo.Types.{
  TransactionOutput, TransactionOutputs, Env, is_all_spent, get_addresses,
}
use bitcoin_utxo_indexer.Utxo.Block.{ℤ, pos, negsuc}
use bitcoin_utxo_indexer.Utxo.Key.Distinct.{tx_key, address_key}
use bitcoin_utxo_indexer.Utxo.Backend.{
  Backend, Value, outputs_value, list_value, Command, set_value, delete, add_to_set,
}
use bitcoin_utxo_indexer.Utxo.Store.{
  Store, run_get, run_write, return_outcome, decoded, decode_outputs, if_consistent,
  get_address_utxo_transaction_ids, write_block_hash, write_block_height, delete_outputs,
  delete_address_tx_ids, add_address_tx_ids, write_transaction_outputs,
}

pub record UtxoEntry : Type 0 where
  pub tx_id : Str
  pub vout : ℕ
  pub output : TransactionOutput
  pub block_height : ℕ

unfoldable pub decode_list : Value → Option (List (Option TransactionOutput))
decode_list (list_value l) = some l
decode_list _ = none

-- What is unmarshalled into the variable that holds an empty entry.
unfoldable pub decode_entry : Option Value → Outcome TransactionOutputs
decode_entry none = ok (record { block_height = 0; outputs = [] })
decode_entry (some v) = elim (decode_outputs v) [ none ↦ err failed | some t ↦ ok t ]

unfoldable pub decode_entries :
    List Str → List (Option Value) → Outcome (List (Str × TransactionOutputs))
decode_entries (id ∷ ids) (v ∷ vs) = do
  t ← decode_entry v
  rest ← decode_entries ids vs
  ok ((id, t) ∷ rest)
decode_entries _ _ = ok []

module _ (env : Env) where
  unfoldable pub unspent_outputs :
      Str → Str → ℕ → ℕ → List (Option TransactionOutput) → Outcome (List UtxoEntry)
  unspent_outputs address id height vout [] = ok []
  unspent_outputs address id height vout (none ∷ outputs) =
      unspent_outputs address id height (suc vout) outputs
  unspent_outputs address id height vout (some output ∷ outputs) = do
    addresses ← get_addresses env output
    rest ← unspent_outputs address id height (suc vout) outputs
    ok (
        if contains addresses address
        then record { tx_id = id; vout = vout % 2 ^ 32; output = output; block_height = height }
          ∷ rest
        else rest)

  unfoldable pub all_unspent : Str → List (Str × TransactionOutputs) → Outcome (List UtxoEntry)
  all_unspent address [] = ok []
  all_unspent address ((id, t) ∷ entries) = do
    here ← unspent_outputs address id t.block_height 0 t.outputs
    rest ← all_unspent address entries
    ok (here ++ rest)

  unfoldable pub unspent_of :
      Str → List Str → Option (List (Option Value)) → Outcome (List UtxoEntry)
  unspent_of address ids none = err failed
  unspent_of address ids (some values) = do
    entries ← decode_entries ids values
    all_unspent address entries

  -- txIDsByAdddress of `createAddressUTXOTxIdIndex`.
  unfoldable pub index_addresses : Str → GoMap (List Str) → List Str → GoMap (List Str)
  index_addresses tx_id refs [] = refs
  index_addresses tx_id refs (address ∷ addresses) =
      index_addresses tx_id
        (elim (lookup refs address) [
          | none ↦ insert refs address (tx_id ∷ [])
          | some ids ↦ insert refs address (ids ++ (tx_id ∷ []))
        ])
        addresses

  unfoldable pub tx_ids_by_address :
      Str → GoMap (List Str) → List (Option TransactionOutput) → Outcome (GoMap (List Str))
  tx_ids_by_address tx_id refs [] = ok refs
  tx_ids_by_address tx_id refs (none ∷ outputs) = tx_ids_by_address tx_id refs outputs
  tx_ids_by_address tx_id refs (some output ∷ outputs) = do
    addresses ← get_addresses env output
    tx_ids_by_address tx_id (index_addresses tx_id refs addresses) outputs

  -- The addresses of the outputs that are left, `unspentTxOutputAddresses`.
  unfoldable pub unspent_addresses : List (Option TransactionOutput) → Outcome (List Str)
  unspent_addresses [] = ok []
  unspent_addresses (none ∷ outputs) = unspent_addresses outputs
  unspent_addresses (some output ∷ outputs) = do
    addresses ← get_addresses env output
    rest ← unspent_addresses outputs
    ok (addresses ++ rest)

  unfoldable pub not_among : List Str → List Str → List Str
  not_among left [] = []
  not_among left (address ∷ addresses) =
      let rest = not_among left addresses in if contains left address then rest else address ∷ rest

  unfoldable pub found_output :
      ℕ → Option (Option TransactionOutput) → Outcome (ℕ × TransactionOutput)
  found_output n none = err not_found
  found_output n (some none) = err already_spent
  found_output n (some (some output)) = ok (n, output)

  -- The entry at an index that may be out of range.
  unfoldable pub output_to_spend :
      List (Option TransactionOutput) → ℤ → Outcome (ℕ × TransactionOutput)
  unfolding found_output
  output_to_spend outputs (negsuc n) = err not_found
  output_to_spend outputs (pos n) = found_output n (get_elem? outputs n)

  -- `spendOutputFromList` up to its write: what is left, the addresses that are dereferenced, and
  -- what was spent.
  unfoldable pub spend_from_list :
      List (Option TransactionOutput)
      → ℤ
      → Outcome (List (Option TransactionOutput) × (List Str × TransactionOutput))
  spend_from_list outputs idx = do
    (n, spent) ← output_to_spend outputs idx
    left ← unspent_addresses (set outputs n none)
    addresses ← get_addresses env spent
    ok (set outputs n none, (not_among left addresses, spent))
