-- ===== src/Utxo/Service/Checkpoints.antt =====
-- What the checkpoint of a block says of the index it was taken on.
use bitcoin_utxo_indexer.Prelude.{
  ℕ, ◌≡◌, refl, ◌∙◌, sym, inl, inr, List, [], ◌∷◌, Option, none, some, Bool-cases,
}
use bitcoin_utxo_indexer.Prelude.Str.{
  Str, str_eq, str_eq_iff, GoMap, lookup, insert, lookup-insert, Distinct, insert-Distinct,
  contains,
}
use bitcoin_utxo_indexer.Utxo.Outcome.{
  Outcome, ok, err, panic, not_found, already_spent, block_hash_not_found, inconsistence_state,
  no_diff, next_block_too_far, spending_output_not_found, block_already_stored, failed,
}
use bitcoin_utxo_indexer.Utxo.Types.{TransactionOutputs}
use bitcoin_utxo_indexer.Utxo.Key.Distinct.{tx_key}
use bitcoin_utxo_indexer.Utxo.Backend.{Backend, IsBackend, View, outputs_value}
use bitcoin_utxo_indexer.Utxo.Store.{Store, get_outputs_by_tx_id}
use bitcoin_utxo_indexer.Utxo.Store.Reads.{
  Reads, pure-Reads, bind-Reads, continue-ok, get_outputs-Reads, get_outputs-reads,
}
use bitcoin_utxo_indexer.Utxo.Block.{BlockEnv, SpendingOutput, Transaction}
use bitcoin_utxo_indexer.Utxo.Service.{
  keep_found, extract_input, extract_inputs, extract_transactions,
}

-- The entries of `m` are those that stand in the index under their transactions.
pub record Found (ver : Str) (v : View) (m : GoMap TransactionOutputs) : Type 0 where
  pub entries :
      (t : Str) (entry : TransactionOutputs)
      → lookup m t ≡ some entry
      → v.values (tx_key ver t) ≡ some (outputs_value entry)
  pub distinct : Distinct m

insert-Found :
    (ver : Str) (v : View) (m : GoMap TransactionOutputs) (t : Str) (entry : TransactionOutputs)
    → v.values (tx_key ver t) ≡ some (outputs_value entry)
    → Found ver v m
    → Found ver v (insert m t entry)
insert-Found ver v m t entry h f = record {
  entries = λ k e found. elim (Bool-cases (str_eq t k)) [
    | inl same ↦
        let is_e : some entry ≡ some e = rw (lookup-insert m t k entry, same) at found in
        rw (sym ((str_eq_iff t k).0 same)) (h ∙ cc)
    | inr other ↦ f.entries k e (rw (lookup-insert m t k entry, other) at found)
  ];
  distinct = insert-Distinct m t entry f.distinct;
}

module _ (b : Backend) (laws : IsBackend b) (ver : Str) (env : BlockEnv) (decimals : ℕ) where
  abbrev View_of : Store b → View
  View_of s = laws.view s.world

  keep_found-Found :
      (v : View) (current : List Str) (m m' : GoMap TransactionOutputs) (t : Str)
      (r : Outcome TransactionOutputs)
      → ((entry : TransactionOutputs)
          → r ≡ ok entry
          → v.values (tx_key ver t) ≡ some (outputs_value entry))
      → Found ver v m
      → keep_found b ver env decimals current m t r ≡ ok m'
      → Found ver v m'
  unfolding keep_found
  keep_found-Found v current m m' t (ok entry) reads f h =
      let same : insert m t entry ≡ m' = cc in
      rw (sym same) (insert-Found ver v m t entry (reads entry refl) f)
  keep_found-Found v current m m' t (err not_found) reads f h =
      elim (Bool-cases (contains current t)) [
        | inl own ↦
            let kept : ok m ≡ ok m' = rw own at h in let same : m ≡ m' = cc in rw (sym same) f
        | inr other ↦ absurd (let h' : err not_found ≡ ok m' = rw other at h in cc)
      ]
  keep_found-Found v current m m' t (err already_spent) reads f h = absurd cc
  keep_found-Found v current m m' t (err block_hash_not_found) reads f h = absurd cc
  keep_found-Found v current m m' t (err inconsistence_state) reads f h = absurd cc
  keep_found-Found v current m m' t (err no_diff) reads f h = absurd cc
  keep_found-Found v current m m' t (err next_block_too_far) reads f h = absurd cc
  keep_found-Found v current m m' t (err spending_output_not_found) reads f h = absurd cc
  keep_found-Found v current m m' t (err block_already_stored) reads f h = absurd cc
  keep_found-Found v current m m' t (err failed) reads f h = absurd cc
  keep_found-Found v current m m' t panic reads f h = absurd cc

  extract_input-Reads :
      (current : List Str) (m : GoMap TransactionOutputs) (input : Option SpendingOutput)
      → Reads b laws (extract_input b ver env decimals current m input)
  unfolding extract_input
  extract_input-Reads current m none = record {
    view = λ s. refl;
    file = λ s. refl;
    is_consist = λ s. refl;
  }
  extract_input-Reads current m (some input) =
      let r = get_outputs-Reads b laws ver input.tx_id in
      record { view = λ s. r.view s; file = λ s. r.file s; is_consist = λ s. r.is_consist s }

  extract_input-Found :
      (current : List Str) (m m' : GoMap TransactionOutputs) (input : Option SpendingOutput)
      (s : Store b)
      → Found ver (View_of s) m
      → (extract_input b ver env decimals current m input s).0 ≡ ok m'
      → Found ver (View_of s) m'
  unfolding extract_input
  extract_input-Found current m m' none s f h = let same : m ≡ m' = cc in rw (sym same) f
  extract_input-Found current m m' (some input) s f h =
      keep_found-Found (View_of s) current m m' input.tx_id
        (get_outputs_by_tx_id b ver input.tx_id s).0
        (λ entry. get_outputs-reads b laws ver s input.tx_id entry) f h

  extract_inputs-Reads :
      (current : List Str) (m : GoMap TransactionOutputs) (inputs : List (Option SpendingOutput))
      → Reads b laws (extract_inputs b ver env decimals current m inputs)
  unfolding extract_inputs
  extract_inputs-Reads current m [] = pure-Reads b laws m
  extract_inputs-Reads current m (input ∷ inputs) =
      bind-Reads b laws _ _ (extract_input-Reads current m input)
        (λ m'. extract_inputs-Reads current m' inputs)

  extract_inputs-Found :
      (current : List Str) (m m' : GoMap TransactionOutputs) (inputs : List (Option SpendingOutput))
      (s : Store b)
      → Found ver (View_of s) m
      → (extract_inputs b ver env decimals current m inputs s).0 ≡ ok m'
      → Found ver (View_of s) m'
  unfolding extract_inputs
  extract_inputs-Found current m m' [] s f h = let same : m ≡ m' = cc in rw (sym same) f
  extract_inputs-Found current m m' (input ∷ inputs) s f h =
      let first = extract_input b ver env decimals current m input in
      let kept = (extract_input-Reads current m input).view s in
      let (m₁, read, rest) =
        continue-ok b laws (first s).0 (λ k. extract_inputs b ver env decimals current k inputs)
          (first s).1 m' h in
      let next =
        extract_inputs-Found current m₁ m' inputs (first s).1
          (rw kept (extract_input-Found current m m₁ input s f read)) rest in
      rw (sym kept) next

  pub extract_transactions-Reads :
      (current : List Str) (m : GoMap TransactionOutputs) (txs : List (Transaction env))
      → Reads b laws (extract_transactions b ver env decimals current m txs)
  unfolding extract_transactions
  extract_transactions-Reads current m [] = pure-Reads b laws m
  extract_transactions-Reads current m (tx ∷ txs) =
      bind-Reads b laws _ _ (extract_inputs-Reads (tx.id ∷ current) m tx.vin)
        (λ m'. extract_transactions-Reads (tx.id ∷ current) m' txs)

  pub extract_transactions-Found :
      (current : List Str) (m m' : GoMap TransactionOutputs) (txs : List (Transaction env))
      (s : Store b)
      → Found ver (View_of s) m
      → (extract_transactions b ver env decimals current m txs s).0 ≡ ok m'
      → Found ver (View_of s) m'
  unfolding extract_transactions
  extract_transactions-Found current m m' [] s f h = let same : m ≡ m' = cc in rw (sym same) f
  extract_transactions-Found current m m' (tx ∷ txs) s f h =
      let first = extract_inputs b ver env decimals (tx.id ∷ current) m tx.vin in
      let kept = (extract_inputs-Reads (tx.id ∷ current) m tx.vin).view s in
      let (m₁, read, rest) =
        continue-ok b laws (first s).0
          (λ k. extract_transactions b ver env decimals (tx.id ∷ current) k txs) (first s).1 m' h in
      let next =
        extract_transactions-Found (tx.id ∷ current) m₁ m' txs (first s).1
          (rw kept (extract_inputs-Found (tx.id ∷ current) m m₁ tx.vin s f read)) rest in
      rw (sym kept) next
