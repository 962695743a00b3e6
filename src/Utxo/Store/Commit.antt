-- ===== src/Utxo/Store/Commit.antt =====
-- `CommitCheckpoint`: a block reaches the index whole or not at all.
use bitcoin_utxo_indexer.Prelude.{
  ◌≡◌, refl, ◌∙◌, ap, not, ◌&&◌, ◌||◌, inl, inr, List, [], ◌∷◌, Option, none, some, if◌then◌else◌,
  map, Bool-cases,
}
use bitcoin_utxo_indexer.Prelude.Str.{Str, str_eq_refl, GoMap, lookup, Distinct}
use bitcoin_utxo_indexer.Utxo.Types.{TransactionOutputs, is_all_spent}
use bitcoin_utxo_indexer.Utxo.Key.Distinct.{
  height_key, hash_key, tx_key, address_key, height_key-tx_key, hash_key-tx_key,
  height_key-hash_key, height_key-address_key, hash_key-address_key,
}
use bitcoin_utxo_indexer.Utxo.Checkpoint.{UtxoSpendingCheckpoint}
use bitcoin_utxo_indexer.Utxo.Backend.{
  Backend, Value, hash_value, height_value, outputs_value, Command, set_value, View, apply,
  apply_all,
}
use bitcoin_utxo_indexer.Utxo.Store.{outputs_command, transaction_commands}
use bitcoin_utxo_indexer.Utxo.Store.Effect.{
  apply_all-append, names, override, put_value, put_all, add_all, remove_all, put_all-values,
  put_all-sets, put_all-block, add_all-sets, remove_all-sets, add_all-values, remove_all-values,
}

-- What is stored for a transaction: nothing once all its outputs are spent.
abbrev pub stored : TransactionOutputs → Option Value
stored entry = if is_all_spent entry.outputs then none else some (outputs_value entry)

-- `v` is the index `d` after the block of `c`.
pub record IsApplied (ver : Str) (c : UtxoSpendingCheckpoint) (d v : View) : Type 0 where
  pub hash : v.values (hash_key ver) ≡ some (hash_value c.new_block.hash)
  pub height : v.values (height_key ver) ≡ some (height_value c.new_block.height)
  pub outputs :
      (t : Str)
      → v.values (tx_key ver t)
        ≡ override stored (lookup c.new_tx_outputs t) (d.values (tx_key ver t))
  pub members :
      (a x : Str)
      → v.sets (address_key ver a) x ≡ (
          not (names c.dereferenced_addresses_txs a x)
          && (names c.new_address_references a x || d.sets (address_key ver a) x))

outputs_command-put_value :
    (b : Backend) (ver k : Str) (entry : TransactionOutputs)
    → outputs_command b ver (k, entry) ≡ put_value (tx_key ver k) (stored entry)
unfolding outputs_command
outputs_command-put_value b ver k entry = elim (Bool-cases (is_all_spent entry.outputs)) [
  | inl gone ↦ rw gone
  | inr left ↦ rw left
]

map-outputs_command :
    (b : Backend) (ver : Str) (m : GoMap TransactionOutputs)
    → map (outputs_command b ver) m ≡ put_all ver stored m
map-outputs_command b ver [] = refl
map-outputs_command b ver ((k, e) ∷ m) = rw (outputs_command-put_value b ver k e) (
    ap (λ (r : List Command). put_value (tx_key ver k) (stored e) ∷ r)
      (map-outputs_command b ver m))

-- The view after the two writes of the block, after the outputs, and after both index updates.
abbrev block_view : Str → UtxoSpendingCheckpoint → View → View
block_view ver c d =
    apply (set_value (height_key ver) (height_value c.new_block.height))
      (apply (set_value (hash_key ver) (hash_value c.new_block.hash)) d)

transaction_commands-view :
    (b : Backend) (ver : Str) (c : UtxoSpendingCheckpoint) (d : View)
    → apply_all (transaction_commands b ver c) d
      ≡ apply_all (remove_all ver c.dereferenced_addresses_txs) (
          apply_all
            (add_all ver c.new_address_references)
            (apply_all (put_all ver stored c.new_tx_outputs) (block_view ver c d)))
unfolding transaction_commands apply_all
transaction_commands-view b ver c d =
    rw (map-outputs_command b ver c.new_tx_outputs, apply_all-append, apply_all-append) refl

-- The transaction of a checkpoint sets the block, replaces the entries of the transactions that it
-- names and deletes those that are all spent, adds and removes its references, and changes no other
-- transaction and no other reference.
pub transaction_commands-IsApplied :
    (b : Backend) (ver : Str) (c : UtxoSpendingCheckpoint) (d : View)
    → Distinct c.new_tx_outputs
    → IsApplied ver c d (apply_all (transaction_commands b ver c) d)
transaction_commands-IsApplied b ver c d h =
    let refs = c.new_address_references in
    let gone = c.dereferenced_addresses_txs in
    let v₀ = block_view ver c d in
    let v₁ = apply_all (put_all ver stored c.new_tx_outputs) v₀ in
    let v₂ = apply_all (add_all ver refs) v₁ in
    rw (transaction_commands-view b ver c d) (record {
      hash =
          ap (λ (f : Str → Option Value). f (hash_key ver)) (remove_all-values ver gone v₂)
          ∙ ap (λ (f : Str → Option Value). f (hash_key ver)) (add_all-values ver refs v₁)
          ∙ (put_all-block ver stored c.new_tx_outputs v₀).0
          ∙ rw (height_key-hash_key ver, str_eq_refl (hash_key ver)) refl;
      height =
          ap (λ (f : Str → Option Value). f (height_key ver)) (remove_all-values ver gone v₂)
          ∙ ap (λ (f : Str → Option Value). f (height_key ver)) (add_all-values ver refs v₁)
          ∙ (put_all-block ver stored c.new_tx_outputs v₀).1
          ∙ rw (str_eq_refl (height_key ver)) refl;
      outputs = λ t.
          ap (λ (f : Str → Option Value). f (tx_key ver t)) (remove_all-values ver gone v₂)
          ∙ ap (λ (f : Str → Option Value). f (tx_key ver t)) (add_all-values ver refs v₁)
          ∙ put_all-values ver stored c.new_tx_outputs t v₀ h
          ∙ rw (height_key-tx_key ver t, hash_key-tx_key ver t) refl;
      members = λ a x.
          remove_all-sets ver gone a x v₂
          ∙ rw
              (
                add_all-sets ver refs a x v₁,
                put_all-sets ver stored c.new_tx_outputs a x v₀,
                height_key-address_key ver a,
                hash_key-address_key ver a,
              )
              refl;
    })
