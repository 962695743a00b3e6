-- ===== src/Utxo/Store/Rollback/Commands.antt =====
-- `downCheckpoint` as the list of its writes, and what a list of writes leaves behind.
use bitcoin_utxo_indexer.Prelude.{
  ◌≡◌, refl, ◌∙◌, ap, sym, arith, inl, inr, List, [], ◌∷◌, ◌++◌, Option, none, some, Option-cases,
}
use bitcoin_utxo_indexer.Prelude.Str.{Str, str_eq_iff, GoMap, lookup, Distinct}
use bitcoin_utxo_indexer.Utxo.Outcome.{Outcome, ok, err, panic}
use bitcoin_utxo_indexer.Utxo.Method.{Method, crash, continue, for_each, ◌>>◌}
use bitcoin_utxo_indexer.Utxo.Types.{TransactionOutputs}
use bitcoin_utxo_indexer.Utxo.Checkpoint.{CheckpointBlock, UtxoSpendingCheckpoint}
use bitcoin_utxo_indexer.Utxo.Key.Distinct.{height_key, hash_key}
use bitcoin_utxo_indexer.Utxo.Backend.{
  Backend, Value, hash_value, height_value, outputs_value, Command, set_value,
}
use bitcoin_utxo_indexer.Utxo.Store.{
  Store, run_write, delete_address_tx_ids, add_address_tx_ids, delete_outputs,
  write_transaction_outputs, write_block_hash, write_block_height,
}
use bitcoin_utxo_indexer.Utxo.Store.Effect.{put_all, add_all, remove_all}
use bitcoin_utxo_indexer.Utxo.Store.Rollback.{down_from, down_checkpoint, down_new_outputs}

-- The entries of transactions that did not exist before.
unfoldable pub created :
    GoMap TransactionOutputs → GoMap TransactionOutputs → GoMap TransactionOutputs
created before [] = []
created before ((k, entry) ∷ m) =
    let rest = created before m in
    elim (lookup before k) [ none ↦ (k, entry) ∷ rest | some old ↦ rest ]

pub lookup-created :
    (before m : GoMap TransactionOutputs) (t : Str)
    → lookup (created before m) t ≡ elim (lookup before t) [ none ↦ lookup m t | some old ↦ none ]
unfolding created lookup
lookup-created before [] t = ground arith
lookup-created before ((k, entry) ∷ m) t = ground (arith, str_eq_iff k t, lookup-created before m t)

abbrev pub stored_outputs : TransactionOutputs → Option Value
stored_outputs entry = some (outputs_value entry)

abbrev pub gone : TransactionOutputs → Option Value
gone entry = none

module _ {ℓ} {S : Type ℓ} where
  continue-continue :
      (r : Outcome (Unit {0})) (k l : Method S (Unit {0})) (s : S)
      → continue (continue r (λ _. k) s).0 (λ _. l) (continue r (λ _. k) s).1
        ≡ continue r (λ _. k >> l) s
  continue-continue (ok u) k l s = refl
  continue-continue (err e) k l s = refl
  continue-continue panic k l s = refl

  pub then_assoc : (m k l : Method S (Unit {0})) → (m >> k) >> l ≡ m >> (k >> l)
  then_assoc m k l = λ i s. continue-continue (m s).0 k l (m s).1 i

  -- A loop over two lists is two loops.
  pub for_each-append {κ} :
      {A : Type κ} (xs ys : List A) (body : A → Method S (Unit {0}))
      → for_each (xs ++ ys) body ≡ for_each xs body >> for_each ys body
  unfolding for_each
  for_each-append [] ys body = refl
  for_each-append (x ∷ xs) ys body =
      ap (λ (k : Method S (Unit {0})). body x >> k) (for_each-append xs ys body)
      ∙ sym (then_assoc (body x) (for_each xs body) (for_each ys body))

module _ (b : Backend) (ver : Str) where
  abbrev pub run_all : List Command → Method (Store b) (Unit {0})
  run_all cs = for_each cs (run_write b ver)

  removals :
      (m : GoMap (List Str))
      → for_each m (λ e. delete_address_tx_ids b ver e.0 e.1) ≡ run_all (remove_all ver m)
  unfolding for_each delete_address_tx_ids
  removals [] = refl
  removals (e ∷ m) =
      ap (λ (k : Method (Store b) (Unit {0})). delete_address_tx_ids b ver e.0 e.1 >> k)
        (removals m)

  additions :
      (m : GoMap (List Str))
      → for_each m (λ e. add_address_tx_ids b ver e.0 e.1) ≡ run_all (add_all ver m)
  unfolding for_each add_address_tx_ids
  additions [] = refl
  additions (e ∷ m) =
      ap (λ (k : Method (Store b) (Unit {0})). add_address_tx_ids b ver e.0 e.1 >> k) (additions m)

  writes :
      (m : GoMap TransactionOutputs)
      → for_each m (λ e. write_transaction_outputs b ver e.0 e.1)
        ≡ run_all (put_all ver stored_outputs m)
  unfolding for_each write_transaction_outputs
  writes [] = refl
  writes (e ∷ m) =
      ap (λ (k : Method (Store b) (Unit {0})). write_transaction_outputs b ver e.0 e.1 >> k)
        (writes m)

  deletions :
      (c : UtxoSpendingCheckpoint) (m : GoMap TransactionOutputs)
      → for_each m (down_new_outputs b ver c)
        ≡ run_all (put_all ver gone (created c.txs_before_update m))
  unfolding for_each down_new_outputs delete_outputs created
  deletions c [] = refl
  deletions c ((k, entry) ∷ m) = elim (Option-cases (lookup c.txs_before_update k)) [
    | inl new ↦
        rw (down_new_outputs, created, new)
          (ap (λ (r : Method (Store b) (Unit {0})). delete_outputs b ver k >> r) (deletions c m))
    | inr (old, h) ↦ rw (down_new_outputs, created, h) (deletions c m)
  ]

  -- What `downCheckpoint` writes, in order.
  abbrev pub down_commands : UtxoSpendingCheckpoint → CheckpointBlock → List Command
  down_commands c previous =
      set_value (hash_key ver) (hash_value previous.hash)
      ∷ set_value (height_key ver) (height_value previous.height)
      ∷ (remove_all ver c.new_address_references
          ++ (add_all ver c.dereferenced_addresses_txs
              ++ (put_all ver gone (created c.txs_before_update c.new_tx_outputs)
                  ++ put_all ver stored_outputs c.txs_before_update)))

  down_from-run_all :
      (c : UtxoSpendingCheckpoint) (previous : CheckpointBlock)
      → down_from b ver c previous ≡ run_all (down_commands c previous)
  unfolding down_from write_block_hash write_block_height for_each
  down_from-run_all c previous =
      let rest = put_all ver stored_outputs c.txs_before_update in
      let deleted = put_all ver gone (created c.txs_before_update c.new_tx_outputs) in
      let added = add_all ver c.dereferenced_addresses_txs in
      let removed = remove_all ver c.new_address_references in
      rw
        (
          removals c.new_address_references,
          additions c.dereferenced_addresses_txs,
          deletions c c.new_tx_outputs,
          writes c.txs_before_update,
          for_each-append removed (added ++ (deleted ++ rest)) (run_write b ver),
          for_each-append added (deleted ++ rest) (run_write b ver),
          for_each-append deleted rest (run_write b ver),
        )
        refl

  pub down_checkpoint-run_all :
      (c : UtxoSpendingCheckpoint) (previous : CheckpointBlock)
      → c.prev_block ≡ some previous
      → down_checkpoint b ver c ≡ run_all (down_commands c previous)
  unfolding down_checkpoint
  down_checkpoint-run_all c previous e =
      ap
        (λ (o : Option CheckpointBlock). elim o as (λ _. Method (Store b) (Unit {0})) [
          | none ↦ crash
          | some p ↦ down_from b ver c p
        ])
        e
      ∙ down_from-run_all c previous

pub created-Distinct :
    (before m : GoMap TransactionOutputs) → Distinct m → Distinct (created before m)
unfolding created
created-Distinct before [] h = tt
created-Distinct before ((k, entry) ∷ m) (fresh, h) = elim (Option-cases (lookup before k)) [
  | inl new ↦
      rw (created, new) (rw (lookup-created before m k, new) fresh, created-Distinct before m h)
  | inr (old, e) ↦ rw (created, e) (created-Distinct before m h)
]
