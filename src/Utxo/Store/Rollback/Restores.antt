-- ===== src/Utxo/Store/Rollback/Restores.antt =====
-- `downCheckpoint` restores the index before the checkpoint, from whatever an interrupted commit or an
-- interrupted rollback has left.
use bitcoin_utxo_indexer.Prelude.{
  ◌≡◌, refl, ◌∙◌, ap, sym, arith, Bool, true, false, ◌||◌, inl, inr, List, [], ◌∷◌, Option, none,
  some, Option-cases, All, All-append,
}
use bitcoin_utxo_indexer.Prelude.Str.{Str, str_eq_refl, GoMap, lookup, Distinct}
use bitcoin_utxo_indexer.Utxo.Outcome.{ok}
use bitcoin_utxo_indexer.Utxo.Types.{TransactionOutputs}
use bitcoin_utxo_indexer.Utxo.Key.Distinct.{
  height_key, hash_key, tx_key, address_key, height_key-tx_key, hash_key-tx_key,
  height_key-hash_key, height_key-address_key, hash_key-address_key, address_key-address_key,
}
use bitcoin_utxo_indexer.Utxo.Checkpoint.{CheckpointBlock, UtxoSpendingCheckpoint}
use bitcoin_utxo_indexer.Utxo.Backend.{
  Backend, IsBackend, Value, hash_value, height_value, outputs_value, Command, set_value, View,
  apply, apply_all,
}
use bitcoin_utxo_indexer.Utxo.Store.{Store}
use bitcoin_utxo_indexer.Utxo.Store.Effect.{
  apply_all-append, names, override, put_all, add_all, remove_all, put_all-values, put_all-sets,
  put_all-block, add_all-sets, remove_all-sets, add_all-values, remove_all-values, put_value-values,
  put_value-sets,
}
use bitcoin_utxo_indexer.Utxo.Store.Commit.{IsApplied}
use bitcoin_utxo_indexer.Utxo.Store.Rollback.{down_checkpoint}
use bitcoin_utxo_indexer.Utxo.Store.Rollback.Commands.{
  created, lookup-created, created-Distinct, stored_outputs, gone, run_all, down_commands,
  down_checkpoint-run_all,
}
use bitcoin_utxo_indexer.Utxo.Store.Rollback.Writes.{run_all-succeeds, run_all-done, run_all-keeps}

-- `c` is a checkpoint taken on the index `d`, whose block is `previous`: its entries from before are
-- those of `d`, what it creates is not in `d`, and what it dereferences is.
pub record Describes (ver : Str) (c : UtxoSpendingCheckpoint) (previous : CheckpointBlock)
    (d : View) : Type 0 where
  pub previous_block : c.prev_block ≡ some previous
  pub hash : d.values (hash_key ver) ≡ some (hash_value previous.hash)
  pub height : d.values (height_key ver) ≡ some (height_value previous.height)
  pub before :
      (t : Str) (entry : TransactionOutputs)
      → lookup c.txs_before_update t ≡ some entry
      → d.values (tx_key ver t) ≡ some (outputs_value entry)
  pub absent :
      (t : Str) (entry : TransactionOutputs)
      → lookup c.txs_before_update t ≡ none
      → lookup c.new_tx_outputs t ≡ some entry
      → d.values (tx_key ver t) ≡ none
  pub referenced :
      (a x : Str)
      → names c.dereferenced_addresses_txs a x ≡ true
      → d.sets (address_key ver a) x ≡ true
  pub fresh :
      (a x : Str) → names c.new_address_references a x ≡ true → d.sets (address_key ver a) x ≡ false
  pub distinct_before : Distinct c.txs_before_update
  pub distinct_new : Distinct c.new_tx_outputs

-- `v` differs from `d` at most in the block and in what the checkpoint names.
pub record Between (ver : Str) (c : UtxoSpendingCheckpoint) (d v : View) : Type 0 where
  pub outputs :
      (t : Str)
      → lookup c.new_tx_outputs t ≡ none
      → lookup c.txs_before_update t ≡ none
      → v.values (tx_key ver t) ≡ d.values (tx_key ver t)
  pub members :
      (a x : Str)
      → names c.new_address_references a x ≡ false
      → names c.dereferenced_addresses_txs a x ≡ false
      → v.sets (address_key ver a) x ≡ d.sets (address_key ver a) x

-- The two views hold the same index.
pub record SameIndex (ver : Str) (d v : View) : Type 0 where
  pub hash : v.values (hash_key ver) ≡ d.values (hash_key ver)
  pub height : v.values (height_key ver) ≡ d.values (height_key ver)
  pub outputs : (t : Str) → v.values (tx_key ver t) ≡ d.values (tx_key ver t)
  pub members : (a x : Str) → v.sets (address_key ver a) x ≡ d.sets (address_key ver a) x

module _ (ver : Str) (c : UtxoSpendingCheckpoint) (d : View) where
  pub IsApplied-Between : (v : View) → IsApplied ver c d v → Between ver c d v
  IsApplied-Between v h = record {
    outputs = λ t new before. h.outputs t ∙ rw new refl;
    members = λ a x new old. h.members a x ∙ rw (new, old) refl;
  }

  abbrev Keeps : Command → Type 0
  Keeps cmd = (v : View) → Between ver c d v → Between ver c d (apply cmd v)

  set_block-Keeps :
      (h : Value) → Keeps (set_value (hash_key ver) h) × Keeps (set_value (height_key ver) h)
  set_block-Keeps h = (
    λ v p. record {
      outputs = λ t new before. rw (hash_key-tx_key ver t) (p.outputs t new before);
      members = λ a x new old. rw (hash_key-address_key ver a) (p.members a x new old);
    },
    λ v p. record {
      outputs = λ t new before. rw (height_key-tx_key ver t) (p.outputs t new before);
      members = λ a x new old. rw (height_key-address_key ver a) (p.members a x new old);
    },
  )

  -- Only what the checkpoint names is in `m`.
  abbrev IsNamed : GoMap (List Str) → Type 0
  IsNamed m =
      (a x : Str)
      → names c.new_address_references a x ≡ false
      → names c.dereferenced_addresses_txs a x ≡ false
      → names m a x ≡ false

  remove_all-Keeps : (m : GoMap (List Str)) → IsNamed m → All Keeps (remove_all ver m)
  remove_all-Keeps [] h = tt
  remove_all-Keeps ((k, ids) ∷ m) h = (
    λ v p. record {
      outputs = p.outputs;
      members = λ a x new old.
          rw (address_key-address_key ver k a)
            (ground (arith, h a x new old, p.members a x new old));
    },
    remove_all-Keeps m (λ a x new old. ground (arith, h a x new old)),
  )

  add_all-Keeps : (m : GoMap (List Str)) → IsNamed m → All Keeps (add_all ver m)
  add_all-Keeps [] h = tt
  add_all-Keeps ((k, ids) ∷ m) h = (
    λ v p. record {
      outputs = p.outputs;
      members = λ a x new old.
          rw (address_key-address_key ver k a)
            (ground (arith, h a x new old, p.members a x new old));
    },
    add_all-Keeps m (λ a x new old. ground (arith, h a x new old)),
  )

  put_all-Keeps :
      (f : TransactionOutputs → Option Value) (m : GoMap TransactionOutputs)
      → ((t : Str)
          → lookup c.new_tx_outputs t ≡ none
          → lookup c.txs_before_update t ≡ none
          → lookup m t ≡ none)
      → All Keeps (put_all ver f m)
  unfolding lookup
  put_all-Keeps f [] h = tt
  put_all-Keeps f ((k, e) ∷ m) h = (
    λ v p. record {
      outputs = λ t new before.
          put_value-values ver k t (f e) v ∙ ground (arith, h t new before, p.outputs t new before);
      members = λ a x new old. put_value-sets ver k a x (f e) v ∙ p.members a x new old;
    },
    put_all-Keeps f m (λ t new before. ground (arith, h t new before)),
  )

  down_commands-Keeps :
      (b : Backend) (previous : CheckpointBlock) → All Keeps (down_commands b ver c previous)
  unfolding lookup
  down_commands-Keeps b previous = (
    (set_block-Keeps (hash_value previous.hash)).0,
    (
      (set_block-Keeps (height_value previous.height)).1,
      All-append _ _ _ (remove_all-Keeps c.new_address_references (λ a x new old. new)) (
          All-append _ _ _ (add_all-Keeps c.dereferenced_addresses_txs (λ a x new old. old)) (
            All-append _ _ _
              (put_all-Keeps gone (created c.txs_before_update c.new_tx_outputs) (λ t new before.
                lookup-created c.txs_before_update c.new_tx_outputs t ∙ rw (before, new) refl))
              (put_all-Keeps stored_outputs c.txs_before_update (λ t new before. before)))),
    ),
  )

  module _ (previous : CheckpointBlock) (h : Describes ver c previous d) where
    restored_entry :
        (t : Str) (old : Option Value)
        → (lookup c.new_tx_outputs t ≡ none
            → lookup c.txs_before_update t ≡ none
            → old ≡ d.values (tx_key ver t))
        → override stored_outputs
            (lookup c.txs_before_update t)
            (override gone (lookup (created c.txs_before_update c.new_tx_outputs) t) old)
          ≡ d.values (tx_key ver t)
    restored_entry t old same =
        rw (lookup-created c.txs_before_update c.new_tx_outputs t)
          (elim (Option-cases (lookup c.txs_before_update t)) [
            | inr (entry, e) ↦ rw e (sym (h.before t entry e))
            | inl none_before ↦ elim (Option-cases (lookup c.new_tx_outputs t)) [
              | inl none_new ↦ rw (none_before, none_new) (same none_new none_before)
              | inr (entry, e) ↦ rw (none_before, e) (sym (h.absent t entry none_before e))
            ]
          ])

    -- All the writes together give the index `d` back.
    down_commands-SameIndex :
        (b : Backend) (v : View)
        → Between ver c d v
        → SameIndex ver d (apply_all (down_commands b ver c previous) v)
    unfolding apply_all
    down_commands-SameIndex b v p =
        let deleted = created c.txs_before_update c.new_tx_outputs in
        let v₀ =
          apply (set_value (height_key ver) (height_value previous.height))
            (apply (set_value (hash_key ver) (hash_value previous.hash)) v) in
        let v₁ = apply_all (remove_all ver c.new_address_references) v₀ in
        let v₂ = apply_all (add_all ver c.dereferenced_addresses_txs) v₁ in
        let v₃ = apply_all (put_all ver gone deleted) v₂ in
        let kept : v₂.values ≡ v₀.values =
          add_all-values ver c.dereferenced_addresses_txs v₁
          ∙ remove_all-values ver c.new_address_references v₀ in
        rw (apply_all-append, apply_all-append, apply_all-append)
          (record {
            hash =
                (put_all-block ver stored_outputs c.txs_before_update v₃).0
                ∙ (put_all-block ver gone deleted v₂).0
                ∙ ap (λ (f : Str → Option Value). f (hash_key ver)) kept
                ∙ rw (height_key-hash_key ver, str_eq_refl (hash_key ver)) (sym h.hash);
            height =
                (put_all-block ver stored_outputs c.txs_before_update v₃).1
                ∙ (put_all-block ver gone deleted v₂).1
                ∙ ap (λ (f : Str → Option Value). f (height_key ver)) kept
                ∙ rw (str_eq_refl (height_key ver)) (sym h.height);
            outputs = λ t.
                put_all-values ver stored_outputs c.txs_before_update t v₃ h.distinct_before
                ∙ ap (override stored_outputs (lookup c.txs_before_update t)) (
                    put_all-values ver gone deleted t v₂
                      (created-Distinct c.txs_before_update c.new_tx_outputs h.distinct_new))
                ∙ restored_entry t (v₂.values (tx_key ver t)) (λ new before.
                  ap (λ (f : Str → Option Value). f (tx_key ver t)) kept
                  ∙ rw (height_key-tx_key ver t, hash_key-tx_key ver t) (p.outputs t new before));
            members = λ a x.
                put_all-sets ver stored_outputs c.txs_before_update a x v₃
                ∙ put_all-sets ver gone deleted a x v₂
                ∙ add_all-sets ver c.dereferenced_addresses_txs a x v₁
                ∙ ap (λ (m : Bool). names c.dereferenced_addresses_txs a x || m)
                    (remove_all-sets ver c.new_address_references a x v₀)
                ∙ rw (height_key-address_key ver a, hash_key-address_key ver a)
                    (ground (arith, h.referenced a x, h.fresh a x, p.members a x));
          })

    module _ (b : Backend) (laws : IsBackend b) where
      -- A rollback of the checkpoint, however it ends, leaves a view that differs from the old index at
      -- most in what the checkpoint names, so that it can be tried again.
      pub down_checkpoint-Between :
          (s : Store b)
          → Between ver c d (laws.view s.world)
          → Between ver c d (laws.view (down_checkpoint b ver c s).1.world)
      down_checkpoint-Between s p = rw (down_checkpoint-run_all b ver c previous h.previous_block) (
          run_all-keeps b ver laws (Between ver c d) (down_commands b ver c previous)
            (down_commands-Keeps b previous) s p)

      -- A rollback that ends without an error restores the index.
      pub down_checkpoint-SameIndex :
          (s : Store b)
          → Between ver c d (laws.view s.world)
          → (down_checkpoint b ver c s).0 ≡ ok tt
          → SameIndex ver d (laws.view (down_checkpoint b ver c s).1.world)
      down_checkpoint-SameIndex s p done =
          let cs = down_commands b ver c previous in
          let ended : (run_all b ver cs s).0 ≡ ok tt =
            rw (down_checkpoint-run_all b ver c previous h.previous_block) at done in
          rw (down_checkpoint-run_all b ver c previous h.previous_block) (
            rw (run_all-done b ver laws cs s ended)
              (down_commands-SameIndex b (laws.view s.world) p))

      -- From any partly applied state, a rollback whose writes succeed ends without an error and has
      -- restored the index.
      pub down_checkpoint-restores :
          ((w : b.World) (cmd : Command) → (b.write w cmd).1 ≡ true)
          → (s : Store b) → Between ver c d (laws.view s.world)
          → ((down_checkpoint b ver c s).0 ≡ ok tt)
            × SameIndex ver d (laws.view (down_checkpoint b ver c s).1.world)
      down_checkpoint-restores works s p =
          let ended : (down_checkpoint b ver c s).0 ≡ ok tt =
            rw (down_checkpoint-run_all b ver c previous h.previous_block)
              (run_all-succeeds b ver works (down_commands b ver c previous) s) in
          (ended, down_checkpoint-SameIndex s p ended)
