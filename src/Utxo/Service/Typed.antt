-- ===== src/Utxo/Service/Typed.antt =====
-- Under every key of the index stands a value of the type that the readers of the key decode.
use bitcoin_utxo_indexer.Prelude.{
  ℕ, ◌≡◌, refl, Bool, true, false, if◌then◌else◌, ◌⊎◌, inl, inr, Bool-cases, Option, none, some,
}
use bitcoin_utxo_indexer.Prelude.Str.{Str, Distinct, lookup}
use bitcoin_utxo_indexer.Utxo.Outcome.{Outcome, ok, err, panic}
use bitcoin_utxo_indexer.Utxo.Method.{continue}
use bitcoin_utxo_indexer.Utxo.Types.{TransactionOutputs, is_all_spent}
use bitcoin_utxo_indexer.Utxo.Key.Distinct.{hash_key, height_key, tx_key}
use bitcoin_utxo_indexer.Utxo.Checkpoint.{CheckpointBlock, UtxoSpendingCheckpoint}
use bitcoin_utxo_indexer.Utxo.Backend.{
  Backend, IsBackend, View, Value, hash_value, height_value, outputs_value, list_value,
}
use bitcoin_utxo_indexer.Utxo.Store.{Store, commit_checkpoint}
use bitcoin_utxo_indexer.Utxo.Store.Effect.{override}
use bitcoin_utxo_indexer.Utxo.Store.Commit.{IsApplied, transaction_commands-IsApplied, stored}
use bitcoin_utxo_indexer.Utxo.Store.Atomic.{
  CommitResult, committed, not_saved, undecided, not_removed, commit_checkpoint-CommitResult,
  commit_checkpoint-refused,
}
use bitcoin_utxo_indexer.Utxo.Block.{BlockEnv, Block}
use bitcoin_utxo_indexer.Utxo.Service.{
  first_checkpoint, new_checkpoint_from_next_block, already_stored, add_from_block,
}
use bitcoin_utxo_indexer.Utxo.Service.Reading.{new_checkpoint_from_next_block-Reads}
use bitcoin_utxo_indexer.Utxo.Service.Taken.{Taken, new_checkpoint_from_next_block-Taken}
use bitcoin_utxo_indexer.Utxo.Service.Added.{already_stored-ok}

-- No value, or one of the type.
abbrev pub IsHash : Option Value → Type 0
IsHash none = Unit
IsHash (some (hash_value hash)) = Unit
IsHash (some (height_value height)) = ⊥
IsHash (some (outputs_value entry)) = ⊥
IsHash (some (list_value outputs)) = ⊥

abbrev pub IsHeight : Option Value → Type 0
IsHeight none = Unit
IsHeight (some (hash_value hash)) = ⊥
IsHeight (some (height_value height)) = Unit
IsHeight (some (outputs_value entry)) = ⊥
IsHeight (some (list_value outputs)) = ⊥

abbrev pub IsEntry : Option Value → Type 0
IsEntry none = Unit
IsEntry (some (hash_value hash)) = ⊥
IsEntry (some (height_value height)) = ⊥
IsEntry (some (outputs_value entry)) = Unit
IsEntry (some (list_value outputs)) = ⊥

pub record IsTyped (ver : Str) (v : View) : Type 0 where
  pub hash : IsHash (v.values (hash_key ver))
  pub height : IsHeight (v.values (height_key ver))
  pub entries : (t : Str) → IsEntry (v.values (tx_key ver t))

if-IsEntry :
    (gone : Bool) (entry : TransactionOutputs)
    → IsEntry (if gone then none else some (outputs_value entry))
if-IsEntry true entry = tt
if-IsEntry false entry = tt

override-IsEntry :
    (o : Option TransactionOutputs) (old : Option Value)
    → IsEntry old
    → IsEntry (override stored o old)
override-IsEntry none old h = h
override-IsEntry (some entry) old h = if-IsEntry (is_all_spent entry.outputs) entry

applied-IsTyped :
    (ver : Str) (c : UtxoSpendingCheckpoint) (d v : View)
    → IsApplied ver c d v
    → IsTyped ver d
    → IsTyped ver v
applied-IsTyped ver c d v made typed = record {
  hash = rw made.hash tt;
  height = rw made.height tt;
  entries =
      λ t. rw (made.outputs t) (override-IsEntry (lookup c.new_tx_outputs t) _ (typed.entries t));
}

module _ (b : Backend) (laws : IsBackend b) (ver : Str) where
  result-IsTyped :
      (before after : View) (c : UtxoSpendingCheckpoint) (r : Outcome (Unit {0})) (s : Store b)
      → CommitResult b laws before after c r s
      → IsTyped ver before
      → IsTyped ver after
      → IsTyped ver (laws.view s.world)
  result-IsTyped before after c r s (committed _ view _ _) h k = rw view k
  result-IsTyped before after c r s (not_saved _ view _) h k = rw view h
  result-IsTyped before after c r s (undecided _ (inl view) _ _) h k = rw view h
  result-IsTyped before after c r s (undecided _ (inr view) _ _) h k = rw view k
  result-IsTyped before after c r s (not_removed _ view _) h k = rw view k

  commit_checkpoint-IsTyped :
      (c : UtxoSpendingCheckpoint) (s : Store b)
      → Distinct c.new_tx_outputs
      → IsTyped ver (laws.view s.world)
      → IsTyped ver (laws.view (commit_checkpoint b ver c s).1.world)
  commit_checkpoint-IsTyped c s distinct typed = elim (Bool-cases s.is_consist) [
    | inl open_ ↦
        result-IsTyped (laws.view s.world) _ c _ _
          (commit_checkpoint-CommitResult b laws ver c s open_) typed
          (applied-IsTyped ver c (laws.view s.world) _
            (transaction_commands-IsApplied b ver c (laws.view s.world) distinct) typed)
    | inr shut ↦ rw (commit_checkpoint-refused b laws ver c s shut) typed
  ]

module _ (b : Backend) (laws : IsBackend b) (ver : Str) (env : BlockEnv) (decimals : ℕ)
    (block : Block env) where
  checkpoint_distinct :
      (v : View) (c : UtxoSpendingCheckpoint)
      → ((c ≡ first_checkpoint b ver env decimals block) × (v.values (hash_key ver) ≡ none))
        ⊎ ((previous : CheckpointBlock) × Taken ver v env decimals block c previous)
      → Distinct c.new_tx_outputs
  unfolding first_checkpoint
  checkpoint_distinct v c (inl (first, empty)) = rw first tt
  checkpoint_distinct v c (inr (previous, t)) = t.distinct_new

  committed-IsTyped :
      (r : Outcome UtxoSpendingCheckpoint) (s : Store b)
      → ((c : UtxoSpendingCheckpoint) → r ≡ ok c → Distinct c.new_tx_outputs)
      → IsTyped ver (laws.view s.world)
      → IsTyped ver (laws.view (continue r (commit_checkpoint b ver) s).1.world)
  committed-IsTyped (ok c) s distinct typed =
      commit_checkpoint-IsTyped b laws ver c s (distinct c refl) typed
  committed-IsTyped (err e) s distinct typed = typed
  committed-IsTyped panic s distinct typed = typed

  -- However `AddFromBlock` ends, a database in which the values under the keys of the hash, of the
  -- height and of the transactions have the types that their readers decode remains one.
  pub add_from_block-IsTyped :
      (s : Store b)
      → IsTyped ver (laws.view s.world)
      → IsTyped ver (laws.view (add_from_block b ver env decimals block s).1.world)
  unfolding add_from_block
  add_from_block-IsTyped s typed =
      let r = new_checkpoint_from_next_block b ver env decimals block s in
      let kept = (new_checkpoint_from_next_block-Reads b laws ver env decimals block).view s in
      committed-IsTyped (already_stored b ver env decimals r.0) r.1
        (λ c e. checkpoint_distinct (laws.view s.world) c (
          new_checkpoint_from_next_block-Taken b laws ver env decimals block s c
            (already_stored-ok b laws ver env decimals block r.0 c e)))
        (rw (← kept) at typed)
