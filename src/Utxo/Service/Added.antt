-- ===== src/Utxo/Service/Added.antt =====
-- `AddFromBlock` as a whole: what is in the store when it returns.
use bitcoin_utxo_indexer.Prelude.{
  ℕ, ◌≡◌, refl, ap, ◌∙◌, sym, true, false, ◌⊎◌, inl, inr, ==_iff, Bool-cases, none, some, [],
}
use bitcoin_utxo_indexer.Prelude.Str.{Str, Distinct}
use bitcoin_utxo_indexer.Utxo.Outcome.{
  Outcome, ok, err, panic, already_spent, not_found, block_hash_not_found, inconsistence_state,
  no_diff, next_block_too_far, spending_output_not_found, block_already_stored, failed,
}
use bitcoin_utxo_indexer.Utxo.Key.Distinct.{hash_key, height_key}
use bitcoin_utxo_indexer.Utxo.Checkpoint.{CheckpointBlock, UtxoSpendingCheckpoint}
use bitcoin_utxo_indexer.Utxo.Backend.{
  Backend, IsBackend, View, apply_all, hash_value, height_value,
}
use bitcoin_utxo_indexer.Utxo.Store.{
  Store, transaction_commands, commit_checkpoint, get_block_hash, get_block_height,
}
use bitcoin_utxo_indexer.Utxo.Store.Commit.{IsApplied, transaction_commands-IsApplied}
use bitcoin_utxo_indexer.Utxo.Store.Atomic.{
  CommitResult, committed, not_saved, undecided, not_removed, commit_checkpoint-CommitResult,
  commit_checkpoint-refused,
}
use bitcoin_utxo_indexer.Utxo.Block.{BlockEnv, Block}
use bitcoin_utxo_indexer.Utxo.Service.{
  first_checkpoint, new_block_point, checkpoint_at, after_hash, new_checkpoint_from_next_block,
  already_stored, add_from_block,
}
use bitcoin_utxo_indexer.Utxo.Store.Reads.{continue-ok, get_block_hash-refused}
use bitcoin_utxo_indexer.Utxo.Service.Reading.{new_checkpoint_from_next_block-Reads}
use bitcoin_utxo_indexer.Utxo.Service.Taken.{Taken, new_checkpoint_from_next_block-Taken}

module _ (b : Backend) (laws : IsBackend b) (ver : Str) (env : BlockEnv) (decimals : ℕ)
    (block : Block env) where
  -- A store that is not known to be consistent gives every block the same error.
  pub add_from_block-inconsistent :
      (s : Store b)
      → s.is_consist ≡ false
      → add_from_block b ver env decimals block s ≡ (err inconsistence_state, s)
  unfolding add_from_block already_stored new_checkpoint_from_next_block after_hash
  add_from_block-inconsistent s shut = rw (get_block_hash-refused b laws ver s shut, after_hash)

  -- A block at the stored height is taken for the stored one, whatever its hash is.
  pub add_from_block-same_height :
      (s : Store b) (hash : Str)
      → (get_block_hash b ver s).0 ≡ ok hash
      → (get_block_height b ver (get_block_hash b ver s).1).0 ≡ ok block.height
      → add_from_block b ver env decimals block s
        ≡ (err block_already_stored, (get_block_height b ver (get_block_hash b ver s).1).1)
  unfolding add_from_block already_stored new_checkpoint_from_next_block after_hash checkpoint_at
  add_from_block-same_height s hash h k =
      rw (h, after_hash, k, (==_iff block.height block.height).1 refl)

  pub already_stored-ok :
      (r : Outcome UtxoSpendingCheckpoint) (c : UtxoSpendingCheckpoint)
      → already_stored b ver env decimals r ≡ ok c
      → r ≡ ok c
  unfolding already_stored
  already_stored-ok (ok c') c h = h
  already_stored-ok (err no_diff) c h = absurd (cc)
  already_stored-ok (err already_spent) c h = absurd (cc)
  already_stored-ok (err not_found) c h = absurd (cc)
  already_stored-ok (err block_hash_not_found) c h = absurd (cc)
  already_stored-ok (err inconsistence_state) c h = absurd (cc)
  already_stored-ok (err next_block_too_far) c h = absurd (cc)
  already_stored-ok (err spending_output_not_found) c h = absurd (cc)
  already_stored-ok (err block_already_stored) c h = absurd (cc)
  already_stored-ok (err failed) c h = absurd (cc)
  already_stored-ok panic c h = absurd (cc)

-- A checkpoint without outputs and references.
pub record IsBare (c : UtxoSpendingCheckpoint) : Type 0 where
  pub no_outputs : c.new_tx_outputs ≡ []
  pub no_references : c.new_address_references ≡ []
  pub none_dereferenced : c.dereferenced_addresses_txs ≡ []

-- The index `v'` of a store is `v` with the block: what a checkpoint names was applied, and that
-- checkpoint names nothing but the block, for the first one, or is taken from the block.
pub record Stored (ver : Str) (env : BlockEnv) (decimals : ℕ) (block : Block env) (v v' : View)
    : Type 0 where
  pub stored_hash : v'.values (hash_key ver) ≡ some (hash_value block.hash)
  pub stored_height : v'.values (height_key ver) ≡ some (height_value block.height)
  pub checkpoint : UtxoSpendingCheckpoint
  pub applied : IsApplied ver checkpoint v v'
  pub follows :
      ((v.values (hash_key ver) ≡ none) × IsBare checkpoint)
      ⊎ ((previous : CheckpointBlock) × Taken ver v env decimals block checkpoint previous)

module _ (b : Backend) (laws : IsBackend b) (ver : Str) where
  committed_parts :
      (c : UtxoSpendingCheckpoint) (before after : View) (r : Outcome (Unit {0})) (s : Store b)
      → CommitResult b laws before after c r s
      → r ≡ ok tt
      → (laws.view s.world ≡ after) × (laws.file s.world ≡ none) × (s.is_consist ≡ true)
  committed_parts c before after r s (committed _ view file flag) h = (view, file, flag)
  committed_parts c before after r s (not_saved e _ _) h = absurd (cc)
  committed_parts c before after r s (undecided e _ _ _) h = absurd (cc)
  committed_parts c before after r s (not_removed e _ _) h = absurd (cc)

  commit_ok :
      (c : UtxoSpendingCheckpoint) (s : Store b)
      → (commit_checkpoint b ver c s).0 ≡ ok tt
      → let s' = (commit_checkpoint b ver c s).1 in
        (laws.view s'.world ≡ apply_all (transaction_commands b ver c) (laws.view s.world))
        × (laws.file s'.world ≡ none)
        × (s'.is_consist ≡ true)
  commit_ok c s h = elim (Bool-cases s.is_consist) [
    | inl open_ ↦ committed_parts c _ _ _ _ (commit_checkpoint-CommitResult b laws ver c s open_) h
    | inr shut ↦ absurd (
        let h' : err inconsistence_state ≡ ok tt =
          sym (
            ap (λ (p : Outcome (Unit {0}) × Store b). p.0)
              (commit_checkpoint-refused b laws ver c s shut))
          ∙ h in
        cc)
  ]

  checkpoint-Stored :
      (env : BlockEnv) (decimals : ℕ) (block : Block env) (v v' : View) (c : UtxoSpendingCheckpoint)
      → Distinct c.new_tx_outputs
      → c.new_block.height ≡ block.height
      → c.new_block.hash ≡ block.hash
      → v' ≡ apply_all (transaction_commands b ver c) v
      → ((v.values (hash_key ver) ≡ none) × IsBare c)
        ⊎ ((previous : CheckpointBlock) × Taken ver v env decimals block c previous)
      → Stored ver env decimals block v v'
  checkpoint-Stored env decimals block v v' c distinct same_height same_hash e follows =
      let made : IsApplied ver c v v' = rw e (transaction_commands-IsApplied b ver c v distinct) in
      record {
        stored_hash = made.hash ∙ rw same_hash;
        stored_height = made.height ∙ rw same_height;
        checkpoint = c;
        applied = made;
        follows = follows;
      }

module _ (b : Backend) (laws : IsBackend b) (ver : Str) (env : BlockEnv) (decimals : ℕ)
    (block : Block env) where
  Taken-Stored :
      (v v' : View) (c : UtxoSpendingCheckpoint)
      → v' ≡ apply_all (transaction_commands b ver c) v
      → ((c ≡ first_checkpoint b ver env decimals block) × (v.values (hash_key ver) ≡ none))
        ⊎ ((previous : CheckpointBlock) × Taken ver v env decimals block c previous)
      → Stored ver env decimals block v v'
  unfolding first_checkpoint new_block_point
  Taken-Stored v v' c e (inl (first, empty)) =
      checkpoint-Stored b laws ver env decimals block v v' c (rw first tt) (rw first) (rw first) e (
        inl (
          empty,
          record {
            no_outputs = rw first refl;
            no_references = rw first refl;
            none_dereferenced = rw first refl;
          },
        ))
  Taken-Stored v v' c e (inr (previous, t)) =
      checkpoint-Stored b laws ver env decimals block v v' c t.distinct_new t.new_height t.new_hash
        e (inr (previous, t))

  -- When `AddFromBlock` returns no error, whichever calls failed on the way, the index is the one
  -- before with the block: it holds the block's hash and height, and either the block is the first
  -- one of an empty index, of which nothing else is stored, or it follows the one that was stored, every
  -- entry of a transaction that it makes or spends from has what its transactions leave there, each
  -- address has been given the transactions of the block that pay it, and has lost those of the
  -- others in which the block's inputs bring the count of its outputs to zero. The store is
  -- consistent and no checkpoint is left behind.
  pub add_from_block-Stored :
      (s : Store b)
      → (add_from_block b ver env decimals block s).0 ≡ ok tt
      → let s' = (add_from_block b ver env decimals block s).1 in
        Stored ver env decimals block (laws.view s.world) (laws.view s'.world)
        × (laws.file s'.world ≡ none)
        × (s'.is_consist ≡ true)
  unfolding add_from_block
  add_from_block-Stored s h =
      let r = (new_checkpoint_from_next_block b ver env decimals block s).0 in
      let s₁ = (new_checkpoint_from_next_block b ver env decimals block s).1 in
      let (c, good, rest) =
        continue-ok b laws (already_stored b ver env decimals r) (commit_checkpoint b ver) s₁ tt
          h in
      let taken : r ≡ ok c = already_stored-ok b laws ver env decimals block r c good in
      let (view, file, flag) = commit_ok b laws ver c s₁ rest in
      let kept = (new_checkpoint_from_next_block-Reads b laws ver env decimals block).view s in
      rw good (
        Taken-Stored (laws.view s.world) _ c (rw kept at view)
            (new_checkpoint_from_next_block-Taken b laws ver env decimals block s c taken),
        file,
        flag,
      )
