-- ===== src/Utxo/Service/Reading.antt =====
-- Making the checkpoint of a block only reads the store.
use bitcoin_utxo_indexer.Prelude.{ℕ, ◌+◌, refl, ◌==◌, not, ◌∙◌, []}
use bitcoin_utxo_indexer.Prelude.Str.{Str}
use bitcoin_utxo_indexer.Utxo.Outcome.{
  Outcome, ok, err, panic, already_spent, not_found, block_hash_not_found, inconsistence_state,
  no_diff, next_block_too_far, spending_output_not_found, block_already_stored, failed,
}
use bitcoin_utxo_indexer.Utxo.Checkpoint.{CheckpointBlock}
use bitcoin_utxo_indexer.Utxo.Backend.{Backend, IsBackend}
use bitcoin_utxo_indexer.Utxo.Store.{get_block_hash}
use bitcoin_utxo_indexer.Utxo.Store.Reads.{
  Reads, pure-Reads, bind-Reads, if-Reads, return_outcome-Reads, get_block_hash-Reads,
  get_block_height-Reads,
}
use bitcoin_utxo_indexer.Utxo.Block.{BlockEnv, Block}
use bitcoin_utxo_indexer.Utxo.Service.{
  extract_spending_outputs_from_block, checkpoint_after, checkpoint_at, after_hash,
  new_checkpoint_from_next_block,
}
use bitcoin_utxo_indexer.Utxo.Service.Checkpoints.{extract_transactions-Reads}

module _ (b : Backend) (laws : IsBackend b) (ver : Str) (env : BlockEnv) (decimals : ℕ)
    (block : Block env) where
  -- A method that answers without a look at the store.
  answer-Reads {ℓ} : {A : Type ℓ} (r : Outcome A) → Reads b laws {A = A} (λ s. (r, s))
  answer-Reads r = record { view = λ s. refl; file = λ s. refl; is_consist = λ s. refl }

  checkpoint_after-Reads :
      (previous : CheckpointBlock)
      → Reads b laws (checkpoint_after b ver env decimals previous block)
  unfolding checkpoint_after extract_spending_outputs_from_block
  checkpoint_after-Reads previous =
      bind-Reads b laws _ _
        (extract_transactions-Reads b laws ver env decimals [] [] block.transactions)
        (λ spending. bind-Reads b laws _ _ (return_outcome-Reads b laws ver _) (λ gone.
          bind-Reads b laws _ _ (return_outcome-Reads b laws ver _) (λ outputs.
            bind-Reads b laws _ _ (return_outcome-Reads b laws ver _)
              (λ references. pure-Reads b laws _))))

  checkpoint_at-Reads :
      (current : Str) → Reads b laws (checkpoint_at b ver env decimals current block)
  unfolding checkpoint_at
  checkpoint_at-Reads current = bind-Reads b laws _ _ (get_block_height-Reads b laws ver) (λ height.
      if-Reads b laws (block.height == height) _ _ (answer-Reads (err no_diff)) (
        if-Reads b laws (not (height + 1 == block.height)) _ _
          (answer-Reads (err next_block_too_far))
          (checkpoint_after-Reads (record { height = height; hash = current }))))

  after_hash-Reads : (r : Outcome Str) → Reads b laws (after_hash b ver env decimals block r)
  unfolding after_hash
  after_hash-Reads (ok current) = checkpoint_at-Reads current
  after_hash-Reads (err block_hash_not_found) = answer-Reads _
  after_hash-Reads (err already_spent) = answer-Reads _
  after_hash-Reads (err not_found) = answer-Reads _
  after_hash-Reads (err inconsistence_state) = answer-Reads _
  after_hash-Reads (err no_diff) = answer-Reads _
  after_hash-Reads (err next_block_too_far) = answer-Reads _
  after_hash-Reads (err spending_output_not_found) = answer-Reads _
  after_hash-Reads (err block_already_stored) = answer-Reads _
  after_hash-Reads (err failed) = answer-Reads _
  after_hash-Reads panic = answer-Reads _

  pub new_checkpoint_from_next_block-Reads :
      Reads b laws (new_checkpoint_from_next_block b ver env decimals block)
  unfolding new_checkpoint_from_next_block
  new_checkpoint_from_next_block-Reads =
      let hash = get_block_hash-Reads b laws ver in
      record {
        view = λ s. (after_hash-Reads (get_block_hash b ver s).0).view _ ∙ hash.view s;
        file = λ s. (after_hash-Reads (get_block_hash b ver s).0).file _ ∙ hash.file s;
        is_consist =
            λ s. (after_hash-Reads (get_block_hash b ver s).0).is_consist _ ∙ hash.is_consist s;
      }
