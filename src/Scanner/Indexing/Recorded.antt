-- ===== src/Scanner/Indexing/Recorded.antt =====
-- What is recorded of a block that the handler took.
use bitcoin_utxo_indexer.Prelude.{ℕ, ◌≡◌, refl, ap, ◌∙◌, true, ◌⊎◌, inl, inr}
use bitcoin_utxo_indexer.Prelude.Str.{Str}
use bitcoin_utxo_indexer.Utxo.Outcome.{
  Outcome, ok, err, panic, already_spent, not_found, block_hash_not_found, inconsistence_state,
  no_diff, next_block_too_far, spending_output_not_found, block_already_stored, failed,
}
use bitcoin_utxo_indexer.Utxo.Backend.{Backend, IsBackend}
use bitcoin_utxo_indexer.Utxo.Store.{Store, get_block_hash, get_block_height}
use bitcoin_utxo_indexer.Utxo.Store.Reads.{get_block_hash-Reads, get_block_height-Reads}
use bitcoin_utxo_indexer.Utxo.Block.{BlockEnv, Block}
use bitcoin_utxo_indexer.Utxo.Service.{add_from_block}
use bitcoin_utxo_indexer.Utxo.Service.Added.{
  Stored, add_from_block-Stored, add_from_block-same_height,
}
use bitcoin_utxo_indexer.Scanner.State.{update_last_scanned_block_hash}
use bitcoin_utxo_indexer.Scanner.Indexing.{Indexer, update_scanned, after_adding, index_block}

module _ (b : Backend) (laws : IsBackend b) (ver : Str) (env : BlockEnv) (decimals : ℕ)
    (block : Block env) (i : Indexer b) where
  -- The handler's two ways to return nil, by what AddFromBlock returned.
  adding_ok :
      (r : Outcome (Unit {0})) (s : Store b)
      → (after_adding b ver env decimals block r (record i { store = s })).0 ≡ ok tt
      → let j = (after_adding b ver env decimals block r (record i { store = s })).1 in
        ((r ≡ ok tt) ⊎ (r ≡ err block_already_stored))
        × (j.state.last_scanned_block_hash ≡ block.hash)
        × (j.store ≡ s)
  unfolding after_adding update_scanned update_last_scanned_block_hash
  adding_ok (ok tt) s h = (inl refl, refl, refl)
  adding_ok (err block_already_stored) s h = (inr refl, refl, refl)
  adding_ok (err no_diff) s h = absurd (cc)
  adding_ok (err already_spent) s h = absurd (cc)
  adding_ok (err not_found) s h = absurd (cc)
  adding_ok (err block_hash_not_found) s h = absurd (cc)
  adding_ok (err inconsistence_state) s h = absurd (cc)
  adding_ok (err next_block_too_far) s h = absurd (cc)
  adding_ok (err spending_output_not_found) s h = absurd (cc)
  adding_ok (err failed) s h = absurd (cc)
  adding_ok panic s h = absurd (cc)

  -- When the handler returns nil, the block is the last scanned one, and either the index is the one
  -- before with the block, its outputs and references, or AddFromBlock said that the block is stored already.
  pub index_block-Recorded :
      (index_block b ver env decimals block i).0 ≡ ok tt
      → let i' = (index_block b ver env decimals block i).1 in
        (i'.state.last_scanned_block_hash ≡ block.hash)
        × ((Stored ver env decimals block (laws.view i.store.world) (laws.view i'.store.world)
              × (i'.store.is_consist ≡ true))
            ⊎ ((add_from_block b ver env decimals block i.store).0 ≡ err block_already_stored))
  unfolding index_block
  index_block-Recorded h =
      let added = add_from_block b ver env decimals block i.store in
      let (way, scanned, kept) = adding_ok added.0 added.1 h in
      (
        scanned,
        elim way [
          | inr stored ↦ inr stored
          | inl good ↦
              let (stored, _, flag) =
                add_from_block-Stored b laws ver env decimals block i.store good in
              inl (rw kept (stored, flag))
        ],
      )

  -- A block at the stored height counts as scanned whatever its hash is, and leaves the index as it
  -- is: after a reorganisation the old branch's block stays in the index.
  pub index_block-same_height :
      (hash : Str)
      → (get_block_hash b ver i.store).0 ≡ ok hash
      → (get_block_height b ver (get_block_hash b ver i.store).1).0 ≡ ok block.height
      → let i' = (index_block b ver env decimals block i).1 in
        ((index_block b ver env decimals block i).0 ≡ ok tt)
        × (i'.state.last_scanned_block_hash ≡ block.hash)
        × (laws.view i'.store.world ≡ laws.view i.store.world)
  unfolding index_block after_adding update_scanned update_last_scanned_block_hash
  index_block-same_height hash h k =
      let same = add_from_block-same_height b laws ver env decimals block i.store hash h k in
      rw
        (
          ap (λ (p : Outcome (Unit {0}) × Store b). p.0) same,
          ap (λ (p : Outcome (Unit {0}) × Store b). p.1) same,
        )
        (
          refl,
          refl,
          (get_block_height-Reads b laws ver).view _
              ∙ (get_block_hash-Reads b laws ver).view i.store,
        )
