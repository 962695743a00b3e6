-- ===== src/Utxo/Store/Rollback/Check.antt =====
-- The check against the checkpoint only reads, and it passes only on the new block's hash.
use bitcoin_utxo_indexer.Prelude.{◌≡◌, sym, true, false, not, inl, inr, some, Bool-cases}
use bitcoin_utxo_indexer.Prelude.Str.{Str, str_eq, str_eq_iff}
use bitcoin_utxo_indexer.Utxo.Outcome.{ok}
use bitcoin_utxo_indexer.Utxo.Types.{TransactionOutputs, is_all_spent}
use bitcoin_utxo_indexer.Utxo.Key.Distinct.{hash_key}
use bitcoin_utxo_indexer.Utxo.Checkpoint.{UtxoSpendingCheckpoint}
use bitcoin_utxo_indexer.Utxo.Backend.{Backend, IsBackend, hash_value}
use bitcoin_utxo_indexer.Utxo.Store.{Store, read_block_hash}
use bitcoin_utxo_indexer.Utxo.Store.Reads.{
  Reads, pure-Reads, bind-Reads, if-Reads, for_all-Reads, get_address-Reads, read_outputs-Reads,
  read_block_hash-Reads, read_block_height-Reads, continue-ok, read_block_hash-reads,
}
use bitcoin_utxo_indexer.Utxo.Store.Rollback.{
  references_present, references_absent, outputs_present, tests_after_height,
  is_consistence_with_checkpoint,
}

module _ (b : Backend) (laws : IsBackend b) (ver : Str) where
  outputs_present-Reads : (e : Str × TransactionOutputs) → Reads b laws (outputs_present b ver e)
  unfolding outputs_present
  outputs_present-Reads (t, entry) =
      let r = read_outputs-Reads b laws ver t in
      elim (Bool-cases (is_all_spent entry.outputs)) [
        | inl all ↦
            rw (outputs_present, all)
              (record { view = r.view; file = r.file; is_consist = r.is_consist })
        | inr left ↦
            rw (outputs_present, left)
              (record { view = r.view; file = r.file; is_consist = r.is_consist })
      ]

  tests_after_height-Reads :
      (c : UtxoSpendingCheckpoint) → Reads b laws (tests_after_height b ver c)
  unfolding tests_after_height references_present references_absent
  tests_after_height-Reads c =
      bind-Reads b laws _ _
        (for_all-Reads b laws _ _ (λ e.
          bind-Reads b laws _ _ (get_address-Reads b laws ver e.0) (λ r. pure-Reads b laws _)))
        (λ present. if-Reads b laws (not present) _ _ (pure-Reads b laws false) (
          bind-Reads b laws _ _
            (for_all-Reads b laws _ _ (λ e.
              bind-Reads b laws _ _ (get_address-Reads b laws ver e.0) (λ r. pure-Reads b laws _)))
            (λ none_left.
              if-Reads b laws (not none_left) _ _ (pure-Reads b laws false)
                (for_all-Reads b laws _ _ outputs_present-Reads))))

  -- The check changes nothing, whatever it finds.
  pub is_consistence_with_checkpoint-Reads :
      (c : UtxoSpendingCheckpoint) → Reads b laws (is_consistence_with_checkpoint b ver c)
  unfolding is_consistence_with_checkpoint
  is_consistence_with_checkpoint-Reads c =
      bind-Reads b laws _ _ (read_block_hash-Reads b laws ver) (λ hash.
        if-Reads b laws _ _ _ (pure-Reads b laws false) (
          bind-Reads b laws _ _ (read_block_height-Reads b laws ver) (λ height.
            if-Reads b laws _ _ _ (pure-Reads b laws false) (tests_after_height-Reads c))))

  -- A check that passes has found the hash of the new block.
  pub is_consistence_with_checkpoint-hash :
      (c : UtxoSpendingCheckpoint) (s : Store b)
      → (is_consistence_with_checkpoint b ver c s).0 ≡ ok true
      → (laws.view s.world).values (hash_key ver) ≡ some (hash_value c.new_block.hash)
  unfolding is_consistence_with_checkpoint
  is_consistence_with_checkpoint-hash c s h =
      let (hash, read, rest) =
        continue-ok b laws (read_block_hash b ver s).0 _ (read_block_hash b ver s).1 true h in
      elim (Bool-cases (str_eq hash c.new_block.hash)) [
        | inl same ↦
            rw (sym ((str_eq_iff hash c.new_block.hash).0 same))
              (read_block_hash-reads b laws ver s hash read)
        | inr other ↦ absurd (let h' : ok false ≡ ok true = rw other at rest in cc)
      ]
