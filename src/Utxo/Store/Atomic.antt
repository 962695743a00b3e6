-- ===== src/Utxo/Store/Atomic.antt =====
-- `CommitCheckpoint` over a backend whose calls may fail: which state each of its results leaves.
use bitcoin_utxo_indexer.Prelude.{
  ◌≡◌, refl, ◌∙◌, ap, true, false, ◌⊎◌, inl, inr, List, none, some, Bool-cases,
}
use bitcoin_utxo_indexer.Prelude.Str.{Str}
use bitcoin_utxo_indexer.Utxo.Outcome.{Outcome, ok, err, failed, inconsistence_state}
use bitcoin_utxo_indexer.Utxo.Checkpoint.{UtxoSpendingCheckpoint}
use bitcoin_utxo_indexer.Utxo.Backend.{Backend, IsBackend, View, apply_all}
use bitcoin_utxo_indexer.Utxo.Store.{
  Store, transaction_commands, commit_checkpoint, if_consistent, save_checkpoint,
  remove_latest_checkpoint, spend_outputs_with_new_block_info, keys, get_store_keys_to_watch,
}

-- What a commit may leave: the block and no checkpoint; the old index, when the checkpoint could not
-- be saved; either index, with the checkpoint on file and the store marked inconsistent; or the
-- block, with an error of removing the checkpoint.
pub data CommitResult (b : Backend) (laws : IsBackend b) (before after : View)
    (c : UtxoSpendingCheckpoint) (r : Outcome (Unit {0})) (s : Store b) : Type 0 where
  committed :
      r ≡ ok tt
      → laws.view s.world ≡ after
      → laws.file s.world ≡ none
      → s.is_consist ≡ true
      → CommitResult b laws before after c r s
  not_saved :
      r ≡ err failed
      → laws.view s.world ≡ before
      → s.is_consist ≡ true
      → CommitResult b laws before after c r s
  undecided :
      r ≡ err failed
      → (laws.view s.world ≡ before) ⊎ (laws.view s.world ≡ after)
      → laws.file s.world ≡ some c
      → s.is_consist ≡ false
      → CommitResult b laws before after c r s
  not_removed :
      r ≡ err failed
      → laws.view s.world ≡ after
      → s.is_consist ≡ true
      → CommitResult b laws before after c r s

module _ (b : Backend) (laws : IsBackend b) (ver : Str) (c : UtxoSpendingCheckpoint) where
  abbrev watched : List Str
  watched =
      get_store_keys_to_watch b ver (keys b ver c.new_tx_outputs)
        (keys b ver c.dereferenced_addresses_txs) (keys b ver c.new_address_references)

  -- A commit that is let in ends in one of four ways, whichever calls fail, and never panics: in each
  -- the index is the old one or the one with the whole block; where the store does not know which, it
  -- is marked inconsistent and the checkpoint is on file.
  pub commit_checkpoint-CommitResult :
      (s : Store b)
      → s.is_consist ≡ true
      → CommitResult b laws
          (laws.view s.world)
          (apply_all (transaction_commands b ver c) (laws.view s.world))
          c
          (commit_checkpoint b ver c s).0
          (commit_checkpoint b ver c s).1
  unfolding commit_checkpoint if_consistent save_checkpoint remove_latest_checkpoint
      spend_outputs_with_new_block_info
  commit_checkpoint-CommitResult s open_ =
      let cs = transaction_commands b ver c in
      let saved = b.save_checkpoint s.world c in
      let done = b.exec saved.0 watched cs in
      let removed = b.remove_latest_checkpoint done.0 in
      let applied : done.1 ≡ true → laws.view done.0 ≡ apply_all cs (laws.view s.world) =
        λ h. laws.exec_done saved.0 watched cs h ∙ ap (apply_all cs) (laws.save-view s.world c) in
      rw open_ (elim (Bool-cases saved.1) [
        | inr bad ↦ rw bad (not_saved refl (laws.save-view s.world c) refl)
        | inl yes_ ↦ rw yes_ (elim (Bool-cases done.1) [
          | inr bad ↦ rw bad (
              undecided refl
                (elim (laws.exec_failed saved.0 watched cs bad) [
                  | inl same ↦ inl (same ∙ laws.save-view s.world c)
                  | inr made ↦ inr (made ∙ ap (apply_all cs) (laws.save-view s.world c))
                ])
                (laws.exec-file saved.0 watched cs ∙ laws.save_done s.world c yes_) refl)
          | inl done_ ↦ rw done_ (elim (Bool-cases removed.1) [
            | inr bad ↦ rw bad (not_removed refl (laws.remove-view done.0 ∙ applied done_) refl)
            | inl gone ↦ rw gone (
                committed refl (laws.remove-view done.0 ∙ applied done_)
                  (laws.remove_done done.0 gone) refl)
          ])
        ])
      ])

  -- A store that is not known to be consistent refuses the commit and changes nothing.
  pub commit_checkpoint-refused :
      (s : Store b)
      → s.is_consist ≡ false
      → commit_checkpoint b ver c s ≡ (err inconsistence_state, s)
  unfolding commit_checkpoint if_consistent
  commit_checkpoint-refused s shut = rw shut refl
