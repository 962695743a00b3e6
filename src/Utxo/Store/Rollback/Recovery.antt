-- ===== src/Utxo/Store/Rollback/Recovery.antt =====
-- `New` after an interrupted commit: whichever side the commit fell on, a store that opens is on one
-- of the two sides, and the checkpoint is gone.
use bitcoin_utxo_indexer.Prelude.{
  ◌≡◌, ◌≢◌, refl, ◌∙◌, ap, sym, Bool, true, false, ◌⊎◌, inl, inr, Option, none, some, Bool-cases,
  Option-cases,
}
use bitcoin_utxo_indexer.Prelude.Str.{Str}
use bitcoin_utxo_indexer.Utxo.Outcome.{Outcome, ok, err, panic, failed}
use bitcoin_utxo_indexer.Utxo.Key.Distinct.{hash_key}
use bitcoin_utxo_indexer.Utxo.Checkpoint.{CheckpointBlock, UtxoSpendingCheckpoint}
use bitcoin_utxo_indexer.Utxo.Backend.{Backend, IsBackend, View, hash_value, apply_all}
use bitcoin_utxo_indexer.Utxo.Store.{Store, transaction_commands, remove_latest_checkpoint}
use bitcoin_utxo_indexer.Utxo.Store.Commit.{transaction_commands-IsApplied}
use bitcoin_utxo_indexer.Utxo.Store.Rollback.{
  down_checkpoint, last_checkpoint, mark_consistent, hide_error, finish_check, fix_with,
  check_consistency_and_try_to_fix, new, is_consistence_with_checkpoint,
}
use bitcoin_utxo_indexer.Utxo.Store.Rollback.Commands.{down_commands, down_checkpoint-run_all}
use bitcoin_utxo_indexer.Utxo.Store.Rollback.Writes.{run_all-is_consist}
use bitcoin_utxo_indexer.Utxo.Store.Rollback.Restores.{
  Describes, Between, SameIndex, IsApplied-Between, down_checkpoint-SameIndex,
}
use bitcoin_utxo_indexer.Utxo.Store.Reads.{continue-ok}
use bitcoin_utxo_indexer.Utxo.Store.Rollback.Check.{
  is_consistence_with_checkpoint-Reads, is_consistence_with_checkpoint-hash,
}

-- Where the opened store stands: on the new block, ready; or on the old one, still marked inconsistent.
pub data Recovered (b : Backend) (laws : IsBackend b) (ver : Str) (before after : View)
    (s : Store b) : Type 0 where
  kept : laws.view s.world ≡ after → s.is_consist ≡ true → Recovered b laws ver before after s
  rolled_back :
      SameIndex ver before (laws.view s.world)
      → s.is_consist ≡ false
      → Recovered b laws ver before after s

module _ (b : Backend) (laws : IsBackend b) (ver : Str) (c : UtxoSpendingCheckpoint) where
  remove-ok :
      (s : Store b)
      → (remove_latest_checkpoint b ver s).0 ≡ ok tt
      → laws.file (remove_latest_checkpoint b ver s).1.world ≡ none
  unfolding remove_latest_checkpoint
  remove-ok s h = elim (Bool-cases (b.remove_latest_checkpoint s.world).1) [
    | inl done ↦ laws.remove_done s.world done
    | inr bad ↦ absurd (let h' : err failed ≡ ok tt = rw bad at h in cc)
  ]

  finish_true :
      (s : Store b)
      → (finish_check b ver c true s).0 ≡ ok tt
      → (laws.file (finish_check b ver c true s).1.world ≡ none)
        × ((laws.view (finish_check b ver c true s).1.world ≡ laws.view s.world)
            × ((finish_check b ver c true s).1.is_consist ≡ true))
  unfolding finish_check mark_consistent remove_latest_checkpoint
  finish_true s h =
      let (u, removed, rest) =
        continue-ok b laws (remove_latest_checkpoint b ver s).0 (λ _. mark_consistent b ver)
          (remove_latest_checkpoint b ver s).1 tt h in
      rw removed (remove-ok s removed, (laws.remove-view s.world, refl))

  module _ (previous : CheckpointBlock) (d : View) (describes : Describes ver c previous d) where
    finish_false :
        (s : Store b)
        → Between ver c d (laws.view s.world)
        → (finish_check b ver c false s).0 ≡ ok tt
        → (laws.file (finish_check b ver c false s).1.world ≡ none)
          × (SameIndex ver d (laws.view (finish_check b ver c false s).1.world)
              × ((finish_check b ver c false s).1.is_consist ≡ s.is_consist))
    unfolding finish_check remove_latest_checkpoint
    finish_false s p h =
        let (u, down, removed) =
          continue-ok b laws (down_checkpoint b ver c s).0 (λ _. remove_latest_checkpoint b ver)
            (down_checkpoint b ver c s).1 tt h in
        let s' = (down_checkpoint b ver c s).1 in
        rw down (
          remove-ok s' removed,
          (
            rw (laws.remove-view s'.world)
                (down_checkpoint-SameIndex ver c d previous describes b laws s p down),
            rw (down_checkpoint-run_all b ver c previous describes.previous_block)
                (run_all-is_consist b ver (down_commands b ver c previous) s),
          ),
        )

    abbrev applied : View
    applied = apply_all (transaction_commands b ver c) d

    sides_Between : (v : View) → (v ≡ d) ⊎ (v ≡ applied) → Between ver c d v
    sides_Between v (inl same) = record {
      outputs = λ t new before. rw same refl;
      members = λ a x new old. rw same refl;
    }
    sides_Between v (inr made) = rw made (
        IsApplied-Between ver c d applied
          (transaction_commands-IsApplied b ver c d describes.distinct_new))

    hide_error-ok :
        (s : Store b) (same : Bool)
        → (hide_error b ver (is_consistence_with_checkpoint b ver c) s).0 ≡ ok same
        → (is_consistence_with_checkpoint b ver c s).0 ≡ ok same
    unfolding hide_error
    hide_error-ok s same h = go (is_consistence_with_checkpoint b ver c s).0 h
      where
        go :
            (r : Outcome Bool)
            → (elim r [ ok a ↦ ok a | err e ↦ err failed | panic ↦ panic ]) ≡ ok same
            → r ≡ ok same
        go (ok a) e = e
        go (err x) e = absurd cc
        go panic e = absurd cc

    -- The end of the check, by what the check has said.
    finish_check-Recovered :
        (s : Store b) (same : Bool)
        → previous.hash ≢ c.new_block.hash
        → (laws.view s.world ≡ d) ⊎ (laws.view s.world ≡ applied)
        → s.is_consist ≡ false
        → (same ≡ true
            → (laws.view s.world).values (hash_key ver) ≡ some (hash_value c.new_block.hash))
        → (finish_check b ver c same s).0 ≡ ok tt
        → (laws.file (finish_check b ver c same s).1.world ≡ none)
          × Recovered b laws ver d applied (finish_check b ver c same s).1
    finish_check-Recovered s false differ side shut new_hash h =
        let (file, (index, flag)) = finish_false s (sides_Between (laws.view s.world) side) h in
        (file, rolled_back index (flag ∙ shut))
    finish_check-Recovered s true differ (inr made) shut new_hash h =
        let (file, (view, flag)) = finish_true s h in (file, kept (view ∙ made) flag)
    finish_check-Recovered s true differ (inl same) shut new_hash h =
        let found : d.values (hash_key ver) ≡ some (hash_value c.new_block.hash) =
          ap (λ (v : View). v.values (hash_key ver)) (sym same) ∙ new_hash refl in
        let both : some (hash_value previous.hash) ≡ some (hash_value c.new_block.hash) =
          sym describes.hash ∙ found in
        absurd (differ cc)

    fix_with-Recovered :
        (s : Store b)
        → previous.hash ≢ c.new_block.hash
        → (laws.view s.world ≡ d) ⊎ (laws.view s.world ≡ applied)
        → s.is_consist ≡ false
        → (fix_with b ver (some c) s).0 ≡ ok tt
        → (laws.file (fix_with b ver (some c) s).1.world ≡ none)
          × Recovered b laws ver d applied (fix_with b ver (some c) s).1
    unfolding fix_with hide_error
    fix_with-Recovered s differ side shut h =
        let m = hide_error b ver (is_consistence_with_checkpoint b ver c) in
        let reads = is_consistence_with_checkpoint-Reads b laws ver c in
        let s' = (is_consistence_with_checkpoint b ver c s).1 in
        let (same, checked, rest) = continue-ok b laws (m s).0 (finish_check b ver c) s' tt h in
        let checked' = hide_error-ok s same checked in
        rw checked (
          finish_check-Recovered s' same differ (rw (reads.view s) side) (reads.is_consist s ∙ shut)
            (λ yes_.
              rw (reads.view s)
                (is_consistence_with_checkpoint-hash b laws ver c s (checked' ∙ ap ok yes_)))
            rest)

    opened :
        (r : Outcome (Unit {0})) (s' s : Store b)
        → (elim r [ ok _ ↦ ok s' | err e ↦ err e | panic ↦ panic ]) ≡ ok s
        → (r ≡ ok tt) × (s' ≡ s)
    opened (ok tt) s' s h = (refl, cc)
    opened (err e) s' s h = absurd cc
    opened panic s' s h = absurd cc

    last_checkpoint-file :
        (s : Store b) (o : Option UtxoSpendingCheckpoint)
        → (last_checkpoint b ver s).0 ≡ ok o
        → o ≡ laws.file s.world
    unfolding last_checkpoint
    last_checkpoint-file s o h = elim (Option-cases (b.last_checkpoint s.world).1) [
      | inl bad ↦ absurd (let h' : err failed ≡ ok o = rw bad at h in cc)
      | inr (o', e) ↦
          let h' : ok o' ≡ ok o = rw e at h in sym (the_same o' o h') ∙ laws.last_reads s.world o' e
    ]
      where
        the_same : (o' o : Option UtxoSpendingCheckpoint) → ok o' ≡ ok o → o' ≡ o
        the_same o' o h = cc

    -- The store that `New` opens after an interrupted commit.
    pub new-Recovered :
        (w : b.World) (s : Store b)
        → previous.hash ≢ c.new_block.hash
        → (laws.view w ≡ d) ⊎ (laws.view w ≡ applied)
        → laws.file w ≡ some c
        → (new b ver w).0 ≡ ok s
        → (laws.file s.world ≡ none) × Recovered b laws ver d applied s
    unfolding new check_consistency_and_try_to_fix last_checkpoint
    new-Recovered w s differ side file h =
        let s₀ : Store b = record { world = w; is_consist = false } in
        let (ended, same) =
          opened (check_consistency_and_try_to_fix b ver s₀).0
            (check_consistency_and_try_to_fix b ver s₀).1 s h in
        let s₁ = (last_checkpoint b ver s₀).1 in
        let (o, read, rest) =
          continue-ok b laws (last_checkpoint b ver s₀).0 (fix_with b ver) s₁ tt ended in
        let is_c : o ≡ some c = last_checkpoint-file s₀ o read ∙ file in
        let done =
          fix_with-Recovered s₁ differ (rw (laws.last-view w) side) refl (rw is_c at rest) in
        let reached : (fix_with b ver (some c) s₁).1 ≡ s = rw (read, is_c) at same in
        rw (sym reached) done
