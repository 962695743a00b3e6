-- ===== src/Chainstate/Migration/Batches.antt =====
-- The loop of `Migrate` with its batches. What it does with a batch is an argument, of which
-- Migration/Stored has the one that the program gives; so are the chainstate's outputs, with the
-- error that its iterator ends with, if any, the block hash that the chainstate answers, and the
-- store's setters.
pub mod Behind
pub mod Complete
mod Tests
use bitcoin_utxo_indexer.Prelude.{
  ℕ, zero, suc, List, [], ◌∷◌, Option, none, some, ◌==◌, if◌then◌else◌, length,
}
use bitcoin_utxo_indexer.Prelude.Str.{Str}
use bitcoin_utxo_indexer.Utxo.Outcome.{Outcome, Error, ok, err, panic}
use bitcoin_utxo_indexer.Utxo.Method.{Method, continue}
use bitcoin_utxo_indexer.Utxo.Types.{Env}
use bitcoin_utxo_indexer.Chainstate.Coin.{TxOut}
use bitcoin_utxo_indexer.Chainstate.Migration.{TxOutputsEntry, Grouping, take_utxo, close_group}

-- `sleep` is what the world does in the five seconds before a batch is tried again.
pub record Migration (S : Type 0) : Type 0 where
  pub approximate_size : Outcome ℕ
  pub batch_size : ℕ
  pub store_utxo_batch : List TxOutputsEntry → Method S (Unit {0})
  pub block_hash : Outcome Str
  pub chainstate_block_height : ℕ
  pub set_block_hash : Str → Method S (Unit {0})
  pub set_block_height : ℕ → Method S (Unit {0})
  pub sleep : S → S

abbrev pub with_batch : Grouping → List TxOutputsEntry → Grouping
with_batch g batch = record {
  current_tx_id = g.current_tx_id;
  utxo_by_tx_id = g.utxo_by_tx_id;
  utxo_batch = batch;
}

module _ (env : Env) {S : Type 0} (m : Migration S) where
  open m use {
    approximate_size, batch_size, store_utxo_batch, block_hash, chainstate_block_height,
    set_block_hash, set_block_height, sleep,
  }

  -- A full batch is tried until it is stored; `none` is a loop that is still at it.
  pub store_full_batch : ℕ → List TxOutputsEntry → S → Option (Outcome (Unit {0}) × S)
  store_full_batch zero batch s = none
  store_full_batch (suc tries) batch s =
      let (r, s') = store_utxo_batch batch s in
      elim r [
        | ok _ ↦ some (ok tt, s')
        | err e ↦ store_full_batch tries batch (sleep s')
        | panic ↦ some (panic, s')
      ]

  -- The last batch, if it is not empty, gets one try.
  pub store_last_batch : List TxOutputsEntry → Method S (Unit {0})
  store_last_batch [] s = (ok tt, s)
  store_last_batch (entry ∷ batch) s = store_utxo_batch (entry ∷ batch) s

  pub set_block : Outcome Str → Method S (Unit {0})
  set_block (ok hash) s =
      let (r, s') = set_block_hash hash s in
      continue r (λ _. set_block_height chainstate_block_height) s'
  set_block (err e) s = (err e, s)
  set_block panic s = (panic, s)

  pub finish_batches : Outcome (List TxOutputsEntry) → Method S (Unit {0})
  unfolding store_last_batch set_block
  finish_batches (ok batch) s =
      let (r, s') = store_last_batch batch s in continue r (λ _. set_block block_hash) s'
  finish_batches (err e) s = (err e, s)
  finish_batches panic s = (panic, s)

  -- Behind the iterator's last output.
  pub finish : Option Error → Grouping → Method S (Unit {0})
  unfolding finish_batches
  finish (some e) g s = (err e, s)
  finish none g s = finish_batches (close_group env g) s

  -- What follows a try of a full batch.
  pub after_batch :
      Option (Outcome (Unit {0}) × S)
      → (S → Option (Outcome (Unit {0}) × S))
      → Option (Outcome (Unit {0}) × S)
  after_batch none rest = none
  after_batch (some (ok _, s)) rest = rest s
  after_batch (some (err e, s)) rest = some (err e, s)
  after_batch (some (panic, s)) rest = some (panic, s)

  pub migrate_loop : ℕ → List TxOut → Option Error → Grouping → S → Option (Outcome (Unit {0}) × S)
  unfolding store_full_batch after_batch finish
  migrate_loop tries [] ending g s = some (finish ending g s)
  migrate_loop tries (utxo ∷ utxos) ending g s = elim (take_utxo env g utxo) [
    | ok g' ↦
        let flushed : Option (Outcome (Unit {0}) × S) =
          after_batch (store_full_batch tries g'.utxo_batch s)
            (λ s'. migrate_loop tries utxos ending (with_batch g' []) s') in
        let kept = migrate_loop tries utxos ending g' s in
        if length g'.utxo_batch == batch_size then flushed else kept
    | err e ↦ some (err e, s)
    | panic ↦ some (panic, s)
  ]

  -- The number of keys is for the log, but its error ends the migration.
  pub migrate_sized :
      Outcome ℕ → ℕ → List TxOut → Option Error → S → Option (Outcome (Unit {0}) × S)
  unfolding migrate_loop
  migrate_sized (ok keys) tries utxos ending s =
      migrate_loop tries utxos ending
        (record { current_tx_id = []; utxo_by_tx_id = []; utxo_batch = [] }) s
  migrate_sized (err e) tries utxos ending s = some (err e, s)
  migrate_sized panic tries utxos ending s = some (panic, s)

  pub migrate : ℕ → List TxOut → Option Error → S → Option (Outcome (Unit {0}) × S)
  unfolding migrate_sized
  migrate tries utxos ending s = migrate_sized approximate_size tries utxos ending s
