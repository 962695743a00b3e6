-- ===== src/Chainstate/Migration/Batches/Behind.antt =====
-- The grouping with entries in front of its batch: they stay in front, and change nothing else.
use bitcoin_utxo_indexer.Prelude.{
  ◌≡◌, refl, Bool, true, false, List, [], ◌∷◌, ◌++◌, append_assoc, Option, some,
}
use bitcoin_utxo_indexer.Prelude.Str.{str_eq}
use bitcoin_utxo_indexer.Utxo.Outcome.{Outcome, ok, err, panic, ◌>>=◌}
use bitcoin_utxo_indexer.Utxo.Types.{Env}
use bitcoin_utxo_indexer.Utxo.Block.{pos}
use bitcoin_utxo_indexer.Chainstate.Coin.{TxOut}
use bitcoin_utxo_indexer.Chainstate.Migration.{
  TxOutputsEntry, Grouping, group_entry, change_transaction, take_utxo, take_utxos, close_group,
  push_element_to_place,
}
use bitcoin_utxo_indexer.Chainstate.Migration.Batches.{with_batch}

abbrev pub behind : List TxOutputsEntry → List TxOutputsEntry → Outcome (List TxOutputsEntry)
behind done entries = ok (done ++ entries)

module _ (env : Env) where
  abbrev pub run : Grouping → List TxOut → Outcome (List TxOutputsEntry)
  run g utxos = take_utxos env g utxos >>= close_group env

  change_behind :
      (same : Bool) (g : Grouping) (done : List TxOutputsEntry) (utxo : TxOut)
      → change_transaction env same (with_batch g (done ++ g.utxo_batch)) utxo
        ≡ (change_transaction env same g utxo >>= λ g'. ok (with_batch g' (done ++ g'.utxo_batch)))
  unfolding change_transaction
  change_behind true g done utxo = refl
  change_behind false g done utxo =
      elim (group_entry env g.current_tx_id g.utxo_by_tx_id)
        as (λ r.
          (r >>= λ entries. ok (record {
            current_tx_id = utxo.tx_id;
            utxo_by_tx_id = [];
            utxo_batch = (done ++ g.utxo_batch) ++ entries;
          }))
          ≡ ((r >>= λ entries. ok (record {
            current_tx_id = utxo.tx_id;
            utxo_by_tx_id = [];
            utxo_batch = g.utxo_batch ++ entries;
          }))
              >>= λ g'. ok (with_batch g' (done ++ g'.utxo_batch)))) [
                | ok entries ↦ rw (append_assoc done g.utxo_batch entries)
                | err e ↦ refl
                | panic ↦ refl
              ]

  -- The grouping with `done` in front of its batch.
  abbrev deferred : List TxOutputsEntry → Grouping → Outcome Grouping
  deferred done g = ok (with_batch g (done ++ g.utxo_batch))

  abbrev push : TxOut → Grouping → Outcome Grouping
  push utxo g = push_element_to_place g.utxo_by_tx_id (some utxo) (pos utxo.index) >>= λ list.
      ok (record g { utxo_by_tx_id = list })

  push_behind :
      (done : List TxOutputsEntry) (g : Grouping) (list : Outcome (List (Option TxOut)))
      → (list >>= λ l. ok (record {
        current_tx_id = g.current_tx_id;
        utxo_by_tx_id = l;
        utxo_batch = done ++ g.utxo_batch;
      }))
        ≡ ((list >>= λ l. ok (record g { utxo_by_tx_id = l })) >>= deferred done)
  push_behind done g (ok l) = refl
  push_behind done g (err e) = refl
  push_behind done g panic = refl

  pushed_behind :
      (done : List TxOutputsEntry) (utxo : TxOut) (r : Outcome Grouping)
      → ((r >>= deferred done) >>= push utxo) ≡ ((r >>= push utxo) >>= deferred done)
  pushed_behind done utxo (ok g) =
      push_behind done g (push_element_to_place g.utxo_by_tx_id (some utxo) (pos utxo.index))
  pushed_behind done utxo (err e) = refl
  pushed_behind done utxo panic = refl

  take_behind :
      (g : Grouping) (done : List TxOutputsEntry) (utxo : TxOut)
      → take_utxo env (with_batch g (done ++ g.utxo_batch)) utxo
        ≡ (take_utxo env g utxo >>= deferred done)
  unfolding take_utxo
  take_behind g done utxo =
      rw (change_behind (str_eq g.current_tx_id utxo.tx_id) g done utxo) (
        pushed_behind done utxo (change_transaction env (str_eq g.current_tx_id utxo.tx_id) g utxo))

  close_behind :
      (done batch : List TxOutputsEntry) (r : Outcome (List TxOutputsEntry))
      → (r >>= λ entries. ok ((done ++ batch) ++ entries))
        ≡ ((r >>= λ entries. ok (batch ++ entries)) >>= behind done)
  close_behind done batch (ok entries) = rw (append_assoc done batch entries)
  close_behind done batch (err e) = refl
  close_behind done batch panic = refl

  rest_behind :
      (done : List TxOutputsEntry) (utxos : List TxOut) (r : Outcome Grouping)
      → ((g : Grouping)
          → run (with_batch g (done ++ g.utxo_batch)) utxos ≡ (run g utxos >>= behind done))
      → (((r >>= deferred done) >>= λ g. take_utxos env g utxos) >>= close_group env)
        ≡ (((r >>= λ g. take_utxos env g utxos) >>= close_group env) >>= behind done)
  rest_behind done utxos (ok g) ih = ih g
  rest_behind done utxos (err e) ih = refl
  rest_behind done utxos panic ih = refl

  -- What stands in the batch already stays in front.
  pub run_behind :
      (utxos : List TxOut) (g : Grouping) (done : List TxOutputsEntry)
      → run (with_batch g (done ++ g.utxo_batch)) utxos ≡ (run g utxos >>= behind done)
  unfolding take_utxos close_group
  run_behind [] g done =
      close_behind done g.utxo_batch (group_entry env g.current_tx_id g.utxo_by_tx_id)
  run_behind (utxo ∷ utxos) g done =
      rw (take_behind g done utxo)
        (rest_behind done utxos (take_utxo env g utxo) (λ g'. run_behind utxos g' done))
