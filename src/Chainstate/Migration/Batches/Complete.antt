-- ===== src/Chainstate/Migration/Batches/Complete.antt =====
-- The batches hold the entries of the grouping, in order.
use bitcoin_utxo_indexer.Prelude.{
  ℕ, zero, suc, ◌≡◌, ◌≢◌, refl, ap, ◌∙◌, sym, Bool, true, false, List, [], ◌∷◌, ◌++◌, append_assoc,
  append-nil, Option, none, some, ◌==◌, length, if◌then◌else◌,
}
use bitcoin_utxo_indexer.Prelude.Str.{Str}
use bitcoin_utxo_indexer.Utxo.Outcome.{Outcome, Error, ok, err, panic, ◌>>=◌}
use bitcoin_utxo_indexer.Utxo.Method.{continue}
use bitcoin_utxo_indexer.Utxo.Types.{Env}
use bitcoin_utxo_indexer.Chainstate.Coin.{TxOut}
use bitcoin_utxo_indexer.Chainstate.Migration.{
  TxOutputsEntry, Grouping, take_utxo, take_utxos, close_group, group_utxos,
}
use bitcoin_utxo_indexer.Chainstate.Migration.Batches.{
  Migration, with_batch, store_full_batch, store_last_batch, set_block, finish_batches, finish,
  after_batch, migrate_loop, migrate_sized, migrate,
}
use bitcoin_utxo_indexer.Chainstate.Migration.Batches.Behind.{behind, run, run_behind}

-- The migration with a list beside its state, of the entries of every batch for which storeUTXOBatch
-- returned nil.
pub taken_by : Outcome (Unit {0}) → List TxOutputsEntry → List TxOutputsEntry
taken_by (ok _) batch = batch
taken_by (err e) batch = []
taken_by panic batch = []

unfoldable pub logged : {S : Type 0} → Migration S → Migration (S × List TxOutputsEntry)
logged m = record {
  approximate_size = m.approximate_size;
  batch_size = m.batch_size;
  store_utxo_batch =
      λ batch w. let (r, s) = m.store_utxo_batch batch w.0 in (r, (s, w.1 ++ taken_by r batch));
  block_hash = m.block_hash;
  chainstate_block_height = m.chainstate_block_height;
  set_block_hash = λ hash w. let (r, s) = m.set_block_hash hash w.0 in (r, (s, w.1));
  set_block_height = λ height w. let (r, s) = m.set_block_height height w.0 in (r, (s, w.1));
  sleep = λ w. (m.sleep w.0, w.1);
}

-- What the list of a `logged` migration does.
record IsBatchStore {S : Type 0} (m : Migration S) : Type 0 where
  pub stored : S → List TxOutputsEntry
  pub batch_ok :
      (batch : List TxOutputsEntry) (s : S)
      → (m.store_utxo_batch batch s).0 ≡ ok tt
      → stored (m.store_utxo_batch batch s).1 ≡ stored s ++ batch
  pub batch_failed :
      (batch : List TxOutputsEntry) (s : S)
      → (m.store_utxo_batch batch s).0 ≢ ok tt
      → stored (m.store_utxo_batch batch s).1 ≡ stored s
  pub sleep-stored : (s : S) → stored (m.sleep s) ≡ stored s
  pub hash-stored : (hash : Str) (s : S) → stored (m.set_block_hash hash s).1 ≡ stored s
  pub height-stored : (height : ℕ) (s : S) → stored (m.set_block_height height s).1 ≡ stored s

module _ (env : Env) {S : Type 0} (m : Migration S) (laws : IsBatchStore m) where
  open m use {
    store_utxo_batch, sleep, set_block_hash, set_block_height, chainstate_block_height, block_hash,
  }
  open laws use {stored}

  -- A result with no error left these entries in the world.
  abbrev Left : List TxOutputsEntry → Option (Outcome (Unit {0}) × S) → Type 0
  Left entries none = Unit
  Left entries (some (ok _, s)) = stored s ≡ entries
  Left entries (some (err e, s)) = Unit
  Left entries (some (panic, s)) = Unit

  try-Left :
      (batch : List TxOutputsEntry) (s : S) (r : Outcome (Unit {0}))
      (again : Option (Outcome (Unit {0}) × S))
      → (store_utxo_batch batch s).0 ≡ r
      → Left (stored (sleep (store_utxo_batch batch s).1) ++ batch) again
      → Left (stored s ++ batch) (elim r as (λ x. Option (Outcome (Unit {0}) × S)) [
        | ok x ↦ some (ok tt, (store_utxo_batch batch s).1)
        | err e ↦ again
        | panic ↦ some (panic, (store_utxo_batch batch s).1)
      ])
  try-Left batch s (ok tt) again e later = laws.batch_ok batch s e
  try-Left batch s (err x) again e later =
      rw (laws.sleep-stored (store_utxo_batch batch s).1, laws.batch_failed batch s (λ h. cc)) at
        later
  try-Left batch s panic again e later = tt

  store_full_batch-Left :
      (tries : ℕ) (batch : List TxOutputsEntry) (s : S)
      → Left (stored s ++ batch) (store_full_batch env m tries batch s)
  unfolding store_full_batch
  store_full_batch-Left zero batch s = tt
  store_full_batch-Left (suc tries) batch s =
      try-Left batch s (store_utxo_batch batch s).0 _ refl
        (store_full_batch-Left tries batch (sleep (store_utxo_batch batch s).1))

  height_after :
      (r : Outcome (Unit {0})) (s : S)
      → stored (continue r (λ _. set_block_height chainstate_block_height) s).1 ≡ stored s
  height_after (ok x) s = laws.height-stored chainstate_block_height s
  height_after (err e) s = refl
  height_after panic s = refl

  set_block-stored : (hash : Outcome Str) (s : S) → stored (set_block env m hash s).1 ≡ stored s
  unfolding set_block
  set_block-stored (ok hash) s =
      height_after (set_block_hash hash s).0 (set_block_hash hash s).1 ∙ laws.hash-stored hash s
  set_block-stored (err e) s = refl
  set_block-stored panic s = refl

  -- A run with no error stored all the entries of `grouped`, behind `before`.
  abbrev Migrated :
      List TxOutputsEntry → Outcome (List TxOutputsEntry) → Option (Outcome (Unit {0}) × S) → Type 0
  Migrated before grouped none = Unit
  Migrated before grouped (some (ok _, s)) =
      (entries : List TxOutputsEntry) × (grouped ≡ ok entries) × (stored s ≡ before ++ entries)
  Migrated before grouped (some (err e, s)) = Unit
  Migrated before grouped (some (panic, s)) = Unit

  -- The last writes behind a last batch.
  block-Migrated :
      (before entries : List TxOutputsEntry) (r : Outcome (Unit {0})) (s : S)
      → stored s ≡ before ++ entries
      → Migrated before (ok entries) (some (r, s))
  block-Migrated before entries (ok x) s e = (entries, refl, e)
  block-Migrated before entries (err x) s e = tt
  block-Migrated before entries panic s e = tt

  after_last-Migrated :
      (before entries : List TxOutputsEntry) (r : Outcome (Unit {0})) (s : S)
      → (r ≡ ok tt → stored s ≡ before ++ entries)
      → Migrated before (ok entries) (some (continue r (λ _. set_block env m block_hash) s))
  after_last-Migrated before entries (ok tt) s e =
      block-Migrated before entries (set_block env m block_hash s).0
        (set_block env m block_hash s).1 (set_block-stored block_hash s ∙ e refl)
  after_last-Migrated before entries (err x) s e = tt
  after_last-Migrated before entries panic s e = tt

  store_last_batch-stored :
      (batch : List TxOutputsEntry) (s : S)
      → (store_last_batch env m batch s).0 ≡ ok tt
      → stored (store_last_batch env m batch s).1 ≡ stored s ++ batch
  unfolding store_last_batch
  store_last_batch-stored [] s h = sym (append-nil (stored s))
  store_last_batch-stored (entry ∷ batch) s h = laws.batch_ok (entry ∷ batch) s h

  finish_batches-Migrated :
      (grouped : Outcome (List TxOutputsEntry)) (s : S)
      → Migrated (stored s) grouped (some (finish_batches env m grouped s))
  unfolding finish_batches
  finish_batches-Migrated (ok batch) s =
      after_last-Migrated (stored s) batch (store_last_batch env m batch s).0
        (store_last_batch env m batch s).1 (store_last_batch-stored batch s)
  finish_batches-Migrated (err e) s = tt
  finish_batches-Migrated panic s = tt

  finish-Migrated :
      (ending : Option Error) (g : Grouping) (s : S)
      → Migrated (stored s) (close_group env g) (some (finish env m ending g s))
  unfolding finish
  finish-Migrated (some e) g s = tt
  finish-Migrated none g s = finish_batches-Migrated (close_group env g) s

  -- A batch that was flushed stands in front of what the rest of the loop stores.
  joined-Migrated :
      (before batch : List TxOutputsEntry) (grouped : Outcome (List TxOutputsEntry))
      (result : Option (Outcome (Unit {0}) × S))
      → Migrated (before ++ batch) grouped result
      → Migrated before (grouped >>= behind batch) result
  joined-Migrated before batch grouped none h = tt
  joined-Migrated before batch grouped (some (ok x, s)) (entries, e, held) =
      (batch ++ entries, rw e, held ∙ append_assoc before batch entries)
  joined-Migrated before batch grouped (some (err x, s)) h = tt
  joined-Migrated before batch grouped (some (panic, s)) h = tt

  flushed-Migrated :
      (before batch : List TxOutputsEntry) (grouped : Outcome (List TxOutputsEntry))
      (tried : Option (Outcome (Unit {0}) × S)) (rest : S → Option (Outcome (Unit {0}) × S))
      → Left (before ++ batch) tried
      → ((s : S) → Migrated (stored s) grouped (rest s))
      → Migrated before (grouped >>= behind batch) (after_batch env m tried rest)
  unfolding after_batch
  flushed-Migrated before batch grouped none rest left h = tt
  flushed-Migrated before batch grouped (some (ok x, s)) rest left h =
      joined-Migrated before batch grouped (rest s) (rw left at (h s))
  flushed-Migrated before batch grouped (some (err x, s)) rest left h = tt
  flushed-Migrated before batch grouped (some (panic, s)) rest left h = tt

  -- One round: the batch is flushed or kept.
  round-Migrated :
      (utxos : List TxOut) (g : Grouping) (s : S) (full : Bool)
      (tried : Option (Outcome (Unit {0}) × S)) (rest : S → Option (Outcome (Unit {0}) × S))
      (kept : Option (Outcome (Unit {0}) × S))
      → Left (stored s ++ g.utxo_batch) tried
      → ((s' : S) → Migrated (stored s') (run env (with_batch g []) utxos) (rest s'))
      → Migrated (stored s) (run env g utxos) kept
      → Migrated (stored s) (run env g utxos) (if full then after_batch env m tried rest else kept)
  round-Migrated utxos g s true tried rest kept left h k =
      rw
        (sym (run_behind env utxos (with_batch g []) g.utxo_batch)
          ∙ ap (λ (batch : List TxOutputsEntry). run env (with_batch g batch) utxos)
              (append-nil g.utxo_batch))
        at
        (flushed-Migrated (stored s) g.utxo_batch (run env (with_batch g []) utxos) tried rest left
          h)
  round-Migrated utxos g s false tried rest kept left h k = k

  taken-Migrated :
      (tries : ℕ) (utxos : List TxOut) (ending : Option Error) (s : S) (r : Outcome Grouping)
      → ((g : Grouping) (s' : S)
          → Migrated (stored s') (run env g utxos) (migrate_loop env m tries utxos ending g s'))
      → Migrated
          (stored s)
          ((r >>= λ g. take_utxos env g utxos) >>= close_group env)
          (elim r as (λ x. Option (Outcome (Unit {0}) × S)) [
            | ok g' ↦
                if length g'.utxo_batch == m.batch_size
                then after_batch env m
                    (store_full_batch env m tries g'.utxo_batch s)
                    (λ s'. migrate_loop env m tries utxos ending (with_batch g' []) s')
                else migrate_loop env m tries utxos ending g' s
            | err e ↦ some (err e, s)
            | panic ↦ some (panic, s)
          ])
  taken-Migrated tries utxos ending s (ok g) ih =
      round-Migrated utxos g s (length g.utxo_batch == m.batch_size)
        (store_full_batch env m tries g.utxo_batch s)
        (λ s'. migrate_loop env m tries utxos ending (with_batch g []) s')
        (migrate_loop env m tries utxos ending g s) (store_full_batch-Left tries g.utxo_batch s)
        (ih (with_batch g [])) (ih g s)
  taken-Migrated tries utxos ending s (err e) ih = tt
  taken-Migrated tries utxos ending s panic ih = tt

  migrate_loop-Migrated :
      (tries : ℕ) (utxos : List TxOut) (ending : Option Error) (g : Grouping) (s : S)
      → Migrated (stored s) (run env g utxos) (migrate_loop env m tries utxos ending g s)
  unfolding migrate_loop take_utxos
  migrate_loop-Migrated tries [] ending g s = finish-Migrated ending g s
  migrate_loop-Migrated tries (utxo ∷ utxos) ending g s =
      taken-Migrated tries utxos ending s (take_utxo env g utxo)
        (λ g' s'. migrate_loop-Migrated tries utxos ending g' s')

  returned_nil :
      (before : List TxOutputsEntry) (grouped : Outcome (List TxOutputsEntry))
      (result : Option (Outcome (Unit {0}) × S)) (s' : S)
      → Migrated before grouped result
      → result ≡ some (ok tt, s')
      → (entries : List TxOutputsEntry) × (grouped ≡ ok entries) × (stored s' ≡ before ++ entries)
  returned_nil before grouped none s' h e = absurd (cc)
  returned_nil before grouped (some (ok tt, s)) s' h e = let same : s ≡ s' = cc in rw same at h
  returned_nil before grouped (some (err x, s)) s' h e = absurd (cc)
  returned_nil before grouped (some (panic, s)) s' h e = absurd (cc)

sized_returned :
    (env : Env) {S : Type 0} (m : Migration S) (keys : Outcome ℕ) (tries : ℕ) (utxos : List TxOut)
    (ending : Option Error) (s s' : S)
    → migrate_sized env m keys tries utxos ending s ≡ some (ok tt, s')
    → migrate_loop env m tries utxos ending
        (record { current_tx_id = []; utxo_by_tx_id = []; utxo_batch = [] })
        s
      ≡ some (ok tt, s')
unfolding migrate_sized
sized_returned env m (ok keys) tries utxos ending s s' h = h
sized_returned env m (err e) tries utxos ending s s' h = absurd (cc)
sized_returned env m panic tries utxos ending s s' h = absurd (cc)

batch_taken :
    (before batch : List TxOutputsEntry) (r : Outcome (Unit {0}))
    → r ≡ ok tt
    → before ++ taken_by r batch ≡ before ++ batch
unfolding taken_by
batch_taken before batch (ok tt) h = refl
batch_taken before batch (err e) h = absurd (cc)
batch_taken before batch panic h = absurd (cc)

batch_left :
    (before batch : List TxOutputsEntry) (r : Outcome (Unit {0}))
    → r ≢ ok tt
    → before ++ taken_by r batch ≡ before
unfolding taken_by
batch_left before batch (ok tt) h = absurd (h refl)
batch_left before batch (err e) h = append-nil before
batch_left before batch panic h = append-nil before

logged-IsBatchStore : {S : Type 0} (m : Migration S) → IsBatchStore (logged m)
unfolding logged
logged-IsBatchStore m = record {
  stored = λ w. w.1;
  batch_ok = λ batch w h. batch_taken w.1 batch (m.store_utxo_batch batch w.0).0 h;
  batch_failed = λ batch w h. batch_left w.1 batch (m.store_utxo_batch batch w.0).0 h;
  sleep-stored = λ w. refl;
  hash-stored = λ hash w. refl;
  height-stored = λ height w. refl;
}

-- When `Migrate` returns nil, whatever storeUTXOBatch does, the size of the batches is, and however
-- often a full one had to be tried again: the batches for which storeUTXOBatch returned nil are
-- together the grouping of the chainstate's outputs by their transactions, which is without an error,
-- every entry once and in its order.
pub migrate-group_utxos :
    (env : Env) {S : Type 0} (m : Migration S) (tries : ℕ) (utxos : List TxOut)
    (ending : Option Error) (s s' : S × List TxOutputsEntry)
    → migrate env (logged m) tries utxos ending s ≡ some (ok tt, s')
    → (entries : List TxOutputsEntry) × (group_utxos env utxos ≡ ok entries)
      × (s'.1 ≡ s.1 ++ entries)
unfolding migrate group_utxos logged-IsBatchStore
migrate-group_utxos env plain tries utxos ending s s' h =
    let m = logged plain in
    let laws : IsBatchStore m = logged-IsBatchStore plain in
    let g : Grouping = record { current_tx_id = []; utxo_by_tx_id = []; utxo_batch = [] } in
    returned_nil env m laws (laws.stored s) (run env g utxos)
      (migrate_loop env m tries utxos ending g s) s'
      (migrate_loop-Migrated env m laws tries utxos ending g s)
      (sized_returned env m m.approximate_size tries utxos ending s s' h)
