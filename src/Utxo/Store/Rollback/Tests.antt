-- ===== src/Utxo/Store/Rollback/Tests.antt =====
-- A block that spends one transaction and makes another, over the backend in memory.
use bitcoin_utxo_indexer.Prelude.{
  ◌≡◌, ◌≢◌, refl, sym, arith, true, false, inl, [], ◌∷◌, Option, none, some, if◌then◌else◌,
}
use bitcoin_utxo_indexer.Prelude.Str.{
  Str, codes, str_eq, str_eq_iff, str_eq_refl, lookup, Distinct, contains,
}
use bitcoin_utxo_indexer.Utxo.Outcome.{Outcome, ok, err, panic, inconsistence_state}
use bitcoin_utxo_indexer.Utxo.Types.{TransactionOutput, TransactionOutputs}
use bitcoin_utxo_indexer.Utxo.Key.{to_string, new_block_hash_key}
use bitcoin_utxo_indexer.Utxo.Key.Distinct.{
  height_key, hash_key, tx_key, address_key, hash_key-tx_key, height_key-tx_key, tx_key-tx_key,
  hash_key-height_key, address_key-address_key,
}
use bitcoin_utxo_indexer.Utxo.Checkpoint.{CheckpointBlock, UtxoSpendingCheckpoint}
use bitcoin_utxo_indexer.Utxo.Backend.{hash_value, height_value, outputs_value, apply_all}
use bitcoin_utxo_indexer.Utxo.Memory.{Memory, memory, memory_laws, view_of}
use bitcoin_utxo_indexer.Utxo.Store.{
  Store, transaction_commands, commit_checkpoint, read_block_hash, decode_hash, write_block_hash,
  write_block_height, delete_address_tx_ids, add_address_tx_ids, delete_outputs,
  write_transaction_outputs, remove_latest_checkpoint,
}
use bitcoin_utxo_indexer.Utxo.Method.{for_each}
use bitcoin_utxo_indexer.Utxo.Store.Commit.{IsApplied, transaction_commands-IsApplied}
use bitcoin_utxo_indexer.Utxo.Store.Atomic.{
  CommitResult, commit_checkpoint-CommitResult, commit_checkpoint-refused,
}
use bitcoin_utxo_indexer.Utxo.Store.Rollback.{down_checkpoint, new}
use bitcoin_utxo_indexer.Utxo.Store.Rollback.Restores.{
  Describes, Between, SameIndex, down_checkpoint-Between, down_checkpoint-SameIndex,
  down_checkpoint-restores,
}
use bitcoin_utxo_indexer.Utxo.Store.Rollback.Recovery.{Recovered, new-Recovered}

abbrev ver : Str
ver = codes "1"

abbrev t₁ : Str
t₁ = codes "x"

abbrev t₂ : Str
t₂ = codes "y"

abbrev addr : Str
addr = codes "a"

abbrev old_owner : Str
old_owner = codes "o"

abbrev coin : Option TransactionOutput
coin = some (record { compressed_script = 0 ∷ []; compressed_amount = 9 })

abbrev entry_before : TransactionOutputs
entry_before = record { block_height = 6; outputs = coin ∷ [] }

abbrev entry_after : TransactionOutputs
entry_after = record { block_height = 6; outputs = none ∷ [] }

abbrev entry_new : TransactionOutputs
entry_new = record { block_height = 8; outputs = coin ∷ [] }

abbrev block₇ : CheckpointBlock
block₇ = record { height = 7; hash = codes "h7" }

abbrev block₈ : CheckpointBlock
block₈ = record { height = 8; hash = codes "h8" }

abbrev c₈ : UtxoSpendingCheckpoint
c₈ = record {
  prev_block = some block₇;
  new_block = block₈;
  txs_before_update = (t₁, entry_before) ∷ [];
  dereferenced_addresses_txs = (old_owner, t₁ ∷ []) ∷ [];
  new_tx_outputs = (t₁, entry_after) ∷ (t₂, entry_new) ∷ [];
  new_address_references = (addr, t₂ ∷ []) ∷ [];
}

-- The database at block 7, with the checkpoint of block 8 on file.
abbrev m₇ : Memory
m₇ = record {
  values = λ k.
      if str_eq (hash_key ver) k
      then some (hash_value (codes "h7"))
      else (if str_eq (height_key ver) k
          then some (height_value 7)
          else (if str_eq (tx_key ver t₁) k then some (outputs_value entry_before) else none));
  sets = λ k. if str_eq (address_key ver old_owner) k then t₁ ∷ [] else [];
  file = some c₈;
}

abbrev s₇ : Store memory
s₇ = record { world = m₇; is_consist = true }

apart : (a : Str) → str_eq addr a ≡ true → str_eq old_owner a ≡ false
unfolding str_eq
apart a h = rw (sym ((str_eq_iff addr a).0 h)) refl

two_keys : Distinct c₈.new_tx_outputs
unfolding lookup str_eq
two_keys = (refl, (refl, tt))

describes : Describes ver c₈ block₇ (view_of m₇)
unfolding lookup contains
describes = record {
  previous_block = refl;
  hash = rw (str_eq_refl (hash_key ver)) refl;
  height = rw (hash_key-height_key ver, str_eq_refl (height_key ver)) refl;
  before = λ t entry h.
      rw (hash_key-tx_key ver t, height_key-tx_key ver t, tx_key-tx_key ver t₁ t) (ground arith);
  absent = λ t entry h k.
      rw (hash_key-tx_key ver t, height_key-tx_key ver t, tx_key-tx_key ver t₁ t) (ground arith);
  referenced = λ a x h. rw (address_key-address_key ver old_owner a) (ground arith);
  fresh = λ a x h. rw (address_key-address_key ver old_owner a) (ground (arith, apart a));
  distinct_before = (refl, tt);
  distinct_new = two_keys;
}

between : Between ver c₈ (view_of m₇) (view_of m₇)
between = record { outputs = λ t new before. refl; members = λ a x new old. refl }

transaction_commands-IsApplied_example :
    IsApplied ver c₈ (view_of m₇) (apply_all (transaction_commands memory ver c₈) (view_of m₇))
transaction_commands-IsApplied_example =
    transaction_commands-IsApplied memory ver c₈ (view_of m₇) two_keys

commit_checkpoint-CommitResult_example :
    CommitResult memory memory_laws
      (view_of m₇)
      (apply_all (transaction_commands memory ver c₈) (view_of m₇))
      c₈
      (commit_checkpoint memory ver c₈ s₇).0
      (commit_checkpoint memory ver c₈ s₇).1
commit_checkpoint-CommitResult_example =
    commit_checkpoint-CommitResult memory memory_laws ver c₈ s₇ refl

commit_checkpoint-refused_example :
    commit_checkpoint memory ver c₈ (record { world = m₇; is_consist = false })
    ≡ (err inconsistence_state, record { world = m₇; is_consist = false })
commit_checkpoint-refused_example =
    commit_checkpoint-refused memory memory_laws ver c₈ (record { world = m₇; is_consist = false })
      refl

down_checkpoint-Between_example :
    Between ver c₈ (view_of m₇) (view_of (down_checkpoint memory ver c₈ s₇).1.world)
down_checkpoint-Between_example =
    down_checkpoint-Between ver c₈ (view_of m₇) block₇ describes memory memory_laws s₇ between

down_checkpoint-restores_example :
    ((down_checkpoint memory ver c₈ s₇).0 ≡ ok tt)
    × SameIndex ver (view_of m₇) (view_of (down_checkpoint memory ver c₈ s₇).1.world)
down_checkpoint-restores_example =
    down_checkpoint-restores ver c₈ (view_of m₇) block₇ describes memory memory_laws (λ w cmd. refl)
      s₇ between

ended : (down_checkpoint memory ver c₈ s₇).0 ≡ ok tt
ended =
    (down_checkpoint-restores ver c₈ (view_of m₇) block₇ describes memory memory_laws
      (λ w cmd. refl) s₇ between).0

down_checkpoint-SameIndex_example :
    SameIndex ver (view_of m₇) (view_of (down_checkpoint memory ver c₈ s₇).1.world)
down_checkpoint-SameIndex_example =
    down_checkpoint-SameIndex ver c₈ (view_of m₇) block₇ describes memory memory_laws s₇ between
      ended

-- The store that is opened at block 7 takes the checkpoint back.
abbrev reopened : Outcome (Store memory)
reopened = (new memory ver m₇).0

abbrev reopened_store : Outcome (Store memory) → Store memory
reopened_store (ok s) = s
reopened_store (err e) = s₇
reopened_store panic = s₇

different : block₇.hash ≢ block₈.hash
different h = ground arith

opens : reopened ≡ ok (reopened_store reopened)
unfolding new read_block_hash str_eq to_string new_block_hash_key decode_hash write_block_hash
    write_block_height for_each delete_address_tx_ids add_address_tx_ids lookup delete_outputs
    write_transaction_outputs remove_latest_checkpoint
opens = refl

new-Recovered_example :
    (memory_laws.file (reopened_store reopened).world ≡ none)
    × Recovered memory memory_laws ver
        (view_of m₇)
        (apply_all (transaction_commands memory ver c₈) (view_of m₇))
        (reopened_store reopened)
new-Recovered_example =
    new-Recovered memory memory_laws ver c₈ block₇ (view_of m₇) describes m₇
      (reopened_store reopened) different (inl refl) refl opens
