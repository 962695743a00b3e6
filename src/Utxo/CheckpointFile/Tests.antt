-- ===== src/Utxo/CheckpointFile/Tests.antt =====
-- A disk in memory, and a codec for the checkpoints that change nothing but the block.
use bitcoin_utxo_indexer.Prelude.{
  ℕ, ◌≡◌, refl, List, [], ◌∷◌, Option, none, some, true, if◌then◌else◌,
}
use bitcoin_utxo_indexer.Prelude.Str.{Str, GoMap, codes, str_eq, str_eq_refl}
use bitcoin_utxo_indexer.Utxo.Outcome.{err, failed}
use bitcoin_utxo_indexer.Utxo.Types.{TransactionOutputs}
use bitcoin_utxo_indexer.Utxo.Checkpoint.{CheckpointBlock, UtxoSpendingCheckpoint}
use bitcoin_utxo_indexer.Utxo.Backend.{IsBackend}
use bitcoin_utxo_indexer.Utxo.Memory.{Memory, memory, memory_laws}
use bitcoin_utxo_indexer.Utxo.Store.Rollback.{new}
use bitcoin_utxo_indexer.Utxo.CheckpointFile.{
  FileSystem, IsFileSystem, Msgpack, IsMsgpack, CheckpointStore, FileRead, contents, missing,
  removed, new_checkpoint_store, with_checkpoint_file,
}
use bitcoin_utxo_indexer.Utxo.CheckpointFile.Fills.{with_checkpoint_file-IsBackend}
use bitcoin_utxo_indexer.Utxo.CheckpointFile.Broken.{new_broken}

abbrev Files : Type 0
Files = Str → Option (List ℕ)

abbrev put : Files → Str → Option (List ℕ) → Files
put d p content q = if str_eq p q then content else d q

abbrev found : Option (List ℕ) → FileRead
found none = missing
found (some bs) = contents bs

abbrev disk : FileSystem
disk = record {
  Disk = Files;
  read_file = λ d p. (d, found (d p));
  write_file = λ d p bs. (put d p (some bs), true);
  remove_file = λ d p. (put d p none, removed);
}

found_contents : (o : Option (List ℕ)) (bs : List ℕ) → found o ≡ contents bs → o ≡ some bs
found_contents none bs h = absurd (cc)
found_contents (some bs') bs h = cc

found_missing : (o : Option (List ℕ)) → found o ≡ missing → o ≡ none
found_missing none h = refl
found_missing (some bs) h = absurd (cc)

abbrev disk_laws : IsFileSystem disk
disk_laws = record {
  content = λ d p. d p;
  read-content = λ d p q. refl;
  read_contents = λ d p bs h. found_contents (d p) bs h;
  read_missing = λ d p h. found_missing (d p) h;
  write_done = λ d p bs h. rw (str_eq_refl p);
  remove_done = λ d p h. rw (str_eq_refl p);
}

encode :
    Option CheckpointBlock
    → CheckpointBlock
    → GoMap TransactionOutputs
    → GoMap (List Str)
    → GoMap TransactionOutputs
    → GoMap (List Str)
    → Option (List ℕ)
encode none block [] [] [] [] = some (block.height ∷ block.hash)
encode _ block _ _ _ _ = none

decode : List ℕ → Option UtxoSpendingCheckpoint
decode [] = none
decode (height ∷ hash) = some (record {
  prev_block = none;
  new_block = record { height = height; hash = hash };
  txs_before_update = [];
  dereferenced_addresses_txs = [];
  new_tx_outputs = [];
  new_address_references = [];
})

decode-encode :
    (prev : Option CheckpointBlock) (block : CheckpointBlock) (before : GoMap TransactionOutputs)
    (left : GoMap (List Str)) (outputs : GoMap TransactionOutputs) (added : GoMap (List Str))
    (bs : List ℕ)
    → encode prev block before left outputs added ≡ some bs
    → decode bs
      ≡ some (record {
        prev_block = prev;
        new_block = block;
        txs_before_update = before;
        dereferenced_addresses_txs = left;
        new_tx_outputs = outputs;
        new_address_references = added;
      })
unfolding encode decode
decode-encode none block [] [] [] [] bs h =
    let same : block.height ∷ block.hash ≡ bs = cc in rw (← same) refl
decode-encode none block [] [] [] (x ∷ xs) bs h = absurd (cc)
decode-encode none block [] [] (x ∷ xs) added bs h = absurd (cc)
decode-encode none block [] (x ∷ xs) outputs added bs h = absurd (cc)
decode-encode none block (x ∷ xs) left outputs added bs h = absurd (cc)
decode-encode (some p) block before left outputs added bs h = absurd (cc)

abbrev codec : Msgpack
codec = record {
  marshal = λ c.
      encode c.prev_block c.new_block c.txs_before_update c.dereferenced_addresses_txs
        c.new_tx_outputs c.new_address_references;
  unmarshal = decode;
}

codec_laws : IsMsgpack codec
codec_laws = record {
  unmarshal-marshal = λ c bs h.
      decode-encode c.prev_block c.new_block c.txs_before_update c.dereferenced_addresses_txs
        c.new_tx_outputs c.new_address_references bs h;
}

abbrev the_file : CheckpointStore
the_file = new_checkpoint_store (codes "c")

with_checkpoint_file-IsBackend_example : IsBackend (with_checkpoint_file disk codec memory the_file)
with_checkpoint_file-IsBackend_example =
    with_checkpoint_file-IsBackend disk codec disk_laws codec_laws memory memory_laws the_file

abbrev no_values : Memory
no_values = record { values = λ k. none; sets = λ k. []; file = none }

-- The file was opened for writing, which cuts it to no bytes, and nothing was written.
abbrev cut : Files
cut = put (λ p. none) (codes "c") (some [])

new_broken_example :
    let opened =
      new (with_checkpoint_file disk codec memory the_file) (codes "1") (no_values, cut) in
    (opened.0 ≡ err failed)
    × (opened.1.0 ≡ no_values)
    × (disk_laws.content opened.1.1 (codes "c") ≡ some [])
unfolding str_eq decode
new_broken_example =
    new_broken disk codec disk_laws memory (codes "1") the_file no_values cut [] refl refl
