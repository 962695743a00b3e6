-- ===== src/Utxo/CheckpointFile/Broken.antt =====
-- A checkpoint file that was cut short.
use bitcoin_utxo_indexer.Prelude.{ℕ, ◌≡◌, refl, sym, ◌∙◌, List, some, none}
use bitcoin_utxo_indexer.Prelude.Str.{Str}
use bitcoin_utxo_indexer.Utxo.Outcome.{err, failed}
use bitcoin_utxo_indexer.Utxo.Backend.{Backend}
use bitcoin_utxo_indexer.Utxo.Store.Rollback.{new}
use bitcoin_utxo_indexer.Utxo.Store.Rollback.Unread.{new_unread}
use bitcoin_utxo_indexer.Utxo.CheckpointFile.{
  FileSystem, IsFileSystem, Msgpack, CheckpointStore, FileRead, contents, missing, unreadable,
  last_checkpoint, checkpoint_of, decoded_checkpoint, read_answer, with_checkpoint_file,
}

module _ (fs : FileSystem) (codec : Msgpack) (disk : IsFileSystem fs) where
  open fs use {Disk, read_file}
  open disk use {content}

  broken_answer :
      (d : Disk) (path : Str) (bs : List ℕ) (read : FileRead)
      → content d path ≡ some bs
      → codec.unmarshal bs ≡ none
      → (read_file d path).1 ≡ read
      → read_answer fs codec (checkpoint_of fs codec read) ≡ none
  unfolding read_answer checkpoint_of decoded_checkpoint
  broken_answer d path bs (contents bs') there bad e =
      let same : some bs' ≡ some bs = sym (disk.read_contents d path bs' e) ∙ there in
      let same' : bs' ≡ bs = cc in rw (same', bad)
  broken_answer d path bs missing there bad e = absurd (let gone = disk.read_missing d path e in cc)
  broken_answer d path bs unreadable there bad e = refl

  broken_last_checkpoint :
      (s : CheckpointStore) (d : Disk) (bs : List ℕ)
      → content d s.file_path ≡ some bs
      → codec.unmarshal bs ≡ none
      → read_answer fs codec (last_checkpoint fs codec s d).1 ≡ none
  unfolding last_checkpoint
  broken_last_checkpoint s d bs there bad =
      broken_answer d s.file_path bs (read_file d s.file_path).1 there bad refl

  pub last_checkpoint-content :
      (s : CheckpointStore) (d : Disk)
      → content (last_checkpoint fs codec s d).0 s.file_path ≡ content d s.file_path
  unfolding last_checkpoint
  last_checkpoint-content s d = disk.read-content d s.file_path s.file_path

-- While the checkpoint file holds bytes that are no checkpoint, as after a write that was cut
-- short, `New` ends with an error, whatever the database holds, and leaves the file's bytes and
-- the database as they are.
pub new_broken :
    (fs : FileSystem) (codec : Msgpack) (disk : IsFileSystem fs) (b : Backend) (ver : Str)
    (s : CheckpointStore) (w : b.World) (d : fs.Disk) (bs : List ℕ)
    → disk.content d s.file_path ≡ some bs
    → codec.unmarshal bs ≡ none
    → let opened = new (with_checkpoint_file fs codec b s) ver (w, d) in
      (opened.0 ≡ err failed) × (opened.1.0 ≡ w) × (disk.content opened.1.1 s.file_path ≡ some bs)
new_broken fs codec disk b ver s w d bs there bad =
    let ended =
      new_unread (with_checkpoint_file fs codec b s) ver (w, d)
        (broken_last_checkpoint fs codec disk s d bs there bad) in
    rw ended (refl, refl, last_checkpoint-content fs codec disk s d ∙ there)
