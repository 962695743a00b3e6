-- ===== src/Utxo/CheckpointFile/Fills.antt =====
-- The file keeps what the store relies on.
use bitcoin_utxo_indexer.Prelude.{
  ℕ, ◌≡◌, ◌≢◌, refl, ap, List, Option, none, some, Bool, true, false,
}
use bitcoin_utxo_indexer.Prelude.Str.{Str}
use bitcoin_utxo_indexer.Utxo.Checkpoint.{UtxoSpendingCheckpoint}
use bitcoin_utxo_indexer.Utxo.Backend.{Backend, IsBackend}
use bitcoin_utxo_indexer.Utxo.CheckpointFile.{
  FileSystem, IsFileSystem, Msgpack, IsMsgpack, CheckpointStore, FileRead, contents, missing,
  unreadable, FileRemoval, removed, not_there, not_removed, last_checkpoint, checkpoint_of,
  decoded_checkpoint, read_answer, save_checkpoint, save_bytes, written, succeeded,
  remove_latest_checkpoint, removal, with_checkpoint_file,
}
use bitcoin_utxo_indexer.Utxo.CheckpointFile.Broken.{last_checkpoint-content}

-- The checkpoint that the bytes of a file stand for.
unfoldable pub checkpoint_in : Msgpack → Option (List ℕ) → Option UtxoSpendingCheckpoint
checkpoint_in codec none = none
checkpoint_in codec (some bs) = codec.unmarshal bs

module _ (fs : FileSystem) (codec : Msgpack) (disk : IsFileSystem fs) (laws : IsMsgpack codec) where
  open fs use {Disk, read_file, write_file, remove_file}
  open disk use {content}

  decoded_answer :
      (c : Option UtxoSpendingCheckpoint) (r : Option UtxoSpendingCheckpoint)
      → read_answer fs codec (decoded_checkpoint fs codec c) ≡ some r
      → r ≡ c
  unfolding read_answer decoded_checkpoint
  decoded_answer none r h = absurd (cc)
  decoded_answer (some c) r h = cc

  answer_reads :
      (d : Disk) (path : Str) (read : FileRead) (r : Option UtxoSpendingCheckpoint)
      → (read_file d path).1 ≡ read
      → read_answer fs codec (checkpoint_of fs codec read) ≡ some r
      → r ≡ checkpoint_in codec (content d path)
  unfolding read_answer checkpoint_of checkpoint_in
  answer_reads d path (contents bs) r e h =
      rw (disk.read_contents d path bs e) (decoded_answer (codec.unmarshal bs) r h)
  answer_reads d path missing r e h = rw (disk.read_missing d path e) (cc)
  answer_reads d path unreadable r e h = absurd (cc)

  pub last_checkpoint_reads :
      (s : CheckpointStore) (d : Disk) (r : Option UtxoSpendingCheckpoint)
      → read_answer fs codec (last_checkpoint fs codec s d).1 ≡ some r
      → r ≡ checkpoint_in codec (content d s.file_path)
  unfolding last_checkpoint
  last_checkpoint_reads s d r h = answer_reads d s.file_path (read_file d s.file_path).1 r refl h

  written_done :
      (w : Disk × Bool) (path : Str) (bs : List ℕ)
      → (w.1 ≡ true → content w.0 path ≡ some bs)
      → succeeded fs codec (written fs codec w).1 ≡ true
      → content (written fs codec w).0 path ≡ some bs
  unfolding written
  written_done (d, true) path bs whole h = whole refl
  written_done (d, false) path bs whole h = absurd (cc)

  removal_done :
      (w : Disk × FileRemoval) (path : Str)
      → (w.1 ≢ not_removed → content w.0 path ≡ none)
      → succeeded fs codec (removal fs codec w).1 ≡ true
      → content (removal fs codec w).0 path ≡ none
  unfolding removal
  removal_done (d, removed) path gone h = gone (λ e. cc)
  removal_done (d, not_there) path gone h = gone (λ e. cc)
  removal_done (d, not_removed) path gone h = absurd (cc)

  saved_bytes :
      (s : CheckpointStore) (d : Disk) (c : UtxoSpendingCheckpoint) (encoded : Option (List ℕ))
      → codec.marshal c ≡ encoded
      → succeeded fs codec (save_bytes fs codec s d encoded).1 ≡ true
      → checkpoint_in codec (content (save_bytes fs codec s d encoded).0 s.file_path) ≡ some c
  unfolding save_bytes written checkpoint_in
  saved_bytes s d c none e h = absurd (cc)
  saved_bytes s d c (some bs) e h =
      rw
        (written_done (write_file d s.file_path bs) s.file_path bs
          (disk.write_done d s.file_path bs) h)
        (laws.unmarshal-marshal c bs e)

  pub save_checkpoint_done :
      (s : CheckpointStore) (d : Disk) (c : UtxoSpendingCheckpoint)
      → succeeded fs codec (save_checkpoint fs codec s d c).1 ≡ true
      → checkpoint_in codec (content (save_checkpoint fs codec s d c).0 s.file_path) ≡ some c
  unfolding save_checkpoint
  save_checkpoint_done s d c h = saved_bytes s d c (codec.marshal c) refl h

  pub remove_latest_checkpoint_done :
      (s : CheckpointStore) (d : Disk)
      → succeeded fs codec (remove_latest_checkpoint fs codec s d).1 ≡ true
      → checkpoint_in codec (content (remove_latest_checkpoint fs codec s d).0 s.file_path) ≡ none
  unfolding remove_latest_checkpoint checkpoint_in
  remove_latest_checkpoint_done s d h =
      rw (removal_done (remove_file d s.file_path) s.file_path (disk.remove_done d s.file_path) h)

-- With a file system and a codec that keep their promises, the checkpoint file keeps those that the
-- store relies on: whatever the file's content is, and whichever calls fail, a checkpoint that is
-- found is the saved one, a saved one is found, and a removed one is gone.
pub with_checkpoint_file-IsBackend :
    (fs : FileSystem) (codec : Msgpack)
    → IsFileSystem fs
    → IsMsgpack codec
    → (b : Backend) → IsBackend b
    → (s : CheckpointStore) → IsBackend (with_checkpoint_file fs codec b s)
with_checkpoint_file-IsBackend fs codec disk laws b bl s = record {
  view = λ w. bl.view w.0;
  file = λ w. checkpoint_in codec (disk.content w.1 s.file_path);
  get-view = λ w k. bl.get-view w.0 k;
  get-file = λ w k. refl;
  get_reads = λ w k r h. bl.get_reads w.0 k r h;
  get_set-view = λ w k. bl.get_set-view w.0 k;
  get_set-file = λ w k. refl;
  get_set_reads = λ w k r h. bl.get_set_reads w.0 k r h;
  mul_get-view = λ w ks. bl.mul_get-view w.0 ks;
  mul_get-file = λ w ks. refl;
  mul_get_reads = λ w ks r h. bl.mul_get_reads w.0 ks r h;
  write-file = λ w c. refl;
  write_done = λ w c h. bl.write_done w.0 c h;
  write_failed = λ w c h. bl.write_failed w.0 c h;
  exec-file = λ w ks cs. refl;
  exec_done = λ w ks cs h. bl.exec_done w.0 ks cs h;
  exec_failed = λ w ks cs h. bl.exec_failed w.0 ks cs h;
  last-view = λ w. refl;
  last-file = λ w. ap (checkpoint_in codec) (last_checkpoint-content fs codec disk s w.1);
  last_reads = λ w r h. last_checkpoint_reads fs codec disk laws s w.1 r h;
  save-view = λ w c. refl;
  save_done = λ w c h. save_checkpoint_done fs codec disk laws s w.1 c h;
  remove-view = λ w. refl;
  remove_done = λ w h. remove_latest_checkpoint_done fs codec disk laws s w.1 h;
  every_lem = bl.every_lem;
  none_of_lem = bl.none_of_lem;
}
