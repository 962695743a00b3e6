-- ===== src/Utxo/CheckpointFile.antt =====
-- internal/pkg/utxo/checkpointstore/checkpointsstore.go: the file that holds the checkpoint of a
-- commit. The file system and msgpack are parameters; with them the three operations take the
-- place of the checkpoint store in a backend.
mod Fills
mod Broken
mod Tests
use bitcoin_utxo_indexer.Prelude.{ℕ, ◌≡◌, ◌≢◌, List, Option, none, some, Bool, true, false}
use bitcoin_utxo_indexer.Prelude.Str.{Str}
use bitcoin_utxo_indexer.Utxo.Checkpoint.{UtxoSpendingCheckpoint}
use bitcoin_utxo_indexer.Utxo.Backend.{Backend}

-- What os.ReadFile and os.Remove end with; `missing` is an error of os.IsNotExist.
pub data FileRead : Type 0 where
  contents : List ℕ → FileRead
  missing : FileRead
  unreadable : FileRead

pub data FileRemoval : Type 0 where
  removed : FileRemoval
  not_there : FileRemoval
  not_removed : FileRemoval

-- os.ReadFile, os.WriteFile, os.Remove, and msgpack's Marshal and Unmarshal.
pub record FileSystem : Type 1 where
  pub Disk : Type 0
  pub read_file : Disk → Str → Disk × FileRead
  pub write_file : Disk → Str → List ℕ → Disk × Bool
  pub remove_file : Disk → Str → Disk × FileRemoval

pub record Msgpack : Type 0 where
  pub marshal : UtxoSpendingCheckpoint → Option (List ℕ)
  pub unmarshal : List ℕ → Option UtxoSpendingCheckpoint

pub record IsFileSystem (fs : FileSystem) : Type 0 where
  pub content : fs.Disk → Str → Option (List ℕ)
  pub read-content : (d : fs.Disk) (p q : Str) → content (fs.read_file d p).0 q ≡ content d q
  pub read_contents :
      (d : fs.Disk) (p : Str) (bs : List ℕ)
      → (fs.read_file d p).1 ≡ contents bs
      → content d p ≡ some bs
  pub read_missing : (d : fs.Disk) (p : Str) → (fs.read_file d p).1 ≡ missing → content d p ≡ none
  pub write_done :
      (d : fs.Disk) (p : Str) (bs : List ℕ)
      → (fs.write_file d p bs).1 ≡ true
      → content (fs.write_file d p bs).0 p ≡ some bs
  pub remove_done :
      (d : fs.Disk) (p : Str)
      → (fs.remove_file d p).1 ≢ not_removed
      → content (fs.remove_file d p).0 p ≡ none

pub record IsMsgpack (codec : Msgpack) : Type 0 where
  pub unmarshal-marshal :
      (c : UtxoSpendingCheckpoint) (bs : List ℕ)
      → codec.marshal c ≡ some bs
      → codec.unmarshal bs ≡ some c

pub record CheckpointStore : Type 0 where
  pub file_path : Str

abbrev pub new_checkpoint_store : Str → CheckpointStore
new_checkpoint_store path = record { file_path = path }

-- The errors, by what the messages say of them.
pub data CheckpointFileError : Type 0 where
  failed_to_read : CheckpointFileError
  failed_to_decode : CheckpointFileError
  failed_to_encode : CheckpointFileError
  failed_to_save : CheckpointFileError
  failed_to_remove : CheckpointFileError

module _ (fs : FileSystem) (codec : Msgpack) where
  open fs use {Disk, read_file, write_file, remove_file}

  -- The triple that `LastCheckpoint` returns.
  abbrev pub LastCheckpoint : Type 0
  LastCheckpoint = Bool × Option UtxoSpendingCheckpoint × Option CheckpointFileError

  pub decoded_checkpoint : Option UtxoSpendingCheckpoint → LastCheckpoint
  decoded_checkpoint none = (true, none, some failed_to_decode)
  decoded_checkpoint (some c) = (true, some c, none)

  pub checkpoint_of : FileRead → LastCheckpoint
  unfolding decoded_checkpoint
  checkpoint_of (contents bs) = decoded_checkpoint (codec.unmarshal bs)
  checkpoint_of missing = (false, none, none)
  checkpoint_of unreadable = (true, none, some failed_to_read)

  pub last_checkpoint : CheckpointStore → Disk → Disk × LastCheckpoint
  unfolding checkpoint_of
  last_checkpoint s d = let (d', read) = read_file d s.file_path in (d', checkpoint_of read)

  pub written : Disk × Bool → Disk × Option CheckpointFileError
  written (d, true) = (d, none)
  written (d, false) = (d, some failed_to_save)

  pub save_bytes : CheckpointStore → Disk → Option (List ℕ) → Disk × Option CheckpointFileError
  unfolding written
  save_bytes s d none = (d, some failed_to_encode)
  save_bytes s d (some bs) = written (write_file d s.file_path bs)

  pub save_checkpoint :
      CheckpointStore → Disk → UtxoSpendingCheckpoint → Disk × Option CheckpointFileError
  unfolding save_bytes
  save_checkpoint s d c = save_bytes s d (codec.marshal c)

  -- `err != nil && !os.IsNotExist(err)`
  pub removal : Disk × FileRemoval → Disk × Option CheckpointFileError
  removal (d, removed) = (d, none)
  removal (d, not_there) = (d, none)
  removal (d, not_removed) = (d, some failed_to_remove)

  pub remove_latest_checkpoint : CheckpointStore → Disk → Disk × Option CheckpointFileError
  unfolding removal
  remove_latest_checkpoint s d = removal (remove_file d s.file_path)

  -- How the store reads the answers: an error first, then whether there is a checkpoint.
  pub read_answer : LastCheckpoint → Option (Option UtxoSpendingCheckpoint)
  read_answer (exists, c, some e) = none
  read_answer (true, c, none) = some c
  read_answer (false, c, none) = some none

  abbrev pub succeeded : Option CheckpointFileError → Bool
  succeeded none = true
  succeeded (some e) = false

  -- A backend whose checkpoints are in the file.
  abbrev pub with_checkpoint_file : Backend → CheckpointStore → Backend
  with_checkpoint_file b s = record {
    World = b.World × Disk;
    get = λ w k. let (v, r) = b.get w.0 k in ((v, w.1), r);
    get_set = λ w k. let (v, r) = b.get_set w.0 k in ((v, w.1), r);
    mul_get = λ w ks. let (v, r) = b.mul_get w.0 ks in ((v, w.1), r);
    write = λ w c. let (v, r) = b.write w.0 c in ((v, w.1), r);
    exec = λ w ks cs. let (v, r) = b.exec w.0 ks cs in ((v, w.1), r);
    last_checkpoint = λ w. let (d, r) = last_checkpoint s w.1 in ((w.0, d), read_answer r);
    save_checkpoint = λ w c. let (d, e) = save_checkpoint s w.1 c in ((w.0, d), succeeded e);
    remove_latest_checkpoint =
        λ w. let (d, e) = remove_latest_checkpoint s w.1 in ((w.0, d), succeeded e);
    every = b.every;
    none_of = b.none_of;
  }
