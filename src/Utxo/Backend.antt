-- ===== src/Utxo/Backend.antt =====
-- What the store uses of Redis and of the checkpoint file, behind the interfaces
-- keyvaluestore.StoreWithTxManager, sets.SetsWithTxManager, txmanager and CheckpointStore.
-- The libraries are a parameter: `World` is their state, with whatever decides which calls fail.
use bitcoin_utxo_indexer.Prelude.{
  ℕ, Bool, true, false, not, ◌&&◌, ◌||◌, ◌≡◌, ◌⊎◌, Option, none, some, List, [], ◌∷◌, if◌then◌else◌,
  map,
}
use bitcoin_utxo_indexer.Prelude.Str.{Str, str_eq, contains}
use bitcoin_utxo_indexer.Utxo.Types.{TransactionOutput, TransactionOutputs}
use bitcoin_utxo_indexer.Utxo.Checkpoint.{UtxoSpendingCheckpoint}

-- A stored value, as the type that was marshalled; unmarshalling into another type is an error.
pub data Value : Type 0 where
  hash_value : Str → Value
  height_value : ℕ → Value
  outputs_value : TransactionOutputs → Value
  list_value : List (Option TransactionOutput) → Value

-- SET, DEL, SADD and SREM.
pub data Command : Type 0 where
  set_value : Str → Value → Command
  delete : Str → Command
  add_to_set : Str → List Str → Command
  remove_from_set : Str → List Str → Command

-- What the database holds: the value of a key, and which members its set has.
pub record View : Type 0 where
  pub values : Str → Option Value
  pub sets : Str → Str → Bool

-- The documented effect of one command. SET and DEL drop a set of the same key.
abbrev pub apply : Command → View → View
apply (set_value k v) d = record {
  values = λ j. if str_eq k j then some v else d.values j;
  sets = λ j x. if str_eq k j then false else d.sets j x;
}
apply (delete k) d = record {
  values = λ j. if str_eq k j then none else d.values j;
  sets = λ j x. if str_eq k j then false else d.sets j x;
}
apply (add_to_set k xs) d = record {
  values = d.values;
  sets = λ j x. if str_eq k j then contains xs x || d.sets j x else d.sets j x;
}
apply (remove_from_set k xs) d = record {
  values = d.values;
  sets = λ j x. if str_eq k j then not (contains xs x) && d.sets j x else d.sets j x;
}

unfoldable pub apply_all : List Command → View → View
apply_all [] d = d
apply_all (c ∷ cs) d = apply_all cs (apply c d)

-- Is each of `xs` in `ys`; is none of them.
unfoldable pub all_in : List Str → List Str → Bool
all_in ys [] = true
all_in ys (x ∷ xs) = contains ys x && all_in ys xs

unfoldable pub none_in : List Str → List Str → Bool
none_in ys [] = true
none_in ys (x ∷ xs) = not (contains ys x) && none_in ys xs

-- `every` and `none_of` are lo.Every and lo.None. `none` and `false` are errors. `exec` runs the queued commands of a transaction that watches keys.
pub record Backend : Type 1 where
  pub World : Type 0
  pub get : World → Str → World × Option (Option Value)
  pub get_set : World → Str → World × Option (List Str)
  pub mul_get : World → List Str → World × Option (List (Option Value))
  pub write : World → Command → World × Bool
  pub exec : World → List Str → List Command → World × Bool
  pub last_checkpoint : World → World × Option (Option UtxoSpendingCheckpoint)
  pub save_checkpoint : World → UtxoSpendingCheckpoint → World × Bool
  pub remove_latest_checkpoint : World → World × Bool
  pub every : List Str → List Str → Bool
  pub none_of : List Str → List Str → Bool

-- What the documentation promises of them; a MulGet without an error may also list nothing, which is
-- what the Redis provider makes of an MGET that failed. A write that fails may have been made all the same; a
-- transaction is made whole or not at all.
pub record IsBackend (b : Backend) : Type 0 where
  pub view : b.World → View
  pub file : b.World → Option UtxoSpendingCheckpoint
  pub get-view : (w : b.World) (k : Str) → view (b.get w k).0 ≡ view w
  pub get-file : (w : b.World) (k : Str) → file (b.get w k).0 ≡ file w
  pub get_reads :
      (w : b.World) (k : Str) (r : Option Value) → (b.get w k).1 ≡ some r → r ≡ (view w).values k
  pub get_set-view : (w : b.World) (k : Str) → view (b.get_set w k).0 ≡ view w
  pub get_set-file : (w : b.World) (k : Str) → file (b.get_set w k).0 ≡ file w
  pub get_set_reads :
      (w : b.World) (k : Str) (r : List Str)
      → (b.get_set w k).1 ≡ some r
      → (x : Str) → contains r x ≡ (view w).sets k x
  pub mul_get-view : (w : b.World) (ks : List Str) → view (b.mul_get w ks).0 ≡ view w
  pub mul_get-file : (w : b.World) (ks : List Str) → file (b.mul_get w ks).0 ≡ file w
  pub mul_get_reads :
      (w : b.World) (ks : List Str) (r : List (Option Value))
      → (b.mul_get w ks).1 ≡ some r
      → (r ≡ map (view w).values ks) ⊎ (r ≡ [])
  pub write-file : (w : b.World) (c : Command) → file (b.write w c).0 ≡ file w
  pub write_done :
      (w : b.World) (c : Command) → (b.write w c).1 ≡ true → view (b.write w c).0 ≡ apply c (view w)
  pub write_failed :
      (w : b.World) (c : Command)
      → (b.write w c).1 ≡ false
      → (view (b.write w c).0 ≡ view w) ⊎ (view (b.write w c).0 ≡ apply c (view w))
  pub exec-file :
      (w : b.World) (ks : List Str) (cs : List Command) → file (b.exec w ks cs).0 ≡ file w
  pub exec_done :
      (w : b.World) (ks : List Str) (cs : List Command)
      → (b.exec w ks cs).1 ≡ true
      → view (b.exec w ks cs).0 ≡ apply_all cs (view w)
  pub exec_failed :
      (w : b.World) (ks : List Str) (cs : List Command)
      → (b.exec w ks cs).1 ≡ false
      → (view (b.exec w ks cs).0 ≡ view w) ⊎ (view (b.exec w ks cs).0 ≡ apply_all cs (view w))
  pub last-view : (w : b.World) → view (b.last_checkpoint w).0 ≡ view w
  pub last-file : (w : b.World) → file (b.last_checkpoint w).0 ≡ file w
  pub last_reads :
      (w : b.World) (r : Option UtxoSpendingCheckpoint)
      → (b.last_checkpoint w).1 ≡ some r
      → r ≡ file w
  pub save-view :
      (w : b.World) (c : UtxoSpendingCheckpoint) → view (b.save_checkpoint w c).0 ≡ view w
  pub save_done :
      (w : b.World) (c : UtxoSpendingCheckpoint)
      → (b.save_checkpoint w c).1 ≡ true
      → file (b.save_checkpoint w c).0 ≡ some c
  pub remove-view : (w : b.World) → view (b.remove_latest_checkpoint w).0 ≡ view w
  pub remove_done :
      (w : b.World)
      → (b.remove_latest_checkpoint w).1 ≡ true
      → file (b.remove_latest_checkpoint w).0 ≡ none
  pub every_lem : (ys xs : List Str) → b.every ys xs ≡ all_in ys xs
  pub none_of_lem : (ys xs : List Str) → b.none_of ys xs ≡ none_in ys xs
