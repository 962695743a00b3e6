-- ===== src/Scanner/State.antt =====
-- The hash of the last scanned block, in memory or in a key-value store
-- (blockchainscanner/state/inmemory.go, keyvaluestore.go).
use bitcoin_utxo_indexer.Prelude.{
  ◌≡◌, refl, ◌∙◌, inl, inr, Option, none, some, Bool, true, false, Bool-cases,
}
use bitcoin_utxo_indexer.Prelude.Str.{Str, codes}
use bitcoin_utxo_indexer.Utxo.Outcome.{Outcome, ok, err, failed}
use bitcoin_utxo_indexer.Utxo.Method.{Method}

pub record InMemoryState : Type 0 where
  pub last_scanned_block_hash : Str

abbrev pub new_in_memory_state : Str → InMemoryState
new_in_memory_state hash = record { last_scanned_block_hash = hash }

unfoldable pub get_last_scanned_block_hash : Method InMemoryState Str
get_last_scanned_block_hash s = (ok s.last_scanned_block_hash, s)

unfoldable pub update_last_scanned_block_hash : Str → Method InMemoryState (Unit {0})
update_last_scanned_block_hash hash s = (ok tt, record s { last_scanned_block_hash = hash })

-- keyvaluestore.Store's Get and Set on values that are hashes; `none` and `false` are errors.
pub record HashStore : Type 1 where
  pub World : Type 0
  pub get : World → Str → World × Option (Option Str)
  pub set : World → Str → Str → World × Bool

-- With no call that fails, Get finds what was last set under the key.
pub record IsHashStore (kv : HashStore) : Type 0 where
  pub value : kv.World → Str → Option Str
  pub get_reads :
      (w : kv.World) (k : Str) (r : Option Str) → (kv.get w k).1 ≡ some r → r ≡ value w k
  pub set_done :
      (w : kv.World) (k hash : Str)
      → (kv.set w k hash).1 ≡ true
      → value (kv.set w k hash).0 k ≡ some hash

abbrev pub last_scanned_key : Str
last_scanned_key = codes "lastScannedBlockHash"

module _ (kv : HashStore) (default_start_from_block_hash : Str) where
  pub update_stored_hash : Str → Method kv.World (Unit {0})
  update_stored_hash hash w =
      let (w', done) = kv.set w last_scanned_key hash in
      (elim done [ true ↦ ok tt | false ↦ err failed ], w')

  pub hash_or_default : Option (Option Str) → Outcome Str
  hash_or_default none = err failed
  hash_or_default (some none) = ok default_start_from_block_hash
  hash_or_default (some (some hash)) = ok hash

  pub get_stored_hash : Method kv.World Str
  unfolding hash_or_default
  get_stored_hash w = let (w', r) = kv.get w last_scanned_key in (hash_or_default r, w')

saved_hash :
    (kv : HashStore) (d : Str) (laws : IsHashStore kv) (w : kv.World) (hash : Str)
    → (update_stored_hash kv d hash w).0 ≡ ok tt
    → laws.value (update_stored_hash kv d hash w).1 last_scanned_key ≡ some hash
unfolding update_stored_hash
saved_hash kv d laws w hash saved = elim (Bool-cases (kv.set w last_scanned_key hash).1) [
  | inl done ↦ laws.set_done w last_scanned_key hash done
  | inr bad ↦ absurd (let h : err failed ≡ ok tt = rw bad at saved in cc)
]

read_hash :
    (kv : HashStore) (d : Str) (answer : Option (Option Str)) (hash r : Str)
    → ((o : Option Str) → answer ≡ some o → o ≡ some hash)
    → hash_or_default kv d answer ≡ ok r
    → r ≡ hash
unfolding hash_or_default
read_hash kv d none hash r reads h = absurd (cc)
read_hash kv d (some none) hash r reads h = absurd (let e = reads none refl in cc)
read_hash kv d (some (some found)) hash r reads h = let e = reads (some found) refl in cc

-- A hash that UpdateLastScannedBlockHash saved in a key-value store without an error is the one
-- that GetLastScannedBlockHash gives next when it gives one, and never the default.
pub get-update_stored_hash :
    (kv : HashStore) (default_hash : Str)
    → IsHashStore kv
    → (w : kv.World) (hash r : Str) → (update_stored_hash kv default_hash hash w).0 ≡ ok tt
    → (get_stored_hash kv default_hash (update_stored_hash kv default_hash hash w).1).0 ≡ ok r
    → r ≡ hash
unfolding get_stored_hash
get-update_stored_hash kv d laws w hash r saved read =
    let w' = (update_stored_hash kv d hash w).1 in
    read_hash kv d (kv.get w' last_scanned_key).1 hash r
      (λ o e. laws.get_reads w' last_scanned_key o e ∙ saved_hash kv d laws w hash saved) read
