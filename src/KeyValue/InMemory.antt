-- ===== src/KeyValue/InMemory.antt =====
-- keyvalueabstraction/providers/inmemorykvstore/inmemory.go, without the file it persists to. The
-- codec is a library's.
pub mod Refines
pub mod Listing
use bitcoin_utxo_indexer.Prelude.{
  ℕ, zero, suc, Bool, true, false, List, [], ◌∷◌, Option, none, some, if◌then◌else◌,
}
use bitcoin_utxo_indexer.Prelude.Str.{Str, str_eq, GoMap, lookup, insert}
use bitcoin_utxo_indexer.Utxo.Outcome.{Outcome, ok, err, panic, failed}

-- delete(m, k)
unfoldable pub remove {ℓ} : {V : Type ℓ} → GoMap V → Str → GoMap V
remove [] k = []
remove ((j, v) ∷ m) k = let rest = remove m k in if str_eq j k then rest else (j, v) ∷ rest

-- `none` is an error of the codec.
pub record Codec (Value : Type 0) : Type 0 where
  pub marshal : Value → Option (List ℕ)
  pub unmarshal : List ℕ → Option Value

-- `closed` is the state of the channel `closure`.
pub record KvStore : Type 0 where
  pub entries : GoMap (List ℕ)
  pub closed : Bool

abbrev pub new_kv_store : KvStore
new_kv_store = record { entries = []; closed = false }

module _ (Value : Type 0) (codec : Codec Value) where
  unfoldable pub kv_unmarshal : List ℕ → Outcome (Option Value)
  kv_unmarshal bytes = elim (codec.unmarshal bytes) [ none ↦ err failed | some v ↦ ok (some v) ]

  unfoldable pub kv_found : Option (List ℕ) → Outcome (Option Value)
  unfolding kv_unmarshal
  kv_found none = ok none
  kv_found (some bytes) = kv_unmarshal bytes

  -- `ok none` is a key that is not found.
  unfoldable pub kv_get : Str → KvStore → Outcome (Option Value)
  unfolding kv_found
  kv_get key s = kv_found (lookup s.entries key)

  unfoldable pub kv_store : Str → Option (List ℕ) → KvStore → Outcome (Unit {0}) × KvStore
  kv_store key none s = (err failed, s)
  kv_store key (some bytes) s = (ok tt, record s { entries = insert s.entries key bytes })

  unfoldable pub kv_set : Str → Value → KvStore → Outcome (Unit {0}) × KvStore
  unfolding kv_store
  kv_set key v s = kv_store key (codec.marshal v) s

  unfoldable pub kv_delete : Str → KvStore → Outcome (Unit {0}) × KvStore
  kv_delete key s = (ok tt, record s { entries = remove s.entries key })

  unfoldable pub kv_flush : KvStore → Outcome (Unit {0}) × KvStore
  kv_flush s = (ok tt, record s { entries = [] })

  unfoldable pub kv_close : KvStore → Outcome (Unit {0}) × KvStore
  kv_close s = if s.closed then (err failed, s) else (ok tt, record s { closed = true })

  pub kv_delete_by_pattern : Str → KvStore → Outcome (Unit {0}) × KvStore
  kv_delete_by_pattern pattern s = (err failed, s)

  pub kv_mul_get : List Str → KvStore → Outcome (List (Option Value))
  kv_mul_get keys s = err failed

  -- The readers of the mutex; unlocking it without one ends the process.
  unfoldable pub run_unlock : ℕ → Option ℕ
  run_unlock zero = none
  run_unlock (suc readers) = some readers

  -- The deferred unlock of a method that returns `r`.
  unfoldable pub deferred_unlock : Outcome (Unit {0}) → ℕ → Outcome (Unit {0})
  unfolding run_unlock
  deferred_unlock r readers = elim (run_unlock readers) [ none ↦ panic | some _ ↦ r ]

  module _ (S : Type 0) (visit : Str → Option Value → S → Outcome Bool × S) where
    unfoldable pub list_entries : GoMap (List ℕ) → ℕ → S → Outcome (Unit {0}) × S
    list_entries [] readers s = (deferred_unlock (ok tt) readers, s)
    list_entries ((key, bytes) ∷ entries) zero s = (panic, s)
    list_entries ((key, bytes) ∷ entries) (suc readers) s =
        let (r, s') = visit key (codec.unmarshal bytes) s in
        elim r [
          | ok stop ↦ elim stop [
            | false ↦ list_entries entries (suc readers) s'
            | true ↦ (deferred_unlock (ok tt) readers, s')
          ]
          | err e ↦ (deferred_unlock (err e) readers, s')
          | panic ↦ (panic, s')
        ]

    -- `ListKeys` of a mutex that has this many readers.
    unfoldable pub list_keys : ℕ → KvStore → S → Outcome (Unit {0}) × S
    list_keys readers store s = list_entries store.entries (suc readers) s
