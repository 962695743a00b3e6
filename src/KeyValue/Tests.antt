-- ===== src/KeyValue/Tests.antt =====
-- Bytes that are their own encoding, in a store with two keys.
use bitcoin_utxo_indexer.Prelude.{
  ℕ, Bool, true, false, List, [], ◌∷◌, Option, none, some, ◌≡◌, if◌then◌else◌,
}
use bitcoin_utxo_indexer.Prelude.Str.{Str, codes}
use bitcoin_utxo_indexer.Utxo.Outcome.{Outcome, ok, panic}
use bitcoin_utxo_indexer.KeyValue.InMemory.{Codec, KvStore, new_kv_store, kv_get, list_keys}
use bitcoin_utxo_indexer.KeyValue.InMemory.Refines.{
  Call, set_call, delete_call, calls, specs, calls-specs,
}
use bitcoin_utxo_indexer.KeyValue.InMemory.Listing.{visits_all, list_keys-ends}

abbrev plain : Codec (List ℕ)
plain = record { marshal = λ v. some v; unmarshal = λ bytes. some bytes }

plain_round_trip :
    (v bytes : List ℕ) → plain.marshal v ≡ some bytes → plain.unmarshal bytes ≡ some v
plain_round_trip v bytes h = cc

abbrev changes : List (Call (List ℕ))
changes =
    set_call (codes "a") (1 ∷ []) ∷ set_call (codes "b") (2 ∷ []) ∷ delete_call (codes "a") ∷ []

calls-specs_example :
    kv_get (List ℕ) plain (codes "b") (calls (List ℕ) plain changes new_kv_store)
    ≡ ok (specs (List ℕ) plain changes (λ j. none) (codes "b"))
calls-specs_example = calls-specs (List ℕ) plain plain_round_trip changes (codes "b")

abbrev two_keys : KvStore
two_keys = record { entries = (codes "a", 1 ∷ []) ∷ (codes "b", 2 ∷ []) ∷ []; closed = false }

-- It stops at the first key.
abbrev stop : Str → Option (List ℕ) → ℕ → Outcome Bool × ℕ
stop key v n = (ok true, n)

list_keys-ends_example :
    (list_keys (List ℕ) plain ℕ stop 0 two_keys 0).0
    ≡ (if visits_all (List ℕ) plain ℕ stop two_keys.entries 0 then ok tt else panic)
list_keys-ends_example = list_keys-ends (List ℕ) plain ℕ stop two_keys 0
