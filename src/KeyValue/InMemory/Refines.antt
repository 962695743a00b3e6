-- ===== src/KeyValue/InMemory/Refines.antt =====
-- The store in memory does what a map from keys to values does.
use bitcoin_utxo_indexer.Prelude.{
  ℕ, List, [], ◌∷◌, Option, none, some, ◌≡◌, refl, if◌then◌else◌, arith, Bool-cases, inl, inr,
}
use bitcoin_utxo_indexer.Prelude.Str.{Str, str_eq, str_eq_iff, GoMap, lookup, lookup-insert}
use bitcoin_utxo_indexer.Utxo.Outcome.{ok}
use bitcoin_utxo_indexer.KeyValue.InMemory.{
  remove, Codec, KvStore, new_kv_store, kv_unmarshal, kv_get, kv_set, kv_store, kv_found, kv_delete,
  kv_flush,
}

pub lookup-remove {ℓ} :
    {V : Type ℓ} (m : GoMap V) (k j : Str)
    → lookup (remove m k) j ≡ (if str_eq k j then none else lookup m j)
unfolding lookup remove
lookup-remove [] k j = ground arith
lookup-remove ((i, v) ∷ m) k j =
    ground (arith, str_eq_iff k j, str_eq_iff i k, str_eq_iff i j, lookup-remove m k j)

-- The calls that change the store.
pub data Call (Value : Type 0) : Type 0 where
  set_call : Str → Value → Call Value
  delete_call : Str → Call Value
  flush_call : Call Value

module _ (Value : Type 0) (codec : Codec Value) where
  pub call : Call Value → KvStore → KvStore
  call (set_call k v) s = (kv_set Value codec k v s).1
  call (delete_call k) s = (kv_delete Value codec k s).1
  call flush_call s = (kv_flush Value codec s).1

  pub calls : List (Call Value) → KvStore → KvStore
  unfolding call
  calls [] s = s
  calls (c ∷ cs) s = calls cs (call c s)

  spec_set : Option (List ℕ) → Str → Value → (Str → Option Value) → Str → Option Value
  spec_set none k v f j = f j
  spec_set (some bytes) k v f j = if str_eq k j then some v else f j

  -- The map after a call; a value that the codec refuses changes nothing.
  pub spec : Call Value → (Str → Option Value) → Str → Option Value
  unfolding spec_set
  spec (set_call k v) f j = spec_set (codec.marshal v) k v f j
  spec (delete_call k) f j = if str_eq k j then none else f j
  spec flush_call f j = none

  pub specs : List (Call Value) → (Str → Option Value) → Str → Option Value
  unfolding spec
  specs [] f = f
  specs (c ∷ cs) f = specs cs (spec c f)

  module _
      (round_trip : (v : Value) (bytes : List ℕ)
        → codec.marshal v ≡ some bytes
        → codec.unmarshal bytes ≡ some v) where
    -- Reading any key gives what the map has.
    Agrees : KvStore → (Str → Option Value) → Type 0
    Agrees s f = (k : Str) → kv_found Value codec (lookup s.entries k) ≡ ok (f k)

    store-Agrees :
        (o : Option (List ℕ)) (k : Str) (v : Value) (s : KvStore) (f : Str → Option Value)
        → codec.marshal v ≡ o
        → Agrees s f
        → Agrees (kv_store Value codec k o s).1 (spec_set o k v f)
    unfolding Agrees kv_store spec_set kv_found kv_unmarshal
    store-Agrees none k v s f e agrees j = agrees j
    store-Agrees (some bytes) k v s f e agrees j =
        let found = lookup-insert s.entries k j bytes in
        elim (Bool-cases (str_eq k j)) [
          | inl own ↦ rw (found, own) (rw (kv_unmarshal, round_trip v bytes e) refl)
          | inr other ↦ rw (found, other) (agrees j)
        ]

    call-Agrees :
        (c : Call Value) (s : KvStore) (f : Str → Option Value)
        → Agrees s f
        → Agrees (call c s) (spec c f)
    unfolding Agrees call spec kv_set kv_delete kv_flush kv_found lookup
    call-Agrees (set_call k v) s f agrees j = store-Agrees (codec.marshal v) k v s f refl agrees j
    call-Agrees (delete_call k) s f agrees j =
        let found = lookup-remove s.entries k j in
        elim (Bool-cases (str_eq k j)) [
          | inl own ↦ rw (found, own) refl
          | inr other ↦ rw (found, other) (agrees j)
        ]
    call-Agrees flush_call s f agrees j = refl

    calls-Agrees :
        (cs : List (Call Value)) (s : KvStore) (f : Str → Option Value)
        → Agrees s f
        → Agrees (calls cs s) (specs cs f)
    unfolding calls specs
    calls-Agrees [] s f agrees = agrees
    calls-Agrees (c ∷ cs) s f agrees =
        calls-Agrees cs (call c s) (spec c f) (call-Agrees c s f agrees)

    -- Where the codec reads back what it writes, after any calls of Set, Delete and Flush on a new store
    -- Get finds under every key what a map finds after the same changes, and does not fail.
    pub calls-specs :
        (cs : List (Call Value)) (k : Str)
        → kv_get Value codec k (calls cs new_kv_store) ≡ ok (specs cs (λ j. none) k)
    unfolding kv_get Agrees kv_found lookup
    calls-specs cs k = calls-Agrees cs new_kv_store (λ j. none) (λ j. refl) k
