-- ===== src/KeyValue/InMemory/Listing.antt =====
-- `ListKeys` unlocks the mutex twice when it is stopped.
use bitcoin_utxo_indexer.Prelude.{
  ℕ, Bool, true, false, ◌&&◌, List, [], ◌∷◌, Option, ◌≡◌, refl, inl, inr, ◌⊎◌, if◌then◌else◌,
}
use bitcoin_utxo_indexer.Prelude.Str.{Str, GoMap}
use bitcoin_utxo_indexer.Utxo.Outcome.{Error, Outcome, ok, err, panic}
use bitcoin_utxo_indexer.KeyValue.InMemory.{
  Codec, KvStore, run_unlock, deferred_unlock, list_entries, list_keys,
}

goes_on : Outcome Bool → Bool
goes_on (ok false) = true
goes_on _ = false

visit_cases :
    (r : Outcome Bool)
    → (r ≡ ok false) ⊎ ((r ≡ ok true) ⊎ (((e : Error) × (r ≡ err e)) ⊎ (r ≡ panic)))
visit_cases (ok false) = inl refl
visit_cases (ok true) = inr (inl refl)
visit_cases (err e) = inr (inr (inl (e, refl)))
visit_cases panic = inr (inr (inr refl))

module _ (Value : Type 0) (codec : Codec Value) (S : Type 0)
    (visit : Str → Option Value → S → Outcome Bool × S) where
  -- The callback asks for the next key at every entry.
  pub visits_all : GoMap (List ℕ) → S → Bool
  unfolding goes_on
  visits_all [] s = true
  visits_all ((key, bytes) ∷ entries) s =
      let (r, s') = visit key (codec.unmarshal bytes) s in goes_on r && visits_all entries s'

  list_entries-ends :
      (entries : GoMap (List ℕ)) (s : S)
      → (list_entries Value codec S visit entries 1 s).0
        ≡ (if visits_all entries s then ok tt else panic)
  unfolding list_entries visits_all deferred_unlock run_unlock goes_on
  list_entries-ends [] s = refl
  list_entries-ends ((key, bytes) ∷ entries) s =
      let ih = list_entries-ends entries (visit key (codec.unmarshal bytes) s).1 in
      elim (visit_cases (visit key (codec.unmarshal bytes) s).0) [
        | inl e ↦ rw (list_entries, e) ih
        | inr (inl e) ↦ rw (list_entries, e) refl
        | inr (inr (inl (x, e))) ↦ rw (list_entries, e) refl
        | inr (inr (inr e)) ↦ rw (list_entries, e) refl
      ]

  -- On a store that no one else reads, `ListKeys` returns without an error when its callback asks for
  -- the next key at every entry; when the callback stops or fails, the process ends, since the mutex is
  -- unlocked a second time.
  pub list_keys-ends :
      (store : KvStore) (s : S)
      → (list_keys Value codec S visit 0 store s).0
        ≡ (if visits_all store.entries s then ok tt else panic)
  unfolding list_keys
  list_keys-ends store s = list_entries-ends store.entries s
