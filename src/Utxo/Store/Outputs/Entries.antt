-- ===== src/Utxo/Store/Outputs/Entries.antt =====
-- What `MulGet` answers for the keys of transaction ids, as entries of these transactions.
use bitcoin_utxo_indexer.Prelude.{
  ℕ, List, [], ◌∷◌, Option, none, some, ◌≡◌, refl, sym, ap, ◌∙◌, map, get_elem?, inl, inr,
}
use bitcoin_utxo_indexer.Prelude.Among.{Among}
use bitcoin_utxo_indexer.Prelude.Str.{Str}
use bitcoin_utxo_indexer.Utxo.Outcome.{ok, bind_ok, ok_injective}
use bitcoin_utxo_indexer.Utxo.Types.{TransactionOutput, TransactionOutputs}
use bitcoin_utxo_indexer.Utxo.Backend.{Value, hash_value, height_value, outputs_value, list_value}
use bitcoin_utxo_indexer.Utxo.Store.{decode_outputs}
use bitcoin_utxo_indexer.Utxo.Store.Outputs.{decode_entry, decode_entries}

module _ (values : Str → Option Value) (key : Str → Str) where
  pub decode_entries_sound :
      (ids : List Str) (entries : List (Str × TransactionOutputs)) (id : Str)
      (t : TransactionOutputs)
      → decode_entries ids (map values (map key ids)) ≡ ok entries
      → Among (id, t) entries
      → Among id ids × (decode_entry (values (key id)) ≡ ok t)
  unfolding decode_entries
  decode_entries_sound [] entries id t h m =
      let empty = ok_injective [] entries h in absurd (rw (← empty) at m)
  decode_entries_sound (id' ∷ ids) entries id t h m =
      let (t', (decoded', h')) = bind_ok (decode_entry (values (key id'))) _ entries h in
      let (rest, (others, h'')) =
        bind_ok (decode_entries ids (map values (map key ids))) _ entries h' in
      let all = ok_injective _ entries h'' in
      elim (rw (← all) at m) [
        | inl same ↦
            let same_id : id ≡ id' = ap (λ p. p.0) same in
            let same_entry : t ≡ t' = ap (λ p. p.1) same in
            (inl same_id, rw (same_id, same_entry) decoded')
        | inr r ↦
            let (among, found) = decode_entries_sound ids rest id t others r in (inr among, found)
      ]

  pub decode_entries_complete :
      (ids : List Str) (entries : List (Str × TransactionOutputs)) (id : Str)
      (t : TransactionOutputs)
      → decode_entries ids (map values (map key ids)) ≡ ok entries
      → Among id ids
      → decode_entry (values (key id)) ≡ ok t
      → Among (id, t) entries
  unfolding decode_entries
  decode_entries_complete [] entries id t h m found = absurd m
  decode_entries_complete (id' ∷ ids) entries id t h m found =
      let (t', (decoded', h')) = bind_ok (decode_entry (values (key id'))) _ entries h in
      let (rest, (others, h'')) =
        bind_ok (decode_entries ids (map values (map key ids))) _ entries h' in
      let all = ok_injective _ entries h'' in
      rw (← all) (elim m [
        | inl same ↦
            let found' : decode_entry (values (key id')) ≡ ok t = rw (← same) found in
            let same_entry : t ≡ t' = ok_injective t t' (sym found' ∙ decoded') in
            inl (λ i. (same i, same_entry i))
        | inr r ↦ inr (decode_entries_complete ids rest id t others r found)
      ])

-- Only a stored entry has outputs.
pub decode_entry_stored :
    (v : Option Value) (t : TransactionOutputs) (position : ℕ) (o : Option TransactionOutput)
    → decode_entry v ≡ ok t
    → get_elem? t.outputs position ≡ some o
    → v ≡ some (outputs_value t)
unfolding decode_entry decode_outputs
decode_entry_stored none t position o h stands =
    let same = ok_injective _ t h in absurd (let nothing = rw (← same) at stands in cc)
decode_entry_stored (some (outputs_value t')) t position o h stands =
    ap (λ x. some (outputs_value x)) (ok_injective t' t h)
decode_entry_stored (some (hash_value x)) t position o h stands = absurd cc
decode_entry_stored (some (height_value x)) t position o h stands = absurd cc
decode_entry_stored (some (list_value x)) t position o h stands = absurd cc

pub decode_entry_found :
    (v : Option Value) (t : TransactionOutputs) → v ≡ some (outputs_value t) → decode_entry v ≡ ok t
unfolding decode_entry decode_outputs
decode_entry_found v t h = rw h refl
