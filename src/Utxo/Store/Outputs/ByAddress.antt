-- ===== src/Utxo/Store/Outputs/ByAddress.antt =====
-- What `GetUnspentOutputsByAddress` returns, against what the database holds.
use mathlib.Core.Logic.{◌↔◌}
use bitcoin_utxo_indexer.Prelude.{
  Bool, true, false, List, [], ◌∷◌, some, ◌≡◌, ◌⊎◌, sym, ◌∙◌, map, if◌then◌else◌, Option-cases, inl,
  inr,
}
use bitcoin_utxo_indexer.Prelude.Among.{Among}
use bitcoin_utxo_indexer.Prelude.Str.{Str, contains, contains-Among, Among-contains}
use bitcoin_utxo_indexer.Utxo.Outcome.{Outcome, ok, err, inconsistence_state, bind_ok}
use bitcoin_utxo_indexer.Utxo.Types.{TransactionOutputs, Env}
use bitcoin_utxo_indexer.Utxo.Key.Distinct.{tx_key, address_key}
use bitcoin_utxo_indexer.Utxo.Backend.{Backend, IsBackend, View, outputs_value}
use bitcoin_utxo_indexer.Utxo.Store.{Store, if_consistent, get_address_utxo_transaction_ids}
use bitcoin_utxo_indexer.Utxo.Store.Outputs.{UtxoEntry, decode_entries, all_unspent, unspent_of}
use bitcoin_utxo_indexer.Utxo.Store.Outputs.Methods.{
  read_entries, read_unspent_outputs_by_address, get_unspent_outputs_by_address,
}
use bitcoin_utxo_indexer.Utxo.Store.Outputs.Unspent.{IsAt, all_unspent_sound, all_unspent_complete}
use bitcoin_utxo_indexer.Utxo.Store.Outputs.Entries.{
  decode_entries_sound, decode_entries_complete, decode_entry_stored, decode_entry_found,
}

only_consistent {ℓ κ} :
    {A : Type ℓ} {S : Type κ} (t : Bool) (r : Outcome A × S) (s : S) (a : A)
    → (if t then r else (err inconsistence_state, s)).0 ≡ ok a
    → r.0 ≡ ok a
only_consistent true r s a h = h
only_consistent false r s a h = absurd cc

module _ (env : Env) (ver address : Str) where
  -- The database lists the transaction under the address, and its output pays to the address.
  pub record IsUnspent (d : View) (e : UtxoEntry) : Type 0 where
    pub id : Str
    pub entry : TransactionOutputs
    pub listed : d.sets (address_key ver address) id ≡ true
    pub stored : d.values (tx_key ver id) ≡ some (outputs_value entry)
    pub at : IsAt env address id entry.block_height 0 entry.outputs e

  unspent_of-IsUnspent :
      (d : View) (ids : List Str) (es : List UtxoEntry) (e : UtxoEntry)
      → ((x : Str) → contains ids x ≡ d.sets (address_key ver address) x)
      → unspent_of env address ids (some (map d.values (map (tx_key ver) ids))) ≡ ok es
      → (Among e es → IsUnspent d e) × (IsUnspent d e → Among e es)
  unfolding unspent_of
  unspent_of-IsUnspent d ids es e lists h =
      let (entries, (decoded, h')) =
        bind_ok (decode_entries ids (map d.values (map (tx_key ver) ids))) _ es h in
      (
        λ m.
            let i = all_unspent_sound env address entries es e h' m in
            let (listed, found) =
              decode_entries_sound d.values (tx_key ver) ids entries i.id i.entry decoded i.among in
            record {
              id = i.id;
              entry = i.entry;
              listed = sym (lists i.id) ∙ Among-contains ids i.id listed;
              stored =
                  decode_entry_stored (d.values (tx_key ver i.id)) i.entry i.at.position
                    (some i.at.output) found i.at.stands;
              at = i.at;
            },
        λ u.
            all_unspent_complete env address entries es e u.id u.entry h'
              (decode_entries_complete d.values (tx_key ver) ids entries u.id u.entry decoded
                (contains-Among ids u.id (lists u.id ∙ u.listed))
                (decode_entry_found (d.values (tx_key ver u.id)) u.entry u.stored))
              u.at,
      )

  module _ (b : Backend) (laws : IsBackend b) where
    -- MulGet, asked for at least one transaction, lists none.
    abbrev pub IsSilent : b.World → Type 0
    IsSilent w =
        (id : Str) × (ids : List Str) × ((b.mul_get w (map (tx_key ver) (id ∷ ids))).1 ≡ some [])

    -- The entries are the unspent outputs of the address, or there are none because of MulGet.
    abbrev AreUnspent : b.World → View → List UtxoEntry → Type 0
    AreUnspent w d es =
        ((e : UtxoEntry) → (Among e es → IsUnspent d e) × (IsUnspent d e → Among e es))
        ⊎ ((es ≡ []) × IsSilent w)

    read_entries-AreUnspent :
        (ids : List Str) (s : Store b) (es : List UtxoEntry)
        → ((x : Str) → contains ids x ≡ (laws.view s.world).sets (address_key ver address) x)
        → (read_entries b ver env address ids s).0 ≡ ok es
        → AreUnspent s.world (laws.view s.world) es
    unfolding read_entries unspent_of decode_entries all_unspent
    read_entries-AreUnspent [] s es lists h =
        inl (λ e. unspent_of-IsUnspent (laws.view s.world) [] es e lists h)
    read_entries-AreUnspent (id ∷ ids) s es lists h =
        elim (Option-cases (b.mul_get s.world (map (tx_key ver) (id ∷ ids))).1) [
          | inl failure ↦ absurd (let h' = rw failure at h in cc)
          | inr (r, answer) ↦
              elim (laws.mul_get_reads s.world (map (tx_key ver) (id ∷ ids)) r answer) [
                | inl read ↦
                    let h' = rw (answer, read) at h in
                    inl (λ e. unspent_of-IsUnspent (laws.view s.world) (id ∷ ids) es e lists h')
                | inr nothing ↦
                    let h' : ok [] ≡ ok es = rw (answer, nothing) at h in
                    inr (let same : [] ≡ es = cc in sym same, (id, ids, rw nothing at answer))
              ]
        ]

    read_unspent-AreUnspent :
        (s : Store b) (es : List UtxoEntry)
        → (read_unspent_outputs_by_address b ver env address s).0 ≡ ok es
        → AreUnspent (b.get_set s.world (address_key ver address)).0 (laws.view s.world) es
    unfolding read_unspent_outputs_by_address get_address_utxo_transaction_ids
    read_unspent-AreUnspent s es h =
        let key = address_key ver address in
        elim (Option-cases (b.get_set s.world key).1) [
          | inl failure ↦ absurd (let h' = rw failure at h in cc)
          | inr (ids, answer) ↦
              let h' = rw answer at h in
              let same = laws.get_set-view s.world key in
              let s' : Store b = record s { world = (b.get_set s.world key).0 } in
              let lists : (x : Str) → contains ids x ≡ (laws.view s'.world).sets key x =
                rw same (laws.get_set_reads s.world key ids answer) in
              rw same at (read_entries-AreUnspent ids s' es lists h')
        ]

    -- When `GetUnspentOutputsByAddress` returns an entry, the entries are the unspent outputs of the
    -- address in the transactions that the database lists under it: each entry is one, and each one is
    -- an entry. When it returns none, either there is none, or MulGet listed nothing for the
    -- transactions, without an error.
    pub get_unspent_outputs_by_address-IsUnspent :
        (s : Store b) (es : List UtxoEntry)
        → (get_unspent_outputs_by_address b ver env address s).0 ≡ ok es
        → ((e : UtxoEntry) → Among e es ↔ IsUnspent (laws.view s.world) e)
          ⊎ ((es ≡ []) × IsSilent (b.get_set s.world (address_key ver address)).0)
    unfolding get_unspent_outputs_by_address if_consistent
    get_unspent_outputs_by_address-IsUnspent s es h =
        read_unspent-AreUnspent s es (
          only_consistent s.is_consist (read_unspent_outputs_by_address b ver env address s) _ es h)
