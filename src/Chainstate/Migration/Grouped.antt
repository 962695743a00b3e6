-- ===== src/Chainstate/Migration/Grouped.antt =====
-- The migration loses no output of the chainstate.
use bitcoin_utxo_indexer.Prelude.{
  ℕ, zero, suc, Bool, true, false, List, [], ◌∷◌, ◌++◌, Option, none, some, ◌≡◌, refl, sym, ap, ◌∙◌,
  ◌⊎◌, inl, inr, get_elem?, below_length,
}
use native.Mathlib.Decide.{ℕ_discrete}
use bitcoin_utxo_indexer.Prelude.Among.{Among, join_left, join_right}
use bitcoin_utxo_indexer.Prelude.Str.{Str, str_eq, str_eq_iff}
use bitcoin_utxo_indexer.Utxo.Outcome.{ok, bind_ok, ok_injective}
use bitcoin_utxo_indexer.Utxo.Types.{TransactionOutput, Env}
use bitcoin_utxo_indexer.Utxo.Block.{pos}
use bitcoin_utxo_indexer.Chainstate.Coin.{TxOut}
use bitcoin_utxo_indexer.Chainstate.Migration.{
  push_element_to_place, convert_utxo, convert_utxo_list_to_transaction_output_list, TxOutputsEntry,
  Grouping, last_of, block_height_of, group_entry, change_transaction, take_utxo, take_utxos,
  close_group, group_utxos,
}
use bitcoin_utxo_indexer.Chainstate.Migration.Placed.{push_element_to_place-Placed}

-- Something that is not nil stands at the index.
pub Stands : {A : Type 0} → List (Option A) → ℕ → Type 0
Stands {A} list i = (a : A) × (get_elem? list i ≡ some (some a))

push-Stands :
    {A : Type 0} (list result : List (Option A)) (a : A) (place i : ℕ)
    → push_element_to_place list (some a) (pos place) ≡ ok result
    → (i ≡ place) ⊎ Stands list i
    → Stands result i
unfolding Stands
push-Stands list result a place i h there =
    let (result', (same, placed)) = push_element_to_place-Placed list (some a) place in
    let equal : result' ≡ result = ok_injective result' result (sym same ∙ h) in
    elim (ℕ_discrete i place) [
      | yes e ↦ (a, rw (e, ← equal) placed.at_place)
      | no ne ↦ elim there [
        | inl e ↦ absurd (ne e)
        | inr (x, stands) ↦
            (x, rw (← equal) (placed.before i (below_length list i (some x) stands) ne ∙ stands))
      ]
    ]

module _ (env : Env) where
  -- An entry of the transaction has an output at the index.
  pub record IsStored (entries : List TxOutputsEntry) (tx_id : Str) (i : ℕ) : Type 0 where
    pub entry : TxOutputsEntry
    pub among : Among entry entries
    pub same_id : entry.tx_id ≡ tx_id
    pub stands : Stands entry.outputs i

  convert-Stands :
      (utxos : List (Option TxOut)) (outputs : List (Option TransactionOutput)) (i : ℕ)
      → convert_utxo_list_to_transaction_output_list env utxos ≡ ok outputs
      → Stands utxos i
      → Stands outputs i
  unfolding convert_utxo_list_to_transaction_output_list Stands
  convert-Stands [] outputs i h (u, stands) = absurd cc
  convert-Stands (none ∷ utxos) outputs zero h (u, stands) = absurd cc
  convert-Stands (none ∷ utxos) outputs (suc i) h (u, stands) =
      let (rest, (found, h')) =
        bind_ok (convert_utxo_list_to_transaction_output_list env utxos) _ outputs h in
      rw (← ok_injective _ outputs h') (convert-Stands utxos rest i found (u, stands))
  convert-Stands (some utxo ∷ utxos) outputs zero h (u, stands) =
      let (output, (converted, h')) = bind_ok (convert_utxo env utxo) _ outputs h in
      let (rest, (found, h'')) =
        bind_ok (convert_utxo_list_to_transaction_output_list env utxos) _ outputs h' in
      rw (← ok_injective _ outputs h'') (output, refl)
  convert-Stands (some utxo ∷ utxos) outputs (suc i) h (u, stands) =
      let (output, (converted, h')) = bind_ok (convert_utxo env utxo) _ outputs h in
      let (rest, (found, h'')) =
        bind_ok (convert_utxo_list_to_transaction_output_list env utxos) _ outputs h' in
      rw (← ok_injective _ outputs h'') (convert-Stands utxos rest i found (u, stands))

  group_entry-IsStored :
      (tx_id : Str) (utxos : List (Option TxOut)) (entries : List TxOutputsEntry) (i : ℕ)
      → group_entry env tx_id utxos ≡ ok entries
      → Stands utxos i
      → IsStored entries tx_id i
  unfolding group_entry Stands
  group_entry-IsStored tx_id [] entries i h (u, stands) = absurd cc
  group_entry-IsStored tx_id (utxo ∷ utxos) entries i h stands =
      let (outputs, (converted, h')) =
        bind_ok (convert_utxo_list_to_transaction_output_list env (utxo ∷ utxos)) _ entries h in
      let (height, (found, h'')) =
        bind_ok (block_height_of env (last_of utxo utxos)) _ entries h' in
      rw (← ok_injective _ entries h'') (record {
        entry = record { tx_id = tx_id; block_height = height; outputs = outputs };
        among = inl refl;
        same_id = refl;
        stands = convert-Stands (utxo ∷ utxos) outputs i converted stands;
      })

  -- The output is in an entry or in the group that is open.
  Held : Grouping → Str → ℕ → Type 0
  Held g tx_id i =
      IsStored g.utxo_batch tx_id i ⊎ ((g.current_tx_id ≡ tx_id) × Stands g.utxo_by_tx_id i)

  more_entries :
      (entries more : List TxOutputsEntry) (tx_id : Str) (i : ℕ)
      → IsStored entries tx_id i ⊎ IsStored more tx_id i
      → IsStored (entries ++ more) tx_id i
  more_entries entries more tx_id i (inl s) = record {
    entry = s.entry;
    among = join_left s.entry entries more s.among;
    same_id = s.same_id;
    stands = s.stands;
  }
  more_entries entries more tx_id i (inr s) = record {
    entry = s.entry;
    among = join_right s.entry entries more s.among;
    same_id = s.same_id;
    stands = s.stands;
  }

  change_transaction-Held :
      (same : Bool) (g g' : Grouping) (utxo : TxOut) (tx_id : Str) (i : ℕ)
      → change_transaction env same g utxo ≡ ok g'
      → Held g tx_id i
      → Held g' tx_id i
  unfolding change_transaction Held
  change_transaction-Held true g g' utxo tx_id i h held = rw (← ok_injective g g' h) held
  change_transaction-Held false g g' utxo tx_id i h held =
      let (entries, (closed, h')) =
        bind_ok (group_entry env g.current_tx_id g.utxo_by_tx_id) _ g' h in
      rw (← ok_injective _ g' h') (
        inl (
          more_entries g.utxo_batch entries tx_id i (elim held [
            | inl s ↦ inl s
            | inr (same, stands) ↦
                let s =
                  group_entry-IsStored g.current_tx_id g.utxo_by_tx_id entries i closed stands in
                inr (rw (← same) s)
          ])))

  change_transaction-id :
      (same : Bool) (g g' : Grouping) (utxo : TxOut)
      → str_eq g.current_tx_id utxo.tx_id ≡ same
      → change_transaction env same g utxo ≡ ok g'
      → g'.current_tx_id ≡ utxo.tx_id
  unfolding change_transaction
  change_transaction-id true g g' utxo e h =
      rw (← ok_injective g g' h) ((str_eq_iff g.current_tx_id utxo.tx_id).0 e)
  change_transaction-id false g g' utxo e h =
      let (entries, (closed, h')) =
        bind_ok (group_entry env g.current_tx_id g.utxo_by_tx_id) _ g' h in
      rw (← ok_injective _ g' h') refl

  -- A round keeps what is held, and holds its own output.
  take_utxo-Held :
      (g g' : Grouping) (utxo : TxOut) (tx_id : Str) (i : ℕ)
      → take_utxo env g utxo ≡ ok g'
      → ((utxo.tx_id ≡ tx_id) × (utxo.index ≡ i)) ⊎ Held g tx_id i
      → Held g' tx_id i
  unfolding take_utxo Held
  take_utxo-Held g g' utxo tx_id i h held =
      let same = str_eq g.current_tx_id utxo.tx_id in
      let (m, (changed, h')) = bind_ok (change_transaction env same g utxo) _ g' h in
      let (list, (pushed, h'')) =
        bind_ok (push_element_to_place m.utxo_by_tx_id (some utxo) (pos utxo.index)) _ g' h' in
      let push = push-Stands m.utxo_by_tx_id list utxo utxo.index i pushed in
      rw (← ok_injective _ g' h'') (elim held [
        | inl (own, at) ↦
            inr (change_transaction-id same g m utxo refl changed ∙ own, push (inl (sym at)))
        | inr before ↦ elim (change_transaction-Held same g m utxo tx_id i changed before) [
          | inl s ↦ inl s
          | inr (current, stands) ↦ inr (current, push (inr stands))
        ]
      ])

  take_utxos-Held :
      (utxos : List TxOut) (g g' : Grouping) (tx_id : Str) (i : ℕ)
      → take_utxos env g utxos ≡ ok g'
      → Held g tx_id i
      → Held g' tx_id i
  unfolding take_utxos
  take_utxos-Held [] g g' tx_id i h held = rw (← ok_injective g g' h) held
  take_utxos-Held (utxo ∷ utxos) g g' tx_id i h held =
      let (m, (taken, h')) = bind_ok (take_utxo env g utxo) _ g' h in
      take_utxos-Held utxos m g' tx_id i h' (take_utxo-Held g m utxo tx_id i taken (inr held))

  take_utxos-all :
      (utxos : List TxOut) (g g' : Grouping) (utxo : TxOut)
      → take_utxos env g utxos ≡ ok g'
      → Among utxo utxos
      → Held g' utxo.tx_id utxo.index
  unfolding take_utxos
  take_utxos-all [] g g' utxo h m = absurd m
  take_utxos-all (first ∷ utxos) g g' utxo h m =
      let (next, (taken, h')) = bind_ok (take_utxo env g first) _ g' h in
      elim m [
        | inl same ↦ take_utxos-Held utxos next g' utxo.tx_id utxo.index h' (
            take_utxo-Held g next first utxo.tx_id utxo.index taken
              (inl (ap (λ u. u.tx_id) (sym same), ap (λ u. u.index) (sym same))))
        | inr later ↦ take_utxos-all utxos next g' utxo h' later
      ]

  pub group_utxos-IsStored :
      (utxos : List TxOut) (entries : List TxOutputsEntry) (utxo : TxOut)
      → group_utxos env utxos ≡ ok entries
      → Among utxo utxos
      → IsStored entries utxo.tx_id utxo.index
  unfolding group_utxos close_group Held
  group_utxos-IsStored utxos entries utxo h m =
      let (g, (taken, h')) = bind_ok (take_utxos env _ utxos) _ entries h in
      let (last, (closed, h'')) =
        bind_ok (group_entry env g.current_tx_id g.utxo_by_tx_id) _ entries h' in
      rw (← ok_injective _ entries h'') (
        more_entries g.utxo_batch last utxo.tx_id utxo.index
          (elim (take_utxos-all utxos _ g utxo taken m) [
            | inl s ↦ inl s
            | inr (current, stands) ↦ inr (
                rw (← current) (
                  group_entry-IsStored g.current_tx_id g.utxo_by_tx_id last utxo.index closed
                    stands))
          ]))
