-- ===== src/Chainstate/Migration/Total.antt =====
-- The grouping of the migration ends without an error and without a panic.
use bitcoin_utxo_indexer.Prelude.{
  ℕ, zero, suc, ◌+◌, ◌-◌, Bool, true, false, List, [], ◌∷◌, ◌++◌, Option, none, some, ◌≡◌, refl,
  length, set, replicate, All, All-append, ltb, ◌==◌, Bool-cases, inl, inr, append_assoc,
}
use mathlib.Core.Path.{subst}
use bitcoin_utxo_indexer.Prelude.Str.{Str, str_eq}
use bitcoin_utxo_indexer.Compression.Vlq.{IsU64}
use bitcoin_utxo_indexer.Compression.Script.{num_special_scripts}
use bitcoin_utxo_indexer.Compression.Script.RoundTrip.{IsCurve}
use bitcoin_utxo_indexer.Utxo.Outcome.{ok}
use bitcoin_utxo_indexer.Utxo.Types.{TransactionOutput, Env, set_amount}
use bitcoin_utxo_indexer.Utxo.Types.RoundTrip.{get-set_script_bytes}
use bitcoin_utxo_indexer.Utxo.Block.{pos}
use bitcoin_utxo_indexer.Prelude.Among.{Among}
use bitcoin_utxo_indexer.Chainstate.Coin.{TxOut}
use bitcoin_utxo_indexer.Chainstate.Migration.Grouped.{IsStored, group_utxos-IsStored}
use bitcoin_utxo_indexer.Chainstate.Migration.{
  push_element_to_place, convert_utxo, convert_utxo_list_to_transaction_output_list, TxOutputsEntry,
  zero_output, Grouping, last_of, block_height_of, group_entry, change_transaction, take_utxo,
  take_utxos, close_group, group_utxos,
}

-- The script's length, with the number of special scripts, is a uint64.
abbrev pub IsShort : TxOut → Type 0
IsShort utxo = IsU64 (length utxo.coin.out.pk_script + num_special_scripts)

abbrev IsShortOr : Option TxOut → Type 0
IsShortOr none = Unit
IsShortOr (some utxo) = IsShort utxo

-- A list of pointers that is empty or whose last one is not nil.
abbrev EndsSome : List (Option TxOut) → Type 0
EndsSome [] = Unit
EndsSome (none ∷ []) = ⊥
EndsSome (some utxo ∷ []) = Unit
EndsSome (x ∷ y ∷ xs) = EndsSome (y ∷ xs)

EndsSome-append : (xs : List (Option TxOut)) (u : TxOut) → EndsSome (xs ++ (some u ∷ []))
EndsSome-append [] u = tt
EndsSome-append (x ∷ []) u = tt
EndsSome-append (x ∷ y ∷ xs) u = EndsSome-append (y ∷ xs) u

EndsSome-set :
    (xs : List (Option TxOut)) (i : ℕ) (u : TxOut) → EndsSome xs → EndsSome (set xs i (some u))
EndsSome-set [] i u h = tt
EndsSome-set (x ∷ []) zero u h = tt
EndsSome-set (x ∷ []) (suc i) u h = h
EndsSome-set (x ∷ y ∷ xs) zero u h = h
EndsSome-set (x ∷ y ∷ xs) (suc zero) u h = EndsSome-set (y ∷ xs) zero u h
EndsSome-set (x ∷ y ∷ xs) (suc (suc i)) u h = EndsSome-set (y ∷ xs) (suc i) u h

All-set :
    (xs : List (Option TxOut)) (i : ℕ) (u : TxOut)
    → All IsShortOr xs
    → IsShort u
    → All IsShortOr (set xs i (some u))
All-set [] i u h s = tt
All-set (x ∷ xs) zero u h s = (s, h.1)
All-set (x ∷ xs) (suc i) u h s = (h.0, All-set xs i u h.1 s)

All-replicate : (n : ℕ) → All IsShortOr (replicate n none)
All-replicate zero = tt
All-replicate (suc n) = (tt, All-replicate n)

All-Among : {P : TxOut → Type 0} (xs : List TxOut) → ((u : TxOut) → Among u xs → P u) → All P xs
All-Among [] h = tt
All-Among (x ∷ xs) h = (h x (inl refl), All-Among xs (λ u m. h u (inr m)))

-- What the list of a group is like.
Ready : List (Option TxOut) → Type 0
Ready list = All IsShortOr list × EndsSome list

push-Ready :
    (list : List (Option TxOut)) (u : TxOut) (place : ℕ)
    → Ready list
    → IsShort u
    → (result : List (Option TxOut)) × ((push_element_to_place list (some u) (pos place)
          ≡ ok result)
        × Ready result)
unfolding push_element_to_place Ready
push-Ready list u place (short, ends) s = elim (Bool-cases (ltb place (length list))) [
  | inl inside ↦
      (_, (rw inside refl, (All-set list place u short s, EndsSome-set list place u ends)))
  | inr outside ↦ elim (Bool-cases (length list == place)) [
    | inl next ↦ (
      _,
      (
        rw (outside, next) refl,
        (All-append IsShortOr list (some u ∷ []) short (s, tt), EndsSome-append list u),
      ),
    )
    | inr far ↦
        let gap = replicate {A = Option TxOut} (place - length list) none in
        (
          _,
          (
            rw (outside, far) refl,
            (
              All-append IsShortOr list (gap ++ (some u ∷ [])) short (
                  All-append IsShortOr gap (some u ∷ []) (All-replicate (place - length list))
                    (s, tt)),
              subst EndsSome (append_assoc list gap (some u ∷ []))
                  (EndsSome-append (list ++ gap) u),
            ),
          ),
        )
  ]
]

module _ (env : Env) (curve_laws : IsCurve env.curve) where
  convert_utxo-ok : (u : TxOut) → IsShort u → (o : TransactionOutput) × (convert_utxo env u ≡ ok o)
  unfolding convert_utxo
  convert_utxo-ok u s =
      let (t, written, read, same) =
        get-set_script_bytes env curve_laws zero_output u.coin.out.pk_script s in
      (set_amount t u.coin.out.value, rw written refl)

  convert-ok :
      (utxos : List (Option TxOut))
      → All IsShortOr utxos
      → (outputs : List (Option TransactionOutput)) × (convert_utxo_list_to_transaction_output_list
            env utxos
          ≡ ok outputs)
  unfolding convert_utxo_list_to_transaction_output_list
  convert-ok [] h = ([], refl)
  convert-ok (none ∷ utxos) h =
      let (outputs, e) = convert-ok utxos h.1 in (none ∷ outputs, rw e refl)
  convert-ok (some u ∷ utxos) h =
      let (o, e) = convert_utxo-ok u h.0 in
      let (outputs, e') = convert-ok utxos h.1 in (some o ∷ outputs, rw (e, e') refl)

  height-ok :
      (u : Option TxOut) (utxos : List (Option TxOut))
      → EndsSome (u ∷ utxos)
      → (n : ℕ) × (block_height_of env (last_of u utxos) ≡ ok n)
  unfolding block_height_of last_of
  height-ok none [] h = absurd h
  height-ok (some u) [] h = (u.coin.block_height, refl)
  height-ok none (y ∷ utxos) h = height-ok y utxos h
  height-ok (some u) (y ∷ utxos) h = height-ok y utxos h

  group_entry-ok :
      (tx_id : Str) (utxos : List (Option TxOut))
      → Ready utxos
      → (entries : List TxOutputsEntry) × (group_entry env tx_id utxos ≡ ok entries)
  unfolding group_entry Ready
  group_entry-ok tx_id [] h = ([], refl)
  group_entry-ok tx_id (u ∷ utxos) (short, ends) =
      let (outputs, e) = convert-ok (u ∷ utxos) short in
      let (n, e') = height-ok u utxos ends in
      (record { tx_id = tx_id; block_height = n; outputs = outputs } ∷ [], rw (e, e') refl)

  change_transaction-ok :
      (same : Bool) (g : Grouping) (u : TxOut)
      → Ready g.utxo_by_tx_id
      → (g' : Grouping) × ((change_transaction env same g u ≡ ok g') × Ready g'.utxo_by_tx_id)
  unfolding change_transaction Ready
  change_transaction-ok true g u ready = (g, (refl, ready))
  change_transaction-ok false g u ready =
      let (entries, e) = group_entry-ok g.current_tx_id g.utxo_by_tx_id ready in
      (
        record {
          current_tx_id = u.tx_id;
          utxo_by_tx_id = [];
          utxo_batch = g.utxo_batch ++ entries;
        },
        (rw e refl, (tt, tt)),
      )

  take_utxo-ok :
      (g : Grouping) (u : TxOut)
      → Ready g.utxo_by_tx_id
      → IsShort u
      → (g' : Grouping) × ((take_utxo env g u ≡ ok g') × Ready g'.utxo_by_tx_id)
  unfolding take_utxo
  take_utxo-ok g u ready s =
      let (m, (e, ready')) = change_transaction-ok (str_eq g.current_tx_id u.tx_id) g u ready in
      let (list, (e', ready'')) = push-Ready m.utxo_by_tx_id u u.index ready' s in
      (record m { utxo_by_tx_id = list }, (rw (e, e') refl, ready''))

  take_utxos-ok :
      (utxos : List TxOut) (g : Grouping)
      → All IsShort utxos
      → Ready g.utxo_by_tx_id
      → (g' : Grouping) × ((take_utxos env g utxos ≡ ok g') × Ready g'.utxo_by_tx_id)
  unfolding take_utxos
  take_utxos-ok [] g short ready = (g, (refl, ready))
  take_utxos-ok (u ∷ utxos) g short ready =
      let (m, (e, ready')) = take_utxo-ok g u ready short.0 in
      let (g', (e', ready'')) = take_utxos-ok utxos m short.1 ready' in (g', (rw e e', ready''))

  group_utxos-ok :
      (utxos : List TxOut)
      → All IsShort utxos
      → (entries : List TxOutputsEntry) × (group_utxos env utxos ≡ ok entries)
  unfolding group_utxos close_group Ready
  group_utxos-ok utxos short =
      let (g, (e, ready)) =
        take_utxos-ok utxos (record { current_tx_id = []; utxo_by_tx_id = []; utxo_batch = [] })
          short (tt, tt) in
      let (entries, e') = group_entry-ok g.current_tx_id g.utxo_by_tx_id ready in
      (g.utxo_batch ++ entries, rw (e, e') refl)

  -- Where the lengths of the scripts are those of Go slices, the grouping of the migration ends without
  -- an error or a panic, and every output of the chainstate has an entry of its transaction in which an
  -- output stands at its index, in whatever order they come.
  pub group_utxos_complete :
      (utxos : List TxOut)
      → All IsShort utxos
      → (entries : List TxOutputsEntry) × ((group_utxos env utxos ≡ ok entries)
          × All (λ u. IsStored env entries u.tx_id u.index) utxos)
  group_utxos_complete utxos short =
      let (entries, e) = group_utxos-ok utxos short in
      (entries, (e, All-Among utxos (λ u. group_utxos-IsStored env utxos entries u e)))
