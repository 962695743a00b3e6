-- ===== src/Utxo/Spending/Spent.antt =====
-- What spendAllOutputs leaves at every output, against a description of the block's transactions that
-- looks at one output at a time.
use bitcoin_utxo_indexer.Prelude.{
  ℕ, zero, suc, ◌≡◌, refl, sym, ◌∙◌, arith, Bool, true, false, ◌&&◌, ◌||◌, ltb, ◌==◌, Bool-cases,
  Option-cases, inl, inr, List, [], ◌∷◌, Option, none, some, if◌then◌else◌, get_or, set, length,
}
use bitcoin_utxo_indexer.Prelude.Str.{
  Str, str_eq, str_eq_iff, GoMap, lookup, insert, lookup-insert, contains,
}
use bitcoin_utxo_indexer.Utxo.Outcome.{
  ok, err, panic, spending_output_not_found, bind_ok, from_ok, ok_injective,
}
use bitcoin_utxo_indexer.Utxo.Types.{TransactionOutput, TransactionOutputs}
use bitcoin_utxo_indexer.Utxo.Block.{
  ℤ, pos, negsuc, BlockEnv, SpendingOutput, BlockOutput, Transaction,
}
use bitcoin_utxo_indexer.Utxo.Spending.{
  is_out_of_range, spend_at, spend_output, spend_inputs, convert_output, get_all_spendable_outputs,
  spend_transactions,
}

-- The output that stands at an index of a transaction's entry, if it is there and not spent.
abbrev output_in : Option TransactionOutputs → ℕ → Option TransactionOutput
output_in none i = none
output_in (some entry) i = get_or entry.outputs i none

abbrev pub unspent_at : GoMap TransactionOutputs → Str → ℕ → Option TransactionOutput
unspent_at m id i = output_in (lookup m id) i

abbrev is_entry : Option TransactionOutputs → Bool
is_entry none = false
is_entry (some entry) = true

abbrev pub has_entry : GoMap TransactionOutputs → Str → Bool
has_entry m id = is_entry (lookup m id)

-- Does one of the inputs spend the output?
abbrev is_index : ℤ → ℕ → Bool
is_index (pos v) i = v == i
is_index (negsuc v) i = false

abbrev spends : List (Option SpendingOutput) → Str → ℕ → Bool
spends [] id i = false
spends (none ∷ inputs) id i = spends inputs id i
spends (some input ∷ inputs) id i =
    (str_eq input.tx_id id && is_index input.vout i) || spends inputs id i

get_or-set :
    {A : Type 0} (xs : List (Option A)) (v i : ℕ)
    → get_or (set xs v none) i none ≡ (if v == i then none else get_or xs i none)
get_or-set [] v i = ground arith
get_or-set (x ∷ xs) zero zero = refl
get_or-set (x ∷ xs) zero (suc i) = ground arith
get_or-set (x ∷ xs) (suc v) zero = ground arith
get_or-set (x ∷ xs) (suc v) (suc i) = get_or-set xs v i ∙ ground arith

unspent_at-insert :
    (m : GoMap TransactionOutputs) (k : Str) (entry : TransactionOutputs) (id : Str) (i : ℕ)
    → unspent_at (insert m k entry) id i
      ≡ (if str_eq k id then get_or entry.outputs i none else unspent_at m id i)
unspent_at-insert m k entry id i = elim (Bool-cases (str_eq k id)) [
  | inl same ↦ rw (lookup-insert m k id entry, same) refl
  | inr other ↦ rw (lookup-insert m k id entry, other) refl
]

has_entry-insert :
    (m : GoMap TransactionOutputs) (k : Str) (entry : TransactionOutputs) (id : Str)
    → has_entry (insert m k entry) id ≡ (str_eq k id || has_entry m id)
has_entry-insert m k entry id = elim (Bool-cases (str_eq k id)) [
  | inl same ↦ rw (lookup-insert m k id entry, same) refl
  | inr other ↦ rw (lookup-insert m k id entry, other) refl
]

-- An entry in which one index is spent.
record SpentFrom (m m' : GoMap TransactionOutputs) (input : SpendingOutput) : Type 0 where
  outputs :
      (id : Str) (i : ℕ)
      → unspent_at m' id i
        ≡ (if str_eq input.tx_id id && is_index input.vout i then none else unspent_at m id i)
  entries : (id : Str) → has_entry m' id ≡ has_entry m id

spend_at-outputs :
    (outputs left : List (Option TransactionOutput)) (vout : ℤ) (i : ℕ)
    → spend_at outputs vout ≡ ok left
    → get_or left i none ≡ (if is_index vout i then none else get_or outputs i none)
unfolding spend_at
spend_at-outputs outputs left (negsuc v) i h = absurd cc
spend_at-outputs outputs left (pos v) i h = elim (Bool-cases (ltb v (length outputs))) [
  | inl inside ↦
      let same : set outputs v none ≡ left = ok_injective _ _ (rw inside at h) in
      rw (sym same) (get_or-set outputs v i)
  | inr outside ↦ absurd (let h' : panic ≡ ok left = rw outside at h in cc)
]

inserted-SpentFrom :
    (m : GoMap TransactionOutputs) (input : SpendingOutput) (entry : TransactionOutputs)
    (left : List (Option TransactionOutput))
    → lookup m input.tx_id ≡ some entry
    → spend_at entry.outputs input.vout ≡ ok left
    → SpentFrom m (insert m input.tx_id (record entry { outputs = left })) input
inserted-SpentFrom m input entry left found h = record {
  outputs = λ id i.
      unspent_at-insert m input.tx_id _ id i ∙ elim (Bool-cases (str_eq input.tx_id id)) [
        | inl same ↦
            let e : input.tx_id ≡ id = (str_eq_iff input.tx_id id).0 same in
            let here : lookup m id ≡ some entry = rw (← e) found in
            rw (same, here) (spend_at-outputs entry.outputs left input.vout i h)
        | inr other ↦ rw other refl
      ];
  entries = λ id. has_entry-insert m input.tx_id _ id ∙ elim (Bool-cases (str_eq input.tx_id id)) [
    | inl same ↦
        let e : input.tx_id ≡ id = (str_eq_iff input.tx_id id).0 same in
        let here : lookup m id ≡ some entry = rw (← e) found in rw (same, here) refl
    | inr other ↦ rw other refl
  ];
}

spend_output-SpentFrom :
    (m m' : GoMap TransactionOutputs) (input : SpendingOutput)
    → spend_output m input ≡ ok m'
    → SpentFrom m m' input
unfolding spend_output
spend_output-SpentFrom m m' input h = elim (Option-cases (lookup m input.tx_id)) [
  | inl missing ↦
      absurd
        (let h' : err spending_output_not_found ≡ ok m' = rw (spend_output, missing) at h in cc)
  | inr (entry, e) ↦ elim (Bool-cases (is_out_of_range (length entry.outputs) input.vout)) [
    | inl out ↦
        absurd
          (let h' : err spending_output_not_found ≡ ok m' = rw (spend_output, e, out) at h in cc)
    | inr inside ↦
        let (left, (spent, last)) =
          bind_ok (spend_at entry.outputs input.vout)
            (λ left. ok (insert m input.tx_id (record entry { outputs = left }))) m'
            (rw (spend_output, e, inside) at h) in
        let same : insert m input.tx_id (record entry { outputs = left }) ≡ m' =
          ok_injective _ _ last in
        rw (sym same) (inserted-SpentFrom m input entry left e spent)
  ]
]

-- The same for a list of inputs.
spend_inputs-outputs :
    (m m' : GoMap TransactionOutputs) (inputs : List (Option SpendingOutput)) (id : Str) (i : ℕ)
    → spend_inputs m inputs ≡ ok m'
    → (unspent_at m' id i ≡ (if spends inputs id i then none else unspent_at m id i))
      × (has_entry m' id ≡ has_entry m id)
unfolding spend_inputs
spend_inputs-outputs m m' [] id i h =
    let same : m ≡ m' = ok_injective _ _ h in rw (sym same) (refl, refl)
spend_inputs-outputs m m' (none ∷ inputs) id i h = spend_inputs-outputs m m' inputs id i h
spend_inputs-outputs m m' (some input ∷ inputs) id i h =
    let (m₁, (first, rest)) = bind_ok (spend_output m input) (λ k. spend_inputs k inputs) m' h in
    let spent = spend_output-SpentFrom m m₁ input first in
    let (left, there) = spend_inputs-outputs m₁ m' inputs id i rest in
    (left ∙ rw (spent.outputs id i) (ground arith), there ∙ spent.entries id)

module _ (env : BlockEnv) (decimals : ℕ) where
  -- The output that a transaction makes at an index, if it can be spent.
  abbrev made : List (BlockOutput env) → ℕ → Option TransactionOutput
  made [] i = none
  made (output ∷ outputs) zero = from_ok none (convert_output env decimals output)
  made (output ∷ outputs) (suc i) = made outputs i

  -- What stands at an output behind one transaction and behind all of them, from what stood there
  -- before: what an input spends is gone, and what a transaction makes takes the place of the rest.
  abbrev behind_transaction :
      Transaction env → (Str → ℕ → Option TransactionOutput) → Str → ℕ → Option TransactionOutput
  behind_transaction tx before id i =
      if spends tx.vin id i then none else (if str_eq tx.id id then made tx.vout i else before id i)

  abbrev pub behind_transactions :
      List (Transaction env)
      → (Str → ℕ → Option TransactionOutput)
      → Str
      → ℕ
      → Option TransactionOutput
  behind_transactions [] before = before
  behind_transactions (tx ∷ txs) before = behind_transactions txs (behind_transaction tx before)

  abbrev pub tx_ids : List (Transaction env) → List Str
  tx_ids [] = []
  tx_ids (tx ∷ txs) = tx.id ∷ tx_ids txs

  made_first :
      (output : BlockOutput env) (vout : List (BlockOutput env)) (t : Option TransactionOutput)
      (rest : List (Option TransactionOutput)) (i : ℕ)
      → convert_output env decimals output ≡ ok t
      → ((j : ℕ) → get_or rest j none ≡ made vout j)
      → get_or (t ∷ rest) i none ≡ made (output ∷ vout) i
  made_first output vout t rest zero converted others = rw converted refl
  made_first output vout t rest (suc i) converted others = others i

  pub made_outputs :
      (vout : List (BlockOutput env)) (outputs : List (Option TransactionOutput)) (i : ℕ)
      → get_all_spendable_outputs env decimals vout ≡ ok outputs
      → get_or outputs i none ≡ made vout i
  unfolding get_all_spendable_outputs
  made_outputs [] outputs i h = let same : [] ≡ outputs = ok_injective _ _ h in rw (sym same) refl
  made_outputs (output ∷ vout) outputs i h =
      let (t, (converted, h₁)) = bind_ok (convert_output env decimals output) _ outputs h in
      let (rest, (others, h₂)) =
        bind_ok (get_all_spendable_outputs env decimals vout) _ outputs h₁ in
      let same : t ∷ rest ≡ outputs = ok_injective _ _ h₂ in
      rw (sym same)
        (made_first output vout t rest i converted (λ j. made_outputs vout rest j others))

  -- Every output that spendAllOutputs leaves, and every entry.
  pub record AreSpent (m m' : GoMap TransactionOutputs) (txs : List (Transaction env))
      : Type 0 where
    pub outputs :
        (id : Str) (i : ℕ) → unspent_at m' id i ≡ behind_transactions txs (unspent_at m) id i
    pub entries : (id : Str) → has_entry m' id ≡ (contains (tx_ids txs) id || has_entry m id)

  -- The description depends on the values only.
  behind_same :
      (txs : List (Transaction env)) (f g : Str → ℕ → Option TransactionOutput)
      → ((id : Str) (i : ℕ) → f id i ≡ g id i)
      → (id : Str) (i : ℕ) → behind_transactions txs f id i ≡ behind_transactions txs g id i
  behind_same [] f g same id i = same id i
  behind_same (tx ∷ txs) f g same id i =
      behind_same txs (behind_transaction tx f) (behind_transaction tx g)
        (λ id' i'. rw (same id' i') refl) id i

  pub spend_transactions-AreSpent :
      (height : ℕ) (m m' : GoMap TransactionOutputs) (txs : List (Transaction env))
      → spend_transactions env decimals height m txs ≡ ok m'
      → AreSpent m m' txs
  unfolding spend_transactions contains
  spend_transactions-AreSpent height m m' [] h =
      let same : m ≡ m' = ok_injective _ _ h in
      rw (sym same) (record { outputs = λ id i. refl; entries = λ id. refl })
  spend_transactions-AreSpent height m m' (tx ∷ txs) h =
      let (outputs, (found, h₁)) =
        bind_ok (get_all_spendable_outputs env decimals tx.vout) _ m' h in
      let added = insert m tx.id (record { block_height = height; outputs = outputs }) in
      let (m₁, (spent, rest)) = bind_ok (spend_inputs added tx.vin) _ m' h₁ in
      let later = spend_transactions-AreSpent height m₁ m' txs rest in
      let first : (id : Str) (i : ℕ)
          → unspent_at m₁ id i ≡ behind_transaction tx (unspent_at m) id i =
        λ id i.
          (spend_inputs-outputs added m₁ tx.vin id i spent).0
          ∙ rw (unspent_at-insert m tx.id _ id i, made_outputs tx.vout outputs i found) refl in
      record {
        outputs = λ id i.
            later.outputs id i
            ∙ behind_same txs (unspent_at m₁) (behind_transaction tx (unspent_at m)) first id i;
        entries = λ id.
            later.entries id
            ∙ rw
                (
                  (spend_inputs-outputs added m₁ tx.vin id 0 spent).1,
                  has_entry-insert m tx.id (record { block_height = height; outputs = outputs }) id,
                )
                (ground arith);
      }
