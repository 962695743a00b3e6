-- ===== src/Utxo/Spending.antt =====
-- utxospending/utxospending.go: what the transactions of a block do to the outputs they spend and
-- to the addresses; nothing here calls the store.
pub mod Spent
pub mod Referred
pub mod Dereferred
use bitcoin_utxo_indexer.Prelude.{
  ℕ, zero, ◌+◌, Bool, false, List, [], ◌∷◌, ◌++◌, Option, none, some, if◌then◌else◌, ltb, get_elem?,
  set, length,
}
use bitcoin_utxo_indexer.Prelude.Str.{Str, GoMap, lookup, insert, contains}
use bitcoin_utxo_indexer.Utxo.Outcome.{
  Outcome, ok, err, panic, failed, spending_output_not_found, or_panic, or_error, ◌>>=◌,
}
use bitcoin_utxo_indexer.Utxo.Types.{
  TransactionOutput, TransactionOutputs, set_script_bytes, set_amount, get_addresses,
}
use bitcoin_utxo_indexer.Utxo.Block.{
  ℤ, pos, negsuc, increment, decrement, BlockEnv, SpendingOutput, BlockOutput, Transaction, Block,
  is_spendable,
}

-- `len(outputs) < vout+1`; a negative index passes this test and then panics.
pub is_out_of_range : ℕ → ℤ → Bool
is_out_of_range len (pos v) = ltb len (v + 1)
is_out_of_range len (negsuc v) = false

-- `outputs[vout]`, and `outputs[vout] = nil`.
pub output_at : List (Option TransactionOutput) → ℤ → Outcome (Option TransactionOutput)
output_at outputs (pos v) = or_panic (get_elem? outputs v)
output_at outputs (negsuc v) = panic

pub spend_at : List (Option TransactionOutput) → ℤ → Outcome (List (Option TransactionOutput))
spend_at outputs (pos v) = if ltb v (length outputs) then ok (set outputs v none) else panic
spend_at outputs (negsuc v) = panic

-- The body of the loop over the inputs in `spendAllOutputs`.
unfoldable pub spend_output :
    GoMap TransactionOutputs → SpendingOutput → Outcome (GoMap TransactionOutputs)
unfolding is_out_of_range spend_at
spend_output m input = elim (lookup m input.tx_id) [
  | none ↦ err spending_output_not_found
  | some entry ↦
      if is_out_of_range (length entry.outputs) input.vout
      then err spending_output_not_found
      else (spend_at entry.outputs input.vout >>= λ left.
          ok (insert m input.tx_id (record entry { outputs = left })))
]

unfoldable pub spend_inputs :
    GoMap TransactionOutputs → List (Option SpendingOutput) → Outcome (GoMap TransactionOutputs)
spend_inputs m [] = ok m
spend_inputs m (none ∷ inputs) = spend_inputs m inputs
spend_inputs m (some input ∷ inputs) = do m' ← spend_output m input; spend_inputs m' inputs

module _ (env : BlockEnv) (decimals : ℕ) where
  -- getAllSpendableOutputs: an output that cannot be spent is stored as spent. A missing script is
  -- not reached: the output is not spendable then.
  pub script_bytes : BlockOutput env → Outcome (List ℕ)
  script_bytes output = elim output.script_pub_key [
    | none ↦ panic
    | some script ↦ or_error (env.decode_string script.hex) failed
  ]

  pub amount : BlockOutput env → ℕ
  amount output = elim output.value [ none ↦ 0 | some value ↦ env.uint64 value decimals ]

  unfoldable pub convert_output : BlockOutput env → Outcome (Option TransactionOutput)
  unfolding script_bytes amount
  convert_output output =
      let converted = do
        bytes ← script_bytes output
        t ← or_panic (
            set_script_bytes env.base (record { compressed_script = []; compressed_amount = 0 })
              bytes)
        ok (some (set_amount t (amount output)))
      in if is_spendable env output then converted else ok none

  unfoldable pub get_all_spendable_outputs :
      List (BlockOutput env) → Outcome (List (Option TransactionOutput))
  get_all_spendable_outputs [] = ok []
  get_all_spendable_outputs (output ∷ outputs) = do
    converted ← convert_output output
    rest ← get_all_spendable_outputs outputs
    ok (converted ∷ rest)

  -- `spendAllOutputs`, after the copy of the entries that are spent from: in each transaction its
  -- outputs are added first and its inputs spent next.
  unfoldable pub spend_transactions :
      ℕ → GoMap TransactionOutputs → List (Transaction env) → Outcome (GoMap TransactionOutputs)
  unfolding get_all_spendable_outputs
  spend_transactions height m [] = ok m
  spend_transactions height m (tx ∷ txs) = do
    outputs ← get_all_spendable_outputs tx.vout
    m' ← spend_inputs (insert m tx.id (record { block_height = height; outputs = outputs })) tx.vin
    spend_transactions height m' txs

  unfoldable pub spend_all_outputs :
      GoMap TransactionOutputs → Block env → Outcome (GoMap TransactionOutputs)
  spend_all_outputs spending block = spend_transactions block.height spending block.transactions

  -- A set of ids under an address; nil outputs are skipped.
  pub add_reference : Str → GoMap (List Str) → Str → GoMap (List Str)
  add_reference tx_id refs address = elim (lookup refs address) [
    | none ↦ insert refs address (tx_id ∷ [])
    | some ids ↦ if contains ids tx_id then refs else insert refs address (ids ++ (tx_id ∷ []))
  ]

  pub add_references : Str → GoMap (List Str) → List Str → GoMap (List Str)
  unfolding add_reference
  add_references tx_id refs [] = refs
  add_references tx_id refs (address ∷ addresses) =
      add_references tx_id (add_reference tx_id refs address) addresses

  pub output_references :
      Str → GoMap (List Str) → List (Option TransactionOutput) → Outcome (GoMap (List Str))
  unfolding add_references
  output_references tx_id refs [] = ok refs
  output_references tx_id refs (none ∷ outputs) = output_references tx_id refs outputs
  output_references tx_id refs (some output ∷ outputs) = do
    addresses ← get_addresses env.base output
    output_references tx_id (add_references tx_id refs addresses) outputs

  pub transaction_references :
      GoMap (List Str) → List (Transaction env) → Outcome (GoMap (List Str))
  unfolding output_references
  transaction_references refs [] = ok refs
  transaction_references refs (tx ∷ txs) = do
    outputs ← get_all_spendable_outputs tx.vout
    refs' ← output_references tx.id refs outputs
    transaction_references refs' txs

  unfoldable pub extract_address_references_from_outputs : Block env → Outcome (GoMap (List Str))
  unfolding transaction_references
  extract_address_references_from_outputs block = transaction_references [] block.transactions

  -- `countAddressOutputs`: how many unspent outputs of each transaction an address has.
  pub count_at : Option ℤ → ℤ
  count_at none = pos 0
  count_at (some n) = n

  pub count_address : Str → GoMap (GoMap ℤ) → Str → GoMap (GoMap ℤ)
  unfolding count_at
  count_address tx_id counts address = elim (lookup counts address) [
    | none ↦ insert counts address ((tx_id, pos 1) ∷ [])
    | some inner ↦
        insert counts address (insert inner tx_id (increment (count_at (lookup inner tx_id))))
  ]

  pub count_addresses : Str → GoMap (GoMap ℤ) → List Str → GoMap (GoMap ℤ)
  unfolding count_address
  count_addresses tx_id counts [] = counts
  count_addresses tx_id counts (address ∷ addresses) =
      count_addresses tx_id (count_address tx_id counts address) addresses

  pub count_outputs :
      Str → GoMap (GoMap ℤ) → List (Option TransactionOutput) → Outcome (GoMap (GoMap ℤ))
  unfolding count_addresses
  count_outputs tx_id counts [] = ok counts
  count_outputs tx_id counts (none ∷ outputs) = count_outputs tx_id counts outputs
  count_outputs tx_id counts (some output ∷ outputs) = do
    addresses ← get_addresses env.base output
    count_outputs tx_id (count_addresses tx_id counts addresses) outputs

  pub count_address_outputs : GoMap (GoMap ℤ) → GoMap TransactionOutputs → Outcome (GoMap (GoMap ℤ))
  unfolding count_outputs
  count_address_outputs counts [] = ok counts
  count_address_outputs counts ((tx_id, entry) ∷ m) = do
    counts' ← count_outputs tx_id counts entry.outputs
    count_address_outputs counts' m

  -- `addressesOutputsCount[addr][txID]--`: writing to the map of a missing address panics.
  pub uncount_addresses : Str → GoMap (GoMap ℤ) → List Str → Outcome (GoMap (GoMap ℤ))
  unfolding count_at
  uncount_addresses tx_id counts [] = ok counts
  uncount_addresses tx_id counts (address ∷ addresses) = elim (lookup counts address) [
    | none ↦ panic
    | some inner ↦
        uncount_addresses tx_id
          (insert counts address (insert inner tx_id (decrement (count_at (lookup inner tx_id)))))
          addresses
  ]

  -- An output that is nil, because it was spent before, is dereferenced by `GetAddresses`.
  pub addresses_of : Option TransactionOutput → Outcome (List Str)
  addresses_of none = panic
  addresses_of (some output) = get_addresses env.base output

  pub deref_input :
      GoMap TransactionOutputs
      → List Str
      → GoMap (GoMap ℤ)
      → SpendingOutput
      → Outcome (GoMap (GoMap ℤ))
  unfolding uncount_addresses addresses_of is_out_of_range output_at
  deref_input spending current counts input =
      if contains current input.tx_id then ok counts else elim (lookup spending input.tx_id) [
        | none ↦ err spending_output_not_found
        | some entry ↦
            if is_out_of_range (length entry.outputs) input.vout
            then err spending_output_not_found
            else (output_at entry.outputs input.vout >>= λ spent.
                addresses_of spent >>= λ addresses. uncount_addresses input.tx_id counts addresses)
      ]

  pub deref_inputs :
      GoMap TransactionOutputs
      → List Str
      → GoMap (GoMap ℤ)
      → List (Option SpendingOutput)
      → Outcome (GoMap (GoMap ℤ))
  unfolding deref_input
  deref_inputs spending current counts [] = ok counts
  deref_inputs spending current counts (none ∷ inputs) = deref_inputs spending current counts inputs
  deref_inputs spending current counts (some input ∷ inputs) = do
    counts' ← deref_input spending current counts input
    deref_inputs spending current counts' inputs

  pub deref_transactions :
      GoMap TransactionOutputs
      → List Str
      → GoMap (GoMap ℤ)
      → List (Transaction env)
      → Outcome (GoMap (GoMap ℤ))
  unfolding deref_inputs
  deref_transactions spending current counts [] = ok counts
  deref_transactions spending current counts (tx ∷ txs) = do
    counts' ← deref_inputs spending (tx.id ∷ current) counts tx.vin
    deref_transactions spending (tx.id ∷ current) counts' txs

  -- The ids whose count has come to zero, under each address that has one.
  pub zero_ids : GoMap ℤ → List Str
  zero_ids [] = []
  zero_ids ((tx_id, pos zero) ∷ m) = tx_id ∷ zero_ids m
  zero_ids ((tx_id, n) ∷ m) = zero_ids m

  pub under_address : Str → List Str → GoMap (List Str) → GoMap (List Str)
  under_address address [] rest = rest
  under_address address (x ∷ ids) rest = (address, x ∷ ids) ∷ rest

  pub dereferenced : GoMap (GoMap ℤ) → GoMap (List Str)
  unfolding zero_ids under_address
  dereferenced [] = []
  dereferenced ((address, inner) ∷ m) = under_address address (zero_ids inner) (dereferenced m)

  unfoldable pub deref_addresses : GoMap TransactionOutputs → Block env → Outcome (GoMap (List Str))
  unfolding count_address_outputs deref_transactions dereferenced
  deref_addresses spending block = do
    counts ← count_address_outputs [] spending
    left ← deref_transactions spending [] counts block.transactions
    ok (dereferenced left)
