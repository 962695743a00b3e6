-- ===== src/Utxo/Service/Taken.antt =====
-- `NewCheckpointFromNextBlock`: a checkpoint that is returned is the one that the store can commit
-- and take back.
use bitcoin_utxo_indexer.Prelude.{
  ℕ, ◌+◌, ◌≡◌, refl, ◌∙◌, sym, ◌⊎◌, inl, inr, List, [], ◌∷◌, Option, none, some, ◌==◌, ==_iff,
  Bool-cases, Option-cases, length,
}
use bitcoin_utxo_indexer.Prelude.Str.{Str, GoMap, lookup, insert, Distinct, insert-Distinct}
use bitcoin_utxo_indexer.Utxo.Outcome.{
  Outcome, ok, err, panic, already_spent, not_found, block_hash_not_found, inconsistence_state,
  no_diff, next_block_too_far, spending_output_not_found, block_already_stored, failed, ◌>>=◌,
}
use bitcoin_utxo_indexer.Utxo.Types.{TransactionOutputs}
use bitcoin_utxo_indexer.Utxo.Key.Distinct.{hash_key, height_key}
use bitcoin_utxo_indexer.Utxo.Checkpoint.{CheckpointBlock, UtxoSpendingCheckpoint}
use bitcoin_utxo_indexer.Utxo.Backend.{Backend, IsBackend, View, hash_value, height_value}
use bitcoin_utxo_indexer.Utxo.Store.{Store, return_outcome, get_block_hash, get_block_height}
use bitcoin_utxo_indexer.Utxo.Store.Reads.{
  continue-ok, get_block_hash-Reads, get_block_hash-reads, get_block_hash-missing,
  get_block_height-Reads, get_block_height-reads, return_outcome-ok,
}
use bitcoin_utxo_indexer.Utxo.Block.{BlockEnv, SpendingOutput, Transaction, Block}
use bitcoin_utxo_indexer.Utxo.Spending.{
  is_out_of_range, spend_at, spend_output, spend_inputs, spend_transactions, spend_all_outputs,
  get_all_spendable_outputs, deref_addresses, extract_address_references_from_outputs,
}
use bitcoin_utxo_indexer.Utxo.Store.Effect.{names}
use bitcoin_utxo_indexer.Utxo.Spending.Spent.{AreSpent, spend_transactions-AreSpent}
use bitcoin_utxo_indexer.Utxo.Spending.Referred.{refers, extract-names}
use bitcoin_utxo_indexer.Utxo.Spending.Dereferred.{is_dereferred, deref_addresses-names}
use bitcoin_utxo_indexer.Utxo.Service.{
  extract_spending_outputs_from_block, first_checkpoint, new_block_point, checkpoint_after,
  checkpoint_at, after_hash, new_checkpoint_from_next_block,
}
use bitcoin_utxo_indexer.Utxo.Service.Checkpoints.{Found, extract_transactions-Found}

-- A chain of plain results that ends well went through its first one.
bind-ok {ℓ κ} :
    {A : Type ℓ} {B : Type κ} (r : Outcome A) (f : A → Outcome B) (y : B)
    → (r >>= f) ≡ ok y
    → (a : A) × (r ≡ ok a) × (f a ≡ ok y)
bind-ok (ok a) f y h = (a, refl, h)
bind-ok (err e) f y h = absurd cc
bind-ok panic f y h = absurd cc

nothing-Found : (ver : Str) (v : View) → Found ver v []
unfolding lookup
nothing-Found ver v = record { entries = λ t entry e. absurd cc; distinct = tt }

ok-injective {ℓ} : {A : Type ℓ} (x y : A) → ok x ≡ ok y → x ≡ y
ok-injective x y h = cc

spend_output-Distinct :
    (m m' : GoMap TransactionOutputs) (input : SpendingOutput)
    → Distinct m
    → spend_output m input ≡ ok m'
    → Distinct m'
unfolding spend_output
spend_output-Distinct m m' input d h = elim (Option-cases (lookup m input.tx_id)) [
  | inl missing ↦
      absurd
        (let h' : err spending_output_not_found ≡ ok m' = rw (spend_output, missing) at h in cc)
  | inr (entry, e) ↦ elim (Bool-cases (is_out_of_range (length entry.outputs) input.vout)) [
    | inl out ↦
        absurd
          (let h' : err spending_output_not_found ≡ ok m' = rw (spend_output, e, out) at h in cc)
    | inr inside ↦
        let (left, spent, last) =
          bind-ok (spend_at entry.outputs input.vout)
            (λ left. ok (insert m input.tx_id (record entry { outputs = left }))) m'
            (rw (spend_output, e, inside) at h) in
        let same : insert m input.tx_id (record entry { outputs = left }) ≡ m' = cc in
        rw (sym same) (insert-Distinct m input.tx_id _ d)
  ]
]

spend_inputs-Distinct :
    (m m' : GoMap TransactionOutputs) (inputs : List (Option SpendingOutput))
    → Distinct m
    → spend_inputs m inputs ≡ ok m'
    → Distinct m'
unfolding spend_inputs
spend_inputs-Distinct m m' [] d h = let same : m ≡ m' = cc in rw (sym same) d
spend_inputs-Distinct m m' (none ∷ inputs) d h = spend_inputs-Distinct m m' inputs d h
spend_inputs-Distinct m m' (some input ∷ inputs) d h =
    let (m₁, first, rest) = bind-ok (spend_output m input) (λ k. spend_inputs k inputs) m' h in
    spend_inputs-Distinct m₁ m' inputs (spend_output-Distinct m m₁ input d first) rest

module _ (env : BlockEnv) (decimals : ℕ) where
  spend_transactions-Distinct :
      (height : ℕ) (m m' : GoMap TransactionOutputs) (txs : List (Transaction env))
      → Distinct m
      → spend_transactions env decimals height m txs ≡ ok m'
      → Distinct m'
  unfolding spend_transactions
  spend_transactions-Distinct height m m' [] d h = let same : m ≡ m' = cc in rw (sym same) d
  spend_transactions-Distinct height m m' (tx ∷ txs) d h =
      let (outputs, made, spending) =
        bind-ok (get_all_spendable_outputs env decimals tx.vout) _ m' h in
      let added = insert m tx.id (record { block_height = height; outputs = outputs }) in
      let (m₁, spent, rest) =
        bind-ok (spend_inputs added tx.vin) (λ k. spend_transactions env decimals height k txs) m'
          spending in
      spend_transactions-Distinct height m₁ m' txs
        (spend_inputs-Distinct added m₁ tx.vin (insert-Distinct m tx.id _ d) spent) rest

-- `c` is the checkpoint from the block `previous` of the index `v` to the new block. What it saves is
-- what the index holds, and no map has a key twice. Its new entries are those of the block's
-- transactions and those it saves; at each of their outputs stands what the block leaves of the saved
-- ones; its new references are to the transactions
-- of the block that pay an address; and it takes away the references to the saved transactions in
-- which the block spends the last output of an address.
pub record Taken (ver : Str) (v : View) (env : BlockEnv) (decimals : ℕ) (block : Block env)
    (c : UtxoSpendingCheckpoint) (previous : CheckpointBlock) : Type 0 where
  pub previous_block : c.prev_block ≡ some previous
  pub previous_hash : v.values (hash_key ver) ≡ some (hash_value previous.hash)
  pub previous_height :
      (v.values (height_key ver) ≡ some (height_value previous.height))
      ⊎ ((v.values (height_key ver) ≡ none) × (previous.height ≡ 0))
  pub next : previous.height + 1 ≡ block.height
  pub new_height : c.new_block.height ≡ block.height
  pub new_hash : c.new_block.hash ≡ block.hash
  pub before : Found ver v c.txs_before_update
  pub distinct_new : Distinct c.new_tx_outputs
  pub spent : AreSpent env decimals c.txs_before_update c.new_tx_outputs block.transactions
  pub dereferred :
      (a x : Str)
      → names c.dereferenced_addresses_txs a x
        ≡ is_dereferred env decimals c.txs_before_update block.transactions a x
  pub referred :
      (a x : Str) → names c.new_address_references a x ≡ refers env decimals block.transactions a x

module _ (b : Backend) (laws : IsBackend b) (ver : Str) (env : BlockEnv) (decimals : ℕ)
    (block : Block env) where
  checkpoint_after-Taken :
      (v : View) (previous : CheckpointBlock) (s : Store b) (c : UtxoSpendingCheckpoint)
      → laws.view s.world ≡ v
      → v.values (hash_key ver) ≡ some (hash_value previous.hash)
      → (v.values (height_key ver) ≡ some (height_value previous.height))
        ⊎ ((v.values (height_key ver) ≡ none) × (previous.height ≡ 0))
      → previous.height + 1 ≡ block.height
      → (checkpoint_after b ver env decimals previous block s).0 ≡ ok c
      → Taken ver v env decimals block c previous
  unfolding checkpoint_after new_block_point extract_spending_outputs_from_block spend_all_outputs
  checkpoint_after-Taken v previous s c same hash height next h =
      let (spending, read, h₁) =
        continue-ok b laws (extract_spending_outputs_from_block b ver env decimals block s).0 _ _ c
          h in
      let (gone, unreferred, h₂) =
        continue-ok b laws (return_outcome b ver (deref_addresses env decimals spending block) _).0
          _ _ c h₁ in
      let (new_outputs, spent, h₃) =
        continue-ok b laws
          (return_outcome b ver (spend_all_outputs env decimals spending block) _).0 _ _ c h₂ in
      let (references, referred, h₄) =
        continue-ok b laws
          (return_outcome b ver (extract_address_references_from_outputs env decimals block) _).0 _
          _ c h₃ in
      let made : UtxoSpendingCheckpoint = record {
        prev_block = some previous;
        new_block = new_block_point b ver env decimals block;
        txs_before_update = spending;
        dereferenced_addresses_txs = gone;
        new_tx_outputs = new_outputs;
        new_address_references = references;
      } in
      let is_c : made ≡ c = ok-injective made c h₄ in
      let found : Found ver v spending = rw (sym same) (
        extract_transactions-Found b laws ver env decimals [] [] spending block.transactions s
          (nothing-Found ver (laws.view s.world)) read) in
      rw (sym is_c) (record {
        previous_block = refl;
        previous_hash = hash;
        previous_height = height;
        next = next;
        new_height = refl;
        new_hash = refl;
        before = found;
        distinct_new =
            spend_transactions-Distinct env decimals block.height spending new_outputs
              block.transactions found.distinct
              (return_outcome-ok b laws ver _ _ new_outputs spent);
        spent =
            spend_transactions-AreSpent env decimals block.height spending new_outputs
              block.transactions (return_outcome-ok b laws ver _ _ new_outputs spent);
        dereferred = λ a x.
            deref_addresses-names env decimals spending block gone a x
              (return_outcome-ok b laws ver _ _ gone unreferred);
        referred = λ a x.
            extract-names env decimals block references a x
              (return_outcome-ok b laws ver _ _ references referred);
      })

  checkpoint_at-Taken :
      (v : View) (current : Str) (s : Store b) (c : UtxoSpendingCheckpoint)
      → laws.view s.world ≡ v
      → v.values (hash_key ver) ≡ some (hash_value current)
      → (checkpoint_at b ver env decimals current block s).0 ≡ ok c
      → (previous : CheckpointBlock) × Taken ver v env decimals block c previous
  unfolding checkpoint_at
  checkpoint_at-Taken v current s c same hash h =
      let (height, read, rest) =
        continue-ok b laws (get_block_height b ver s).0 _ (get_block_height b ver s).1 c h in
      let stands = get_block_height-reads b laws ver s height read in
      let kept = (get_block_height-Reads b laws ver).view s in
      elim (Bool-cases (block.height == height)) [
        | inl equal ↦ absurd (let h' : err no_diff ≡ ok c = rw equal at rest in cc)
        | inr new ↦ elim (Bool-cases (height + 1 == block.height)) [
          | inr far ↦ absurd (let h' : err next_block_too_far ≡ ok c = rw (new, far) at rest in cc)
          | inl next ↦ (
            record { height = height; hash = current },
            checkpoint_after-Taken v (record { height = height; hash = current })
                (get_block_height b ver s).1 c (kept ∙ same) hash (rw same at stands)
                ((==_iff _ _).0 next) (rw (new, next) at rest),
          )
        ]
      ]

  after_hash-Taken :
      (v : View) (r : Outcome Str) (s : Store b) (c : UtxoSpendingCheckpoint)
      → laws.view s.world ≡ v
      → ((hash : Str) → r ≡ ok hash → v.values (hash_key ver) ≡ some (hash_value hash))
      → (r ≡ err block_hash_not_found → v.values (hash_key ver) ≡ none)
      → (after_hash b ver env decimals block r s).0 ≡ ok c
      → ((c ≡ first_checkpoint b ver env decimals block) × (v.values (hash_key ver) ≡ none))
        ⊎ ((previous : CheckpointBlock) × Taken ver v env decimals block c previous)
  unfolding after_hash
  after_hash-Taken v (ok current) s c same found missing h =
      inr (checkpoint_at-Taken v current s c same (found current refl) h)
  after_hash-Taken v (err block_hash_not_found) s c same found missing h =
      inl (sym (ok-injective _ c h), missing refl)
  after_hash-Taken v (err already_spent) s c same found missing h = absurd cc
  after_hash-Taken v (err not_found) s c same found missing h = absurd cc
  after_hash-Taken v (err inconsistence_state) s c same found missing h = absurd cc
  after_hash-Taken v (err no_diff) s c same found missing h = absurd cc
  after_hash-Taken v (err next_block_too_far) s c same found missing h = absurd cc
  after_hash-Taken v (err spending_output_not_found) s c same found missing h = absurd cc
  after_hash-Taken v (err block_already_stored) s c same found missing h = absurd cc
  after_hash-Taken v (err failed) s c same found missing h = absurd cc
  after_hash-Taken v panic s c same found missing h = absurd cc

  -- A checkpoint that is returned is either the first one, of a database with no block, or was taken
  -- from the block that the database holds, one below the new block. In the second case it saves
  -- entries that the index holds; it has a new entry for each of the block's transactions and for each
  -- saved one, and for no other; at every index of an entry stands what the transactions, taken in
  -- order, leave of the saved outputs; it refers an address to the transactions of the block that
  -- pay it; and it takes away the references to the saved transactions whose count of the address's
  -- outputs is zero, once each input has taken one off.
  pub new_checkpoint_from_next_block-Taken :
      (s : Store b) (c : UtxoSpendingCheckpoint)
      → (new_checkpoint_from_next_block b ver env decimals block s).0 ≡ ok c
      → ((c ≡ first_checkpoint b ver env decimals block)
          × ((laws.view s.world).values (hash_key ver) ≡ none))
        ⊎ ((previous : CheckpointBlock) × Taken ver
              (laws.view s.world)
              env
              decimals
              block
              c
              previous)
  unfolding new_checkpoint_from_next_block
  new_checkpoint_from_next_block-Taken s c h =
      after_hash-Taken (laws.view s.world) (get_block_hash b ver s).0 (get_block_hash b ver s).1 c
        ((get_block_hash-Reads b laws ver).view s) (λ hash. get_block_hash-reads b laws ver s hash)
        (get_block_hash-missing b laws ver s) h
