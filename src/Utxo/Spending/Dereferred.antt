-- ===== src/Utxo/Spending/Dereferred.antt =====
-- The references that derefAddresses takes away: those of the saved transactions whose count of an
-- address's outputs comes to zero, counted at one reference.
use bitcoin_utxo_indexer.Prelude.{
  ℕ, zero, suc, ◌≡◌, refl, sym, ap, ◌∙◌, arith, Bool, true, false, ◌&&◌, ◌||◌, Bool-cases,
  Option-cases, inl, inr, List, [], ◌∷◌, Option, none, some, if◌then◌else◌, get_elem?, get_or,
  length,
}
use bitcoin_utxo_indexer.Prelude.Str.{
  Str, str_eq, str_eq_iff, GoMap, lookup, insert, lookup-insert, contains, Distinct,
  insert-Distinct,
}
use bitcoin_utxo_indexer.Utxo.Outcome.{
  ok, err, panic, spending_output_not_found, bind_ok, from_ok, ok_injective,
}
use bitcoin_utxo_indexer.Utxo.Types.{TransactionOutput, TransactionOutputs, get_addresses}
use bitcoin_utxo_indexer.Utxo.Store.Effect.{names}
use bitcoin_utxo_indexer.Utxo.Block.{
  ℤ, pos, negsuc, increment, decrement, BlockEnv, SpendingOutput, Transaction, Block,
}
use bitcoin_utxo_indexer.Utxo.Spending.{
  is_out_of_range, output_at, count_at, count_address, count_addresses, count_outputs,
  count_address_outputs, uncount_addresses, addresses_of, deref_input, deref_inputs,
  deref_transactions, zero_ids, under_address, dereferenced, deref_addresses,
}
use bitcoin_utxo_indexer.Utxo.Spending.Spent.{unspent_at}

-- The counts of one address, and the count of one reference.
abbrev under : Option (GoMap ℤ) → GoMap ℤ
under none = []
under (some inner) = inner

abbrev counted : GoMap (GoMap ℤ) → Str → Str → Option ℤ
counted counts a x = lookup (under (lookup counts a)) x

abbrev AllDistinct : GoMap (GoMap ℤ) → Type 0
AllDistinct [] = Unit
AllDistinct ((k, inner) ∷ m) = Distinct inner × AllDistinct m

-- No map has a key twice.
record IsCount (counts : GoMap (GoMap ℤ)) : Type 0 where
  outer : Distinct counts
  inner : AllDistinct counts

under-Distinct : (m : GoMap (GoMap ℤ)) (k : Str) → AllDistinct m → Distinct (under (lookup m k))
unfolding lookup
under-Distinct [] k d = tt
under-Distinct ((j, w) ∷ m) k d = elim (Bool-cases (str_eq j k)) [
  | inl same ↦ rw same d.0
  | inr other ↦ rw other (under-Distinct m k d.1)
]

insert-AllDistinct :
    (m : GoMap (GoMap ℤ)) (k : Str) (v : GoMap ℤ)
    → AllDistinct m
    → Distinct v
    → AllDistinct (insert m k v)
unfolding insert
insert-AllDistinct [] k v d h = (h, tt)
insert-AllDistinct ((j, w) ∷ m) k v d h = elim (Bool-cases (str_eq j k)) [
  | inl same ↦ rw same (h, d.1)
  | inr other ↦ rw other (d.0, insert-AllDistinct m k v d.1 h)
]

-- A new count `n` of `t` under `k`.
abbrev put : GoMap (GoMap ℤ) → Str → Str → ℤ → GoMap (GoMap ℤ)
put counts k t n = insert counts k (insert (under (lookup counts k)) t n)

put-IsCount :
    (counts : GoMap (GoMap ℤ)) (k t : Str) (n : ℤ) → IsCount counts → IsCount (put counts k t n)
put-IsCount counts k t n c = record {
  outer = insert-Distinct counts k _ c.outer;
  inner =
      insert-AllDistinct counts k _ c.inner
        (insert-Distinct (under (lookup counts k)) t n (under-Distinct counts k c.inner));
}

counted-put :
    (counts : GoMap (GoMap ℤ)) (k t : Str) (n : ℤ) (a x : Str)
    → counted (put counts k t n) a x
      ≡ (if str_eq k a && str_eq t x then some n else counted counts a x)
counted-put counts k t n a x = elim (Bool-cases (str_eq k a)) [
  | inr other ↦ rw (lookup-insert counts k a (insert (under (lookup counts k)) t n), other) refl
  | inl same ↦
      let e : k ≡ a = (str_eq_iff k a).0 same in
      rw
        (
          lookup-insert counts k a (insert (under (lookup counts k)) t n),
          same,
          lookup-insert (under (lookup counts k)) t x n,
          e,
        )
        refl
]

-- The count that a change `f` of the count of `t` under `k` leaves at the reference.
counted-change :
    (f : ℤ → ℤ) (env : BlockEnv) (decimals : ℕ) (counts : GoMap (GoMap ℤ)) (k t a x : Str)
    → counted (put counts k t (f (count_at env decimals (counted counts k t)))) a x ≡ (
        if str_eq k a && str_eq t x
        then some (f (count_at env decimals (counted counts a x)))
        else counted counts a x)
counted-change f env decimals counts k t a x =
    counted-put counts k t _ a x ∙ elim (Bool-cases (str_eq k a)) [
      | inr other ↦ rw other refl
      | inl same ↦ elim (Bool-cases (str_eq t x)) [
        | inr other ↦ rw (same, other) refl
        | inl same' ↦
            let e : k ≡ a = (str_eq_iff k a).0 same in
            let e' : t ≡ x = (str_eq_iff t x).0 same' in rw (same, same', e, e') refl
      ]
    ]

-- The ids that are left.
abbrev is_zero : Option ℤ → Bool
is_zero none = false
is_zero (some (pos zero)) = true
is_zero (some (pos (suc n))) = false
is_zero (some (negsuc n)) = false

zero_first :
    (env : BlockEnv) (decimals : ℕ) (k x : Str) (n : ℤ) (m : GoMap ℤ)
    → contains (zero_ids env decimals ((k, n) ∷ m)) x
      ≡ ((str_eq k x && is_zero (some n)) || contains (zero_ids env decimals m) x)
unfolding zero_ids contains
zero_first env decimals k x (pos zero) m = ground arith
zero_first env decimals k x (pos (suc n)) m = ground arith
zero_first env decimals k x (negsuc n) m = ground arith

zero_ids-lookup :
    (env : BlockEnv) (decimals : ℕ) (m : GoMap ℤ) (x : Str)
    → Distinct m
    → contains (zero_ids env decimals m) x ≡ is_zero (lookup m x)
unfolding lookup zero_ids contains
zero_ids-lookup env decimals [] x d = refl
zero_ids-lookup env decimals ((k, n) ∷ m) x (new, d) =
    zero_first env decimals k x n m ∙ elim (Bool-cases (str_eq k x)) [
      | inr other ↦ rw (other, zero_ids-lookup env decimals m x d) refl
      | inl same ↦
          let e : k ≡ x = (str_eq_iff k x).0 same in
          let gone : lookup m x ≡ none = rw (← e) new in
          rw (same, zero_ids-lookup env decimals m x d, gone) (ground arith)
    ]

under_address-names :
    (env : BlockEnv) (decimals : ℕ) (k : Str) (ids : List Str) (rest : GoMap (List Str)) (a x : Str)
    → names (under_address env decimals k ids rest) a x
      ≡ ((str_eq k a && contains ids x) || names rest a x)
unfolding under_address contains
under_address-names env decimals k [] rest a x = ground arith
under_address-names env decimals k (id ∷ ids) rest a x = refl

dereferenced-names :
    (env : BlockEnv) (decimals : ℕ) (counts : GoMap (GoMap ℤ)) (a x : Str)
    → Distinct counts
    → AllDistinct counts
    → names (dereferenced env decimals counts) a x ≡ is_zero (counted counts a x)
unfolding lookup dereferenced
dereferenced-names env decimals [] a x d all = refl
dereferenced-names env decimals ((k, inner) ∷ m) a x (new, d) (one, all) =
    under_address-names env decimals k (zero_ids env decimals inner) _ a x
    ∙ rw (zero_ids-lookup env decimals inner x one, dereferenced-names env decimals m a x d all)
        (elim (Bool-cases (str_eq k a)) [
          | inr other ↦ rw other refl
          | inl same ↦
              let e : k ≡ a = (str_eq_iff k a).0 same in
              let gone : lookup m a ≡ none = rw (← e) new in rw (same, gone) (ground arith)
        ])

get_or-get_elem? :
    {A : Type 0} (xs : List (Option A)) (i : ℕ) (o : Option A)
    → get_elem? xs i ≡ some o
    → get_or xs i none ≡ o
get_or-get_elem? [] i o h = absurd cc
get_or-get_elem? (x ∷ xs) zero o h = cc
get_or-get_elem? (x ∷ xs) (suc i) o h = get_or-get_elem? xs i o h

module _ (env : BlockEnv) (decimals : ℕ) where
  count_address-put :
      (t : Str) (counts : GoMap (GoMap ℤ)) (k : Str)
      → count_address env decimals t counts k
        ≡ put counts k t (increment (count_at env decimals (counted counts k t)))
  unfolding count_address count_at insert lookup
  count_address-put t counts k = elim (Option-cases (lookup counts k)) [
    | inl missing ↦ rw (count_address, missing) refl
    | inr (inner, found) ↦ rw (count_address, found) refl
  ]

  module _ (a x : Str) where
    -- The count of the reference behind one output of each of the addresses, in a transaction.
    abbrev changed : (ℤ → ℤ) → Str → List Str → Option ℤ → Option ℤ
    changed f t [] n = n
    changed f t (k ∷ addresses) n =
        changed f t addresses
          (if str_eq k a && str_eq t x then some (f (count_at env decimals n)) else n)

    abbrev raised_outputs : Str → List (Option TransactionOutput) → Option ℤ → Option ℤ
    raised_outputs t [] n = n
    raised_outputs t (none ∷ outputs) n = raised_outputs t outputs n
    raised_outputs t (some output ∷ outputs) n =
        raised_outputs t outputs
          (changed increment t (from_ok [] (get_addresses env.base output)) n)

    -- The outputs of the saved entries, counted.
    abbrev raised : GoMap TransactionOutputs → Option ℤ → Option ℤ
    raised [] n = n
    raised ((t, entry) ∷ m) n = raised m (raised_outputs t entry.outputs n)

    -- An input takes one output off, unless it spends one of this block's transactions so far.
    abbrev output_of : GoMap TransactionOutputs → Str → ℤ → Option TransactionOutput
    output_of saved id (pos v) = unspent_at saved id v
    output_of saved id (negsuc v) = none

    abbrev addresses_in : Option TransactionOutput → List Str
    addresses_in none = []
    addresses_in (some output) = from_ok [] (get_addresses env.base output)

    abbrev lowered_inputs :
        GoMap TransactionOutputs → List Str → List (Option SpendingOutput) → Option ℤ → Option ℤ
    lowered_inputs saved current [] n = n
    lowered_inputs saved current (none ∷ inputs) n = lowered_inputs saved current inputs n
    lowered_inputs saved current (some input ∷ inputs) n = lowered_inputs saved current inputs (
        if contains current input.tx_id
        then n
        else changed decrement input.tx_id (addresses_in (output_of saved input.tx_id input.vout))
            n)

    abbrev lowered :
        GoMap TransactionOutputs → List Str → List (Transaction env) → Option ℤ → Option ℤ
    lowered saved current [] n = n
    lowered saved current (tx ∷ txs) n =
        lowered saved (tx.id ∷ current) txs (lowered_inputs saved (tx.id ∷ current) tx.vin n)

    -- `c'` has the count `n` at the reference.
    record Has (counts : GoMap (GoMap ℤ)) (n : Option ℤ) : Type 0 where
      is_count : IsCount counts
      value : counted counts a x ≡ n

    put-Has :
        (f : ℤ → ℤ) (counts : GoMap (GoMap ℤ)) (k t : Str) (n : Option ℤ)
        → Has counts n
        → Has
            (put counts k t (f (count_at env decimals (counted counts k t))))
            (if str_eq k a && str_eq t x then some (f (count_at env decimals n)) else n)
    put-Has f counts k t n h = record {
      is_count = put-IsCount counts k t _ h.is_count;
      value = counted-change f env decimals counts k t a x ∙ rw h.value refl;
    }

    count_addresses-Has :
        (t : Str) (addresses : List Str) (counts : GoMap (GoMap ℤ)) (n : Option ℤ)
        → Has counts n
        → Has (count_addresses env decimals t counts addresses) (changed increment t addresses n)
    unfolding count_addresses
    count_addresses-Has t [] counts n h = h
    count_addresses-Has t (k ∷ addresses) counts n h =
        count_addresses-Has t addresses (count_address env decimals t counts k) _
          (rw (count_address-put t counts k) (put-Has increment counts k t n h))

    uncount_addresses-Has :
        (t : Str) (addresses : List Str) (counts counts' : GoMap (GoMap ℤ)) (n : Option ℤ)
        → Has counts n
        → uncount_addresses env decimals t counts addresses ≡ ok counts'
        → Has counts' (changed decrement t addresses n)
    unfolding uncount_addresses
    uncount_addresses-Has t [] counts counts' n h e =
        let same : counts ≡ counts' = ok_injective _ _ e in rw (sym same) h
    uncount_addresses-Has t (k ∷ addresses) counts counts' n h e =
        elim (Option-cases (lookup counts k)) [
          | inl missing ↦
              absurd (let e' : panic ≡ ok counts' = rw (uncount_addresses, missing) at e in cc)
          | inr (inner, found) ↦
              let first = rw found at (put-Has decrement counts k t n h) in
              uncount_addresses-Has t addresses _ counts' _ first
                (rw (uncount_addresses, found) at e)
        ]

    count_outputs-Has :
        (t : Str) (outputs : List (Option TransactionOutput)) (counts counts' : GoMap (GoMap ℤ))
        (n : Option ℤ)
        → Has counts n
        → count_outputs env decimals t counts outputs ≡ ok counts'
        → Has counts' (raised_outputs t outputs n)
    unfolding count_outputs
    count_outputs-Has t [] counts counts' n h e =
        let same : counts ≡ counts' = ok_injective _ _ e in rw (sym same) h
    count_outputs-Has t (none ∷ outputs) counts counts' n h e =
        count_outputs-Has t outputs counts counts' n h e
    count_outputs-Has t (some output ∷ outputs) counts counts' n h e =
        let (addresses, (read, rest)) = bind_ok (get_addresses env.base output) _ counts' e in
        rw read (
          count_outputs-Has t outputs _ counts' _ (count_addresses-Has t addresses counts n h) rest)

    count_address_outputs-Has :
        (m : GoMap TransactionOutputs) (counts counts' : GoMap (GoMap ℤ)) (n : Option ℤ)
        → Has counts n
        → count_address_outputs env decimals counts m ≡ ok counts'
        → Has counts' (raised m n)
    unfolding count_address_outputs
    count_address_outputs-Has [] counts counts' n h e =
        let same : counts ≡ counts' = ok_injective _ _ e in rw (sym same) h
    count_address_outputs-Has ((t, entry) ∷ m) counts counts' n h e =
        let (counts₁, (first, rest)) =
          bind_ok (count_outputs env decimals t counts entry.outputs) _ counts' e in
        count_address_outputs-Has m counts₁ counts' _
          (count_outputs-Has t entry.outputs counts counts₁ n h first) rest

    -- The addresses that derefAddresses reads at an input.
    input_addresses :
        (saved : GoMap TransactionOutputs) (id : Str) (vout : ℤ) (entry : TransactionOutputs)
        (spent : Option TransactionOutput) (addresses : List Str)
        → lookup saved id ≡ some entry
        → output_at entry.outputs vout ≡ ok spent
        → addresses_of env decimals spent ≡ ok addresses
        → addresses_in (output_of saved id vout) ≡ addresses
    unfolding output_at addresses_of
    input_addresses saved id (negsuc v) entry spent addresses found at read = absurd cc
    input_addresses saved id (pos v) entry none addresses found at read = absurd cc
    input_addresses saved id (pos v) entry (some output) addresses found at read =
        elim (Option-cases (get_elem? entry.outputs v)) [
          | inl missing ↦ absurd (let h : panic ≡ ok (some output) = rw missing at at in cc)
          | inr (o, here) ↦
              let same : o ≡ some output = ok_injective _ _ (rw here at at) in
              rw (found, get_or-get_elem? entry.outputs v o here, same, read) refl
        ]

    deref_input-Has :
        (saved : GoMap TransactionOutputs) (current : List Str) (counts counts' : GoMap (GoMap ℤ))
        (input : SpendingOutput) (n : Option ℤ)
        → Has counts n
        → deref_input env decimals saved current counts input ≡ ok counts'
        → Has counts' (
            if contains current input.tx_id
            then n
            else changed decrement input.tx_id
                (addresses_in (output_of saved input.tx_id input.vout))
                n)
    unfolding deref_input
    deref_input-Has saved current counts counts' input n h e =
        elim (Bool-cases (contains current input.tx_id)) [
          | inl own ↦
              let same : counts ≡ counts' = ok_injective _ _ (rw (deref_input, own) at e) in
              rw (own, sym same) h
          | inr other ↦ elim (Option-cases (lookup saved input.tx_id)) [
            | inl missing ↦ absurd (
                let e' : err spending_output_not_found ≡ ok counts' =
                  rw (deref_input, other, missing) at e in
                cc)
            | inr (entry, found) ↦
                elim (Bool-cases (is_out_of_range (length entry.outputs) input.vout)) [
                  | inl out ↦ absurd (
                      let e' : err spending_output_not_found ≡ ok counts' =
                        rw (deref_input, other, found, out) at e in
                      cc)
                  | inr inside ↦
                      let (spent, (at, e₁)) =
                        bind_ok (output_at entry.outputs input.vout) _ counts'
                          (rw (deref_input, other, found, inside) at e) in
                      let (addresses, (read, e₂)) =
                        bind_ok (addresses_of env decimals spent) _ counts' e₁ in
                      rw
                        (
                          other,
                          input_addresses saved input.tx_id input.vout entry spent addresses found
                              at read,
                        )
                        (uncount_addresses-Has input.tx_id addresses counts counts' n h e₂)
                ]
          ]
        ]

    deref_inputs-Has :
        (saved : GoMap TransactionOutputs) (current : List Str)
        (inputs : List (Option SpendingOutput)) (counts counts' : GoMap (GoMap ℤ)) (n : Option ℤ)
        → Has counts n
        → deref_inputs env decimals saved current counts inputs ≡ ok counts'
        → Has counts' (lowered_inputs saved current inputs n)
    unfolding deref_inputs
    deref_inputs-Has saved current [] counts counts' n h e =
        let same : counts ≡ counts' = ok_injective _ _ e in rw (sym same) h
    deref_inputs-Has saved current (none ∷ inputs) counts counts' n h e =
        deref_inputs-Has saved current inputs counts counts' n h e
    deref_inputs-Has saved current (some input ∷ inputs) counts counts' n h e =
        let (counts₁, (first, rest)) =
          bind_ok (deref_input env decimals saved current counts input) _ counts' e in
        deref_inputs-Has saved current inputs counts₁ counts' _
          (deref_input-Has saved current counts counts₁ input n h first) rest

    deref_transactions-Has :
        (saved : GoMap TransactionOutputs) (current : List Str) (txs : List (Transaction env))
        (counts counts' : GoMap (GoMap ℤ)) (n : Option ℤ)
        → Has counts n
        → deref_transactions env decimals saved current counts txs ≡ ok counts'
        → Has counts' (lowered saved current txs n)
    unfolding deref_transactions
    deref_transactions-Has saved current [] counts counts' n h e =
        let same : counts ≡ counts' = ok_injective _ _ e in rw (sym same) h
    deref_transactions-Has saved current (tx ∷ txs) counts counts' n h e =
        let (counts₁, (first, rest)) =
          bind_ok (deref_inputs env decimals saved (tx.id ∷ current) counts tx.vin) _ counts' e in
        deref_transactions-Has saved (tx.id ∷ current) txs counts₁ counts' _
          (deref_inputs-Has saved (tx.id ∷ current) tx.vin counts counts₁ n h first) rest

  -- Is the address's count of the transaction zero behind the block?
  abbrev pub is_dereferred : GoMap TransactionOutputs → List (Transaction env) → Str → Str → Bool
  is_dereferred saved txs a x = is_zero (lowered a x saved [] txs (raised a x saved none))

  pub deref_addresses-names :
      (saved : GoMap TransactionOutputs) (block : Block env) (refs : GoMap (List Str)) (a x : Str)
      → deref_addresses env decimals saved block ≡ ok refs
      → names refs a x ≡ is_dereferred saved block.transactions a x
  unfolding deref_addresses lookup
  deref_addresses-names saved block refs a x h =
      let (counts, (made, h₁)) = bind_ok (count_address_outputs env decimals [] saved) _ refs h in
      let (left, (taken, h₂)) =
        bind_ok (deref_transactions env decimals saved [] counts block.transactions) _ refs h₁ in
      let same : dereferenced env decimals left ≡ refs = ok_injective _ _ h₂ in
      let start : Has a x [] none = record {
        is_count = record { outer = tt; inner = tt };
        value = refl;
      } in
      let ended =
        deref_transactions-Has a x saved [] block.transactions counts left _
          (count_address_outputs-Has a x saved [] counts none start made) taken in
      rw (sym same) (
        dereferenced-names env decimals left a x ended.is_count.outer ended.is_count.inner
        ∙ ap is_zero ended.value)
