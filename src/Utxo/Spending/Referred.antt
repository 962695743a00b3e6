-- ===== src/Utxo/Spending/Referred.antt =====
-- The references that extractAddressReferencesFromOutputs makes: an address names the transactions
-- that make an output of it.
use bitcoin_utxo_indexer.Prelude.{
  ℕ, ◌≡◌, refl, sym, ◌∙◌, arith, Bool, true, false, ◌&&◌, ◌||◌, Bool-cases, Option-cases, inl, inr,
  List, [], ◌∷◌, ◌++◌, Option, none, some,
}
use bitcoin_utxo_indexer.Prelude.Str.{Str, str_eq, str_eq_iff, GoMap, lookup, insert, contains}
use bitcoin_utxo_indexer.Utxo.Outcome.{ok, bind_ok, from_ok, ok_injective}
use bitcoin_utxo_indexer.Utxo.Types.{TransactionOutput, get_addresses}
use bitcoin_utxo_indexer.Utxo.Store.Effect.{names}
use bitcoin_utxo_indexer.Utxo.Block.{BlockEnv, BlockOutput, Transaction, Block}
use bitcoin_utxo_indexer.Utxo.Spending.{
  convert_output, get_all_spendable_outputs, add_reference, add_references, output_references,
  transaction_references, extract_address_references_from_outputs,
}

-- On Bool.
replaced :
    (k w i n : Bool) → (w ≡ true → i ≡ true) → ((k && i) || n) ≡ ((k && i) || ((k && w) || n))
replaced true true i n h = rw (h refl) refl
replaced true false i n h = ground arith
replaced false w i n h = refl

swapped : (p q n : Bool) → (p || (q || n)) ≡ (q || (p || n))
swapped true q n = ground arith
swapped false q n = refl

joined : (p q n : Bool) → (p || (q || n)) ≡ ((q || p) || n)
joined true q n = ground arith
joined false q n = ground arith

already :
    (k s i n : Bool)
    → (k ≡ true → i ≡ true → n ≡ true)
    → (s ≡ true → i ≡ true)
    → n ≡ ((k && s) || n)
already true true i n known same = known refl (same refl)
already true false i n known same = refl
already false s i n known same = refl

appended :
    (k s i n : Bool) → (k ≡ true → i ≡ true → n ≡ true) → ((k && (s || i)) || n) ≡ ((k && s) || n)
appended true true i n known = refl
appended true false true n known = sym (known refl refl)
appended true false false n known = refl
appended false s i n known = refl

spread : (l k s n : Bool) → ((l && s) || ((k && s) || n)) ≡ (((k || l) && s) || n)
spread true true s n = ground arith
spread true false s n = refl
spread false true s n = refl
spread false false s n = refl

contains-append :
    (ids : List Str) (id x : Str) → contains (ids ++ (id ∷ [])) x ≡ (str_eq id x || contains ids x)
unfolding contains
contains-append [] id x = ground arith
contains-append (y ∷ ids) id x = rw (contains-append ids id x) (ground arith)

-- What an address names stands in the set that a lookup finds.
names-lookup :
    (refs : GoMap (List Str)) (a x : Str) (ids : List Str)
    → lookup refs a ≡ some ids
    → contains ids x ≡ true
    → names refs a x ≡ true
unfolding lookup
names-lookup [] a x ids h there = absurd cc
names-lookup ((j, w) ∷ m) a x ids h there = elim (Bool-cases (str_eq j a)) [
  | inl same ↦
      let e : some w ≡ some ids = rw same at h in let e' : w ≡ ids = cc in rw (same, e', there) refl
  | inr other ↦ rw (other, names-lookup m a x ids (rw other at h) there) (ground arith)
]

-- A larger set in the place of the one of `k`.
names-insert :
    (refs : GoMap (List Str)) (k : Str) (ids : List Str) (a x : Str)
    → ((old : List Str) → lookup refs k ≡ some old → contains old x ≡ true → contains ids x ≡ true)
    → names (insert refs k ids) a x ≡ ((str_eq k a && contains ids x) || names refs a x)
unfolding lookup insert
names-insert [] k ids a x h = refl
names-insert ((j, w) ∷ m) k ids a x h = elim (Bool-cases (str_eq j k)) [
  | inl same ↦
      let larger : contains w x ≡ true → contains ids x ≡ true = h w (rw same refl) in
      let e : j ≡ k = (str_eq_iff j k).0 same in
      rw (same, e) (replaced (str_eq k a) (contains w x) (contains ids x) (names m a x) larger)
  | inr other ↦
      let later = names-insert m k ids a x (λ old found. h old (rw other found)) in
      rw (other, later)
        (swapped (str_eq j a && contains w x) (str_eq k a && contains ids x) (names m a x))
]

add_reference-names :
    (env : BlockEnv) (decimals : ℕ) (tx_id : Str) (refs : GoMap (List Str)) (address a x : Str)
    → names (add_reference env decimals tx_id refs address) a x
      ≡ ((str_eq address a && str_eq tx_id x) || names refs a x)
unfolding add_reference contains
add_reference-names env decimals tx_id refs address a x =
    elim (Option-cases (lookup refs address)) [
      | inl missing ↦
          rw
            (
              add_reference,
              missing,
              names-insert refs address (tx_id ∷ []) a x
                  (λ old found. absurd (let h = sym missing ∙ found in cc)),
            )
            (ground arith)
      | inr (ids, found) ↦
          let known : str_eq address a ≡ true → contains ids x ≡ true → names refs a x ≡ true =
            λ same there.
              let e : address ≡ a = (str_eq_iff address a).0 same in
              names-lookup refs a x ids (rw (← e) found) there in
          elim (Bool-cases (contains ids tx_id)) [
            | inl old ↦
                let same_id : str_eq tx_id x ≡ true → contains ids x ≡ true =
                  λ same. let e : tx_id ≡ x = (str_eq_iff tx_id x).0 same in rw (← e) old in
                rw (add_reference, found, old)
                  (already (str_eq address a) (str_eq tx_id x) (contains ids x) (names refs a x)
                    known same_id)
            | inr new ↦
                rw
                  (
                    add_reference,
                    found,
                    new,
                    names-insert refs address (ids ++ (tx_id ∷ [])) a x (λ old there h.
                        let e : some ids ≡ some old = sym found ∙ there in
                        let e' : ids ≡ old = cc in
                        rw (contains-append ids tx_id x, e', h) (ground arith)),
                    contains-append ids tx_id x,
                  )
                  (appended (str_eq address a) (str_eq tx_id x) (contains ids x) (names refs a x)
                    known)
          ]
    ]

add_references-names :
    (env : BlockEnv) (decimals : ℕ) (tx_id : Str) (refs : GoMap (List Str)) (addresses : List Str)
    (a x : Str)
    → names (add_references env decimals tx_id refs addresses) a x
      ≡ ((contains addresses a && str_eq tx_id x) || names refs a x)
unfolding add_references contains
add_references-names env decimals tx_id refs [] a x = refl
add_references-names env decimals tx_id refs (address ∷ addresses) a x =
    add_references-names env decimals tx_id (add_reference env decimals tx_id refs address)
      addresses a x
    ∙ rw (add_reference-names env decimals tx_id refs address a x)
        (spread (contains addresses a) (str_eq address a) (str_eq tx_id x) (names refs a x))

module _ (env : BlockEnv) (decimals : ℕ) where
  -- Does an output that can be spent belong to the address?
  abbrev belongs : Option TransactionOutput → Str → Bool
  belongs none a = false
  belongs (some t) a = contains (from_ok [] (get_addresses env.base t)) a

  abbrev pays : List (BlockOutput env) → Str → Bool
  pays [] a = false
  pays (output ∷ outputs) a =
      belongs (from_ok none (convert_output env decimals output)) a || pays outputs a

  -- Does one of the transactions have the id and pay to the address?
  abbrev pub refers : List (Transaction env) → Str → Str → Bool
  refers [] a x = false
  refers (tx ∷ txs) a x = (pays tx.vout a && str_eq tx.id x) || refers txs a x

  abbrev belong : List (Option TransactionOutput) → Str → Bool
  belong [] a = false
  belong (t ∷ ts) a = belongs t a || belong ts a

  output_references-names :
      (tx_id : Str) (refs refs' : GoMap (List Str)) (outputs : List (Option TransactionOutput))
      (a x : Str)
      → output_references env decimals tx_id refs outputs ≡ ok refs'
      → names refs' a x ≡ ((belong outputs a && str_eq tx_id x) || names refs a x)
  unfolding output_references
  output_references-names tx_id refs refs' [] a x h =
      let same : refs ≡ refs' = ok_injective _ _ h in rw (sym same) refl
  output_references-names tx_id refs refs' (none ∷ outputs) a x h =
      output_references-names tx_id refs refs' outputs a x h
  output_references-names tx_id refs refs' (some output ∷ outputs) a x h =
      let (addresses, (read, h₁)) = bind_ok (get_addresses env.base output) _ refs' h in
      output_references-names tx_id (add_references env decimals tx_id refs addresses) refs' outputs
        a x h₁
      ∙ rw (add_references-names env decimals tx_id refs addresses a x, read)
          (spread (belong outputs a) (contains addresses a) (str_eq tx_id x) (names refs a x))

  converted_pays :
      (vout : List (BlockOutput env)) (outputs : List (Option TransactionOutput)) (a : Str)
      → get_all_spendable_outputs env decimals vout ≡ ok outputs
      → belong outputs a ≡ pays vout a
  unfolding get_all_spendable_outputs
  converted_pays [] outputs a h = let same : [] ≡ outputs = ok_injective _ _ h in rw (sym same) refl
  converted_pays (output ∷ vout) outputs a h =
      let (t, (converted, h₁)) = bind_ok (convert_output env decimals output) _ outputs h in
      let (rest, (others, h₂)) =
        bind_ok (get_all_spendable_outputs env decimals vout) _ outputs h₁ in
      let same : t ∷ rest ≡ outputs = ok_injective _ _ h₂ in
      rw (sym same, converted, converted_pays vout rest a others) refl

  transaction_references-names :
      (refs refs' : GoMap (List Str)) (txs : List (Transaction env)) (a x : Str)
      → transaction_references env decimals refs txs ≡ ok refs'
      → names refs' a x ≡ (refers txs a x || names refs a x)
  unfolding transaction_references
  transaction_references-names refs refs' [] a x h =
      let same : refs ≡ refs' = ok_injective _ _ h in rw (sym same) refl
  transaction_references-names refs refs' (tx ∷ txs) a x h =
      let (outputs, (found, h₁)) =
        bind_ok (get_all_spendable_outputs env decimals tx.vout) _ refs' h in
      let (refs₁, (made, rest)) =
        bind_ok (output_references env decimals tx.id refs outputs) _ refs' h₁ in
      transaction_references-names refs₁ refs' txs a x rest
      ∙ rw
          (
            output_references-names tx.id refs refs₁ outputs a x made,
            converted_pays tx.vout outputs a found,
          )
          (joined (refers txs a x) (pays tx.vout a && str_eq tx.id x) (names refs a x))

  pub extract-names :
      (block : Block env) (refs : GoMap (List Str)) (a x : Str)
      → extract_address_references_from_outputs env decimals block ≡ ok refs
      → names refs a x ≡ refers block.transactions a x
  unfolding extract_address_references_from_outputs
  extract-names block refs a x h =
      transaction_references-names [] refs block.transactions a x h ∙ ground arith
