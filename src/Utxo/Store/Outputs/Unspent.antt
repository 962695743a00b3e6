-- ===== src/Utxo/Store/Outputs/Unspent.antt =====
-- The entries that `GetUnspentOutputsByAddress` returns are the unspent outputs of the address.
use bitcoin_utxo_indexer.Prelude.{
  ℕ, zero, suc, ◌+◌, ◌%◌, ◌^◌, true, List, [], ◌∷◌, Option, none, some, ◌≡◌, refl, sym, ap, ◌∙◌,
  get_elem?, arith, Bool-cases, ◌⊎◌, inl, inr,
}
use bitcoin_utxo_indexer.Prelude.Among.{Among, Among-append, join_left, join_right}
use bitcoin_utxo_indexer.Prelude.Str.{Str, contains}
use bitcoin_utxo_indexer.Utxo.Outcome.{ok, bind_ok, ok_injective}
use bitcoin_utxo_indexer.Utxo.Types.{TransactionOutput, TransactionOutputs, Env, get_addresses}
use mathlib.Core.Path.{subst}
use bitcoin_utxo_indexer.Utxo.Store.Outputs.{UtxoEntry, unspent_outputs, all_unspent}

abbrev from_some {ℓ} : {A : Type ℓ} → A → Option A → A
from_some d none = d
from_some d (some a) = a

some_injective {ℓ} : {A : Type ℓ} (a b : A) → some a ≡ some b → a ≡ b
some_injective a b h = ap (from_some a) h

module _ (env : Env) (address : Str) where
  -- An unspent output of the address, in the list of one transaction.
  pub record IsAt (id : Str) (height vout : ℕ) (outputs : List (Option TransactionOutput))
      (e : UtxoEntry) : Type 0 where
    pub position : ℕ
    pub output : TransactionOutput
    pub addresses : List Str
    pub stands : get_elem? outputs position ≡ some (some output)
    pub paid : get_addresses env output ≡ ok addresses
    pub named : contains addresses address ≡ true
    pub same : e ≡ record {
      tx_id = id;
      vout = (vout + position) % 2 ^ 32;
      output = output;
      block_height = height;
    }

  abbrev pub entry_at : Str → ℕ → ℕ → TransactionOutput → UtxoEntry
  entry_at id height vout output = record {
    tx_id = id;
    vout = vout % 2 ^ 32;
    output = output;
    block_height = height;
  }

  later :
      (id : Str) (height vout : ℕ) (o : Option TransactionOutput)
      (outputs : List (Option TransactionOutput)) (e : UtxoEntry)
      → IsAt id height (suc vout) outputs e
      → IsAt id height vout (o ∷ outputs) e
  later id height vout o outputs e at =
      let count : suc vout + at.position ≡ vout + suc at.position = omega arith in
      record {
        position = suc at.position;
        output = at.output;
        addresses = at.addresses;
        stands = at.stands;
        paid = at.paid;
        named = at.named;
        same = at.same ∙ ap (λ n. entry_at id height n at.output) count;
      }

  -- The first output, or one of the others.
  first_or_later :
      (id : Str) (height vout : ℕ) (o : Option TransactionOutput)
      (outputs : List (Option TransactionOutput)) (e : UtxoEntry) (position : ℕ)
      (output : TransactionOutput) (addresses : List Str)
      → get_elem? (o ∷ outputs) position ≡ some (some output)
      → get_addresses env output ≡ ok addresses
      → contains addresses address ≡ true
      → e ≡ entry_at id height (vout + position) output
      → ((o ≡ some output) × (e ≡ entry_at id height vout output))
        ⊎ IsAt id height (suc vout) outputs e
  first_or_later id height vout o outputs e zero output addresses stands paid named same =
      let count : vout + 0 ≡ vout = omega arith in
      inl
        (some_injective o (some output) stands, same ∙ ap (λ n. entry_at id height n output) count)
  first_or_later id height vout o outputs e (suc position) output addresses stands paid named same =
      let count : vout + suc position ≡ suc vout + position = omega arith in
      inr (record {
        position = position;
        output = output;
        addresses = addresses;
        stands = stands;
        paid = paid;
        named = named;
        same = same ∙ ap (λ n. entry_at id height n output) count;
      })

  unspent_outputs_sound :
      (id : Str) (height vout : ℕ) (outputs : List (Option TransactionOutput)) (es : List UtxoEntry)
      (e : UtxoEntry)
      → unspent_outputs env address id height vout outputs ≡ ok es
      → Among e es
      → IsAt id height vout outputs e
  unfolding unspent_outputs
  unspent_outputs_sound id height vout [] es e h m =
      let empty = ok_injective [] es h in absurd (rw (← empty) at m)
  unspent_outputs_sound id height vout (none ∷ outputs) es e h m =
      later id height vout none outputs e
        (unspent_outputs_sound id height (suc vout) outputs es e h m)
  unspent_outputs_sound id height vout (some output ∷ outputs) es e h m =
      let (addresses, (paid, h')) = bind_ok (get_addresses env output) _ es h in
      let (rest, (found, h'')) =
        bind_ok (unspent_outputs env address id height (suc vout) outputs) _ es h' in
      let all = ok_injective _ es h'' in
      let in_rest = λ (r : Among e rest).
        later id height vout (some output) outputs e
          (unspent_outputs_sound id height (suc vout) outputs rest e found r) in
      elim (Bool-cases (contains addresses address)) [
        | inl named ↦
            let all' = rw named at all in
            elim (rw (← all') at m) [
              | inl same ↦
                  let count : vout + 0 ≡ vout = omega arith in
                  record {
                    position = 0;
                    output = output;
                    addresses = addresses;
                    stands = refl;
                    paid = paid;
                    named = named;
                    same = rw count same;
                  }
              | inr r ↦ in_rest r
            ]
        | inr other ↦ let all' = rw other at all in in_rest (rw (← all') at m)
      ]

  unspent_outputs_complete :
      (id : Str) (height vout : ℕ) (outputs : List (Option TransactionOutput)) (es : List UtxoEntry)
      (e : UtxoEntry)
      → unspent_outputs env address id height vout outputs ≡ ok es
      → IsAt id height vout outputs e
      → Among e es
  unfolding unspent_outputs
  unspent_outputs_complete id height vout [] es e h at = let stands = at.stands in absurd cc
  unspent_outputs_complete id height vout (none ∷ outputs) es e h at =
      elim (first_or_later id height vout none outputs e at.position at.output at.addresses
        at.stands at.paid at.named at.same) [
          | inl (nothing, same) ↦ absurd cc
          | inr rest ↦ unspent_outputs_complete id height (suc vout) outputs es e h rest
        ]
  unspent_outputs_complete id height vout (some output ∷ outputs) es e h at =
      let (addresses, (paid, h')) = bind_ok (get_addresses env output) _ es h in
      let (rest, (found, h'')) =
        bind_ok (unspent_outputs env address id height (suc vout) outputs) _ es h' in
      let all = ok_injective _ es h'' in
      elim (first_or_later id height vout (some output) outputs e at.position at.output at.addresses
        at.stands at.paid at.named at.same) [
          | inl (this, same) ↦
              let this' : output ≡ at.output = some_injective output at.output this in
              let same_addresses : addresses ≡ at.addresses =
                ok_injective addresses at.addresses
                  (sym paid ∙ ap (get_addresses env) this' ∙ at.paid) in
              let named : contains addresses address ≡ true = rw same_addresses at.named in
              let all' = rw named at all in
              rw (← all') (inl (same ∙ ap (entry_at id height vout) (sym this')))
          | inr at' ↦
              let r = unspent_outputs_complete id height (suc vout) outputs rest e found at' in
              elim (Bool-cases (contains addresses address)) [
                | inl named ↦ let all' = rw named at all in rw (← all') (inr r)
                | inr other ↦ let all' = rw other at all in rw (← all') r
              ]
        ]

  -- An unspent output in the list of some transaction.
  pub record IsIn (entries : List (Str × TransactionOutputs)) (e : UtxoEntry) : Type 0 where
    pub id : Str
    pub entry : TransactionOutputs
    pub among : Among (id, entry) entries
    pub at : IsAt id entry.block_height 0 entry.outputs e

  pub all_unspent_sound :
      (entries : List (Str × TransactionOutputs)) (es : List UtxoEntry) (e : UtxoEntry)
      → all_unspent env address entries ≡ ok es
      → Among e es
      → IsIn entries e
  unfolding all_unspent
  all_unspent_sound [] es e h m = let empty = ok_injective [] es h in absurd (rw (← empty) at m)
  all_unspent_sound ((id, t) ∷ entries) es e h m =
      let (here, (found, h')) =
        bind_ok (unspent_outputs env address id t.block_height 0 t.outputs) _ es h in
      let (rest, (others, h'')) = bind_ok (all_unspent env address entries) _ es h' in
      let all = ok_injective _ es h'' in
      elim (Among-append e here rest (rw (← all) at m)) [
        | inl l ↦ record {
          id = id;
          entry = t;
          among = inl refl;
          at = unspent_outputs_sound id t.block_height 0 t.outputs here e found l;
        }
        | inr r ↦
            let i = all_unspent_sound entries rest e others r in
            record { id = i.id; entry = i.entry; among = inr i.among; at = i.at }
      ]

  pub all_unspent_complete :
      (entries : List (Str × TransactionOutputs)) (es : List UtxoEntry) (e : UtxoEntry) (id' : Str)
      (t' : TransactionOutputs)
      → all_unspent env address entries ≡ ok es
      → Among (id', t') entries
      → IsAt id' t'.block_height 0 t'.outputs e
      → Among e es
  unfolding all_unspent
  all_unspent_complete [] es e id' t' h m at = absurd m
  all_unspent_complete ((id, t) ∷ entries) es e id' t' h m at =
      let (here, (found, h')) =
        bind_ok (unspent_outputs env address id t.block_height 0 t.outputs) _ es h in
      let (rest, (others, h'')) = bind_ok (all_unspent env address entries) _ es h' in
      let all = ok_injective _ es h'' in
      rw (← all) (elim m [
        | inl same ↦
            let same_id : id' ≡ id = ap (λ p. p.0) same in
            let same_entry : t' ≡ t = ap (λ p. p.1) same in
            let at' : IsAt id t.block_height 0 t.outputs e =
              subst (λ (p : Str × TransactionOutputs). IsAt p.0 p.1.block_height 0 p.1.outputs e)
                same at in
            join_left e here rest
              (unspent_outputs_complete id t.block_height 0 t.outputs here e found at')
        | inr r ↦ join_right e here rest (all_unspent_complete entries rest e id' t' others r at)
      ])
