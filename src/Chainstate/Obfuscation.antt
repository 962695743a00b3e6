-- ===== src/Chainstate/Obfuscation.antt =====
-- bitcoincore/chainstate: the key that the values of the database are obfuscated with.
pub mod Involution
use bitcoin_utxo_indexer.Prelude.{
  ℕ, zero, suc, ◌+◌, ◌%◌, bit_xor, List, [], ◌∷◌, ◌++◌, Option, none, some, length, get_or, ◌==◌,
  if◌then◌else◌,
}
use bitcoin_utxo_indexer.Utxo.Outcome.{Outcome, ok, err, panic, not_found, failed}

-- `i % len(key)` divides by zero when the key is empty.
unfoldable pub xor_from : List ℕ → ℕ → List ℕ → List ℕ
xor_from key i [] = []
xor_from key i (c ∷ value) = bit_xor c (get_or key (i % length key) 0) ∷ xor_from key (suc i) value

unfoldable pub deobfuscate_value : List ℕ → List ℕ → Outcome (List ℕ)
unfolding xor_from
deobfuscate_value key [] = ok []
deobfuscate_value [] (c ∷ value) = panic
deobfuscate_value (k ∷ key) (c ∷ value) = ok (xor_from (k ∷ key) 0 (c ∷ value))

pub record ChainstateDeobfuscator : Type 0 where
  pub obfuscation_key : Option (List ℕ)

unfoldable pub deobfuscate : ChainstateDeobfuscator → List ℕ → Outcome (List ℕ)
unfolding deobfuscate_value
deobfuscate d value = elim d.obfuscation_key [
  | none ↦ ok value
  | some key ↦ deobfuscate_value key value
]

-- The first byte of the stored key is its length.
unfoldable pub key_of : List ℕ → Outcome ChainstateDeobfuscator
key_of [] = panic
key_of (k ∷ key) = if k == 8 then ok (record { obfuscation_key = some key }) else err failed

-- `newDeobfuscator` with what LevelDB answers for the key: a key that is not found is nil, and its
-- first byte is read all the same.
unfoldable pub new_deobfuscator : Outcome (List ℕ) → Outcome ChainstateDeobfuscator
unfolding key_of
new_deobfuscator (ok key) = key_of key
new_deobfuscator (err not_found) = key_of []
new_deobfuscator (err e) = err failed
new_deobfuscator panic = panic
