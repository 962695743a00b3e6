-- ===== src/Utxo/Types.antt =====
-- utxostore/types.go: the stored outputs. txscript's address extraction and hex are parameters.
pub mod RoundTrip
use bitcoin_utxo_indexer.Prelude.{
  ℕ, ◌+◌, Bool, true, false, List, [], ◌∷◌, Option, none, some, length, take, replicate,
}
use bitcoin_utxo_indexer.Prelude.Str.{Str}
use bitcoin_utxo_indexer.Compression.Amount.{compress_tx_out_amount, decompress_tx_out_amount}
use bitcoin_utxo_indexer.Compression.Script.{Curve, put_compressed_script, decompress_script}
use bitcoin_utxo_indexer.Utxo.Outcome.{Outcome, ok, err, panic, failed, ◌>>=◌, or_panic, or_error}

pub record TransactionOutput : Type 0 where
  pub compressed_script : List ℕ
  pub compressed_amount : ℕ

-- A spent output is nil in its transaction's list. Block heights are taken as natural numbers.
pub record TransactionOutputs : Type 0 where
  pub block_height : ℕ
  pub outputs : List (Option TransactionOutput)

-- An address that `ExtractPkScriptAddrs` finds: its script address, and the hash of its key where
-- it is a btcutil.AddressPubKey.
pub record Address : Type 0 where
  pub script_address : List ℕ
  pub pub_key_hash : Option (List ℕ)

-- The libraries: btcec, txscript's extraction of addresses (`none` is its error) and hex.
pub record Env : Type 1 where
  pub curve : Curve
  pub extract_pk_script_addrs : List ℕ → Option (List Address)
  pub encode_to_string : List ℕ → Str

unfoldable pub is_spent_output : Option TransactionOutput → Bool
is_spent_output none = true
is_spent_output (some output) = false

unfoldable pub is_all_spent : List (Option TransactionOutput) → Bool
unfolding is_spent_output
is_all_spent [] = true
is_all_spent (none ∷ outputs) = is_all_spent outputs
is_all_spent (some output ∷ outputs) = false

unfoldable pub set_amount : TransactionOutput → ℕ → TransactionOutput
set_amount t amount = record t { compressed_amount = compress_tx_out_amount amount }

unfoldable pub get_amount : TransactionOutput → ℕ
get_amount t = decompress_tx_out_amount t.compressed_amount

module _ (env : Env) where
  pub shorten : TransactionOutput → List ℕ × ℕ → TransactionOutput
  shorten t (bytes, size) = record t { compressed_script = take size bytes }

  -- `none` is a panic of `PutCompressedScript`.
  unfoldable pub set_script_bytes : TransactionOutput → List ℕ → Option TransactionOutput
  unfolding shorten
  set_script_bytes t pk_script =
      elim (put_compressed_script env.curve (replicate (length pk_script + 16) 0) pk_script) [
        | none ↦ none
        | some written ↦ some (shorten t written)
      ]

  unfoldable pub get_script_bytes : TransactionOutput → Option (List ℕ)
  get_script_bytes t = decompress_script env.curve t.compressed_script

  pub address_strings : List Address → List Str
  address_strings [] = []
  address_strings (addr ∷ addrs) = elim addr.pub_key_hash [
    | none ↦ env.encode_to_string addr.script_address ∷ address_strings addrs
    | some hash ↦ env.encode_to_string hash ∷ address_strings addrs
  ]

  unfoldable pub get_addresses : TransactionOutput → Outcome (List Str)
  unfolding address_strings
  get_addresses t = do
    script ← or_panic (get_script_bytes t)
    addrs ← or_error (env.extract_pk_script_addrs script) failed
    ok (address_strings addrs)
