-- ===== src/Utxo/Block.antt =====
-- universalbitcioin/blockchain: the parts of a block that the indexer reads.
use bitcoin_utxo_indexer.Prelude.{
  ℕ, ◌+◌, zero, suc, Bool, false, not, List, [], Option, none, some, if◌then◌else◌,
}
use bitcoin_utxo_indexer.Prelude.Str.{Str, codes, str_eq}
use bitcoin_utxo_indexer.Utxo.Types.{Env}

-- Go's int.
pub data ℤ : Type 0 where
  pos negsuc : ℕ → ℤ

abbrev pub increment : ℤ → ℤ
increment (pos n) = pos (n + 1)
increment (negsuc zero) = pos 0
increment (negsuc (suc n)) = negsuc n

abbrev pub decrement : ℤ → ℤ
decrement (pos zero) = negsuc 0
decrement (pos (suc n)) = pos n
decrement (negsuc n) = negsuc (n + 1)

-- decimal.AmountValue stands on a library; so do hex.DecodeString and txscript.IsUnspendable.
pub record BlockEnv : Type 1 where
  pub base : Env
  pub AmountValue : Type 0
  pub uint64 : AmountValue → ℕ → ℕ
  pub decode_string : Str → Option (List ℕ)
  pub is_unspendable : List ℕ → Bool

pub record ScriptPubKey : Type 0 where
  pub type_name : Str
  pub hex : Str

pub record SpendingOutput : Type 0 where
  pub tx_id : Str
  pub vout : ℤ

module _ (env : BlockEnv) where
  pub record BlockOutput : Type 0 where
    pub value : Option env.AmountValue
    pub script_pub_key : Option ScriptPubKey

  -- A coinbase input spends nothing.
  pub record Transaction : Type 0 where
    pub id : Str
    pub vout : List BlockOutput
    pub vin : List (Option SpendingOutput)

  pub record Block : Type 0 where
    pub height : ℕ
    pub hash : Str
    pub transactions : List Transaction

  pub is_spendable_script : ScriptPubKey → Bool
  is_spendable_script script =
      if str_eq script.type_name (codes "nulldata")
      then false
      else if str_eq script.hex []
      then false
      else elim (env.decode_string script.hex) [
        | none ↦ false
        | some bytes ↦ not (env.is_unspendable bytes)
      ]

  unfoldable pub is_spendable : BlockOutput → Bool
  unfolding is_spendable_script
  is_spendable output = elim output.script_pub_key [
    | none ↦ false
    | some script ↦ is_spendable_script script
  ]
