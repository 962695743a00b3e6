-- ===== src/Chainstate/Coin.antt =====
-- bitcoincore/utxo: an unspent output of the chainstate. wire.TxOut is the library's record of a
-- value and a script.
use bitcoin_utxo_indexer.Prelude.{ℕ, Bool, List}
use bitcoin_utxo_indexer.Prelude.Str.{Str}

pub record WireTxOut : Type 0 where
  pub value : ℕ
  pub pk_script : List ℕ

pub record Coin : Type 0 where
  pub is_coin_base : Bool
  pub block_height : ℕ
  pub out : WireTxOut

-- `tx_id` is what `GetTxID` returns.
pub record TxOut : Type 0 where
  pub tx_id : Str
  pub index : ℕ
  pub coin : Coin
