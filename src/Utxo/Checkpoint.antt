-- ===== src/Utxo/Checkpoint.antt =====
-- utxostore/checkpoint.go: what one block changes, with what stood there before.
use bitcoin_utxo_indexer.Prelude.{ℕ, Option, List}
use bitcoin_utxo_indexer.Prelude.Str.{Str, GoMap}
use bitcoin_utxo_indexer.Utxo.Types.{TransactionOutputs}

pub record CheckpointBlock : Type 0 where
  pub height : ℕ
  pub hash : Str

pub record UtxoSpendingCheckpoint : Type 0 where
  pub prev_block : Option CheckpointBlock
  pub new_block : CheckpointBlock
  pub txs_before_update : GoMap TransactionOutputs
  pub dereferenced_addresses_txs : GoMap (List Str)
  pub new_tx_outputs : GoMap TransactionOutputs
  pub new_address_references : GoMap (List Str)
