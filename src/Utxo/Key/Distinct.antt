-- ===== src/Utxo/Key/Distinct.antt =====
-- Different things are stored under different keys.
use bitcoin_utxo_indexer.Prelude.{false, ◌≡◌}
use bitcoin_utxo_indexer.Prelude.Str.{Str, str_eq, str_eq-append}
use bitcoin_utxo_indexer.Utxo.Key.{
  new_block_height_key, new_block_hash_key, new_address_utxo_tx_ids_set_key, new_transaction_id_key,
  to_string,
}

module _ (ver : Str) where
  abbrev pub height_key : Str
  height_key = to_string (new_block_height_key ver)

  abbrev pub hash_key : Str
  hash_key = to_string (new_block_hash_key ver)

  abbrev pub tx_key : Str → Str
  tx_key tx_id = to_string (new_transaction_id_key ver tx_id)

  abbrev pub address_key : Str → Str
  address_key address = to_string (new_address_utxo_tx_ids_set_key ver address)

  pub tx_key-tx_key : (a b : Str) → str_eq (tx_key a) (tx_key b) ≡ str_eq a b
  unfolding to_string new_transaction_id_key str_eq
  tx_key-tx_key a b = str_eq-append ver _ _

  pub address_key-address_key : (a b : Str) → str_eq (address_key a) (address_key b) ≡ str_eq a b
  unfolding to_string new_address_utxo_tx_ids_set_key str_eq
  address_key-address_key a b = str_eq-append ver _ _

  pub tx_key-address_key : (a b : Str) → str_eq (tx_key a) (address_key b) ≡ false
  unfolding to_string new_address_utxo_tx_ids_set_key new_transaction_id_key str_eq
  tx_key-address_key a b = str_eq-append ver _ _

  pub address_key-tx_key : (a b : Str) → str_eq (address_key a) (tx_key b) ≡ false
  unfolding to_string new_address_utxo_tx_ids_set_key new_transaction_id_key str_eq
  address_key-tx_key a b = str_eq-append ver _ _

  pub tx_key-hash_key : (a : Str) → str_eq (tx_key a) hash_key ≡ false
  unfolding to_string new_transaction_id_key new_block_hash_key str_eq
  tx_key-hash_key a = str_eq-append ver _ _

  pub tx_key-height_key : (a : Str) → str_eq (tx_key a) height_key ≡ false
  unfolding to_string new_transaction_id_key new_block_height_key str_eq
  tx_key-height_key a = str_eq-append ver _ _

  pub hash_key-tx_key : (a : Str) → str_eq hash_key (tx_key a) ≡ false
  unfolding to_string new_transaction_id_key new_block_hash_key str_eq
  hash_key-tx_key a = str_eq-append ver _ _

  pub height_key-tx_key : (a : Str) → str_eq height_key (tx_key a) ≡ false
  unfolding to_string new_transaction_id_key new_block_height_key str_eq
  height_key-tx_key a = str_eq-append ver _ _

  pub hash_key-address_key : (a : Str) → str_eq hash_key (address_key a) ≡ false
  unfolding to_string new_address_utxo_tx_ids_set_key new_block_hash_key str_eq
  hash_key-address_key a = str_eq-append ver _ _

  pub height_key-address_key : (a : Str) → str_eq height_key (address_key a) ≡ false
  unfolding to_string new_address_utxo_tx_ids_set_key new_block_height_key str_eq
  height_key-address_key a = str_eq-append ver _ _

  pub height_key-hash_key : str_eq height_key hash_key ≡ false
  unfolding to_string new_block_hash_key new_block_height_key str_eq
  height_key-hash_key = str_eq-append ver _ _

  pub hash_key-height_key : str_eq hash_key height_key ≡ false
  unfolding to_string new_block_hash_key new_block_height_key str_eq
  hash_key-height_key = str_eq-append ver _ _
