-- ===== src/Utxo/Key.antt =====
-- utxostore/key.go: the names of the stored values, `version:type:key`.
pub mod Distinct
use bitcoin_utxo_indexer.Prelude.{
  ℕ, zero, suc, Bool, List, [], ◌∷◌, ◌++◌, Option, none, some, ◌==◌, if◌then◌else◌,
}
use bitcoin_utxo_indexer.Prelude.Str.{Str, codes, str_eq}

pub record StorageKey : Type 0 where
  pub db_ver : Str
  pub prefix : Str
  pub key : Str

abbrev pub address_key_type : Str
address_key_type = codes "a"

abbrev pub transaction_id_key_type : Str
transaction_id_key_type = codes "t"

abbrev pub blockheight_key_type : Str
blockheight_key_type = codes "b"

unfoldable pub new_block_height_key : Str → StorageKey
new_block_height_key ver = record {
  db_ver = ver;
  prefix = blockheight_key_type;
  key = codes "height";
}

unfoldable pub new_block_hash_key : Str → StorageKey
new_block_hash_key ver = record { db_ver = ver; prefix = blockheight_key_type; key = codes "hash" }

unfoldable pub new_address_utxo_tx_ids_set_key : Str → Str → StorageKey
new_address_utxo_tx_ids_set_key ver address = record {
  db_ver = ver;
  prefix = address_key_type;
  key = address;
}

unfoldable pub new_transaction_id_key : Str → Str → StorageKey
new_transaction_id_key ver tx_id = record {
  db_ver = ver;
  prefix = transaction_id_key_type;
  key = tx_id;
}

unfoldable pub to_string : StorageKey → Str
to_string s = s.db_ver ++ (b':' ∷ (s.prefix ++ (b':' ∷ s.key)))

unfoldable pub type_of : StorageKey → Str → Bool
type_of s t = str_eq s.prefix t

-- strings.SplitN(s, ":", n): at most `n` columns, the last of which holds the rest.
pub first_column : ℕ → List Str → List Str
first_column c [] = (c ∷ []) ∷ []
first_column c (column ∷ columns) = (c ∷ column) ∷ columns

unfoldable pub split_n : Str → ℕ → List Str
unfolding first_column
split_n s zero = []
split_n s (suc zero) = s ∷ []
split_n [] (suc (suc n)) = [] ∷ []
split_n (c ∷ s) (suc (suc n)) =
    let cut : List Str = [] ∷ split_n s (suc n) in
    let more : List Str = first_column c (split_n s (suc (suc n))) in
    if c == b':' then cut else more

-- Fewer than three columns are an error, `none`. The `key` field is given the second column.
pub from_columns : List Str → Option StorageKey
from_columns (ver ∷ prefix ∷ key ∷ rest) =
    some (record { db_ver = ver; prefix = prefix; key = prefix })
from_columns columns = none

unfoldable pub storage_key_from_string : Str → Option StorageKey
unfolding from_columns split_n
storage_key_from_string s = from_columns (split_n s 3)
