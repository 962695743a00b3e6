-- ===== src/Utxo/Store/Rollback/Unread.antt =====
-- `New` where the last checkpoint cannot be read.
use bitcoin_utxo_indexer.Prelude.{◌≡◌, none}
use bitcoin_utxo_indexer.Prelude.Str.{Str}
use bitcoin_utxo_indexer.Utxo.Outcome.{err, failed}
use bitcoin_utxo_indexer.Utxo.Backend.{Backend}
use bitcoin_utxo_indexer.Utxo.Store.Rollback.{
  last_checkpoint, check_consistency_and_try_to_fix, new,
}

pub new_unread :
    (b : Backend) (ver : Str) (w : b.World)
    → (b.last_checkpoint w).1 ≡ none
    → new b ver w ≡ (err failed, (b.last_checkpoint w).0)
unfolding new check_consistency_and_try_to_fix last_checkpoint
new_unread b ver w unread = rw unread
