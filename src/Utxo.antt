-- ===== src/Utxo.antt =====
-- internal/pkg/utxo: the storage keys, the checkpoints and the store of unspent outputs.
pub mod Outcome
pub mod Method
pub mod Types
pub mod Key
pub mod Checkpoint
pub mod CheckpointFile
pub mod Backend
pub mod Store
pub mod Block
pub mod Spending
pub mod Service
pub mod Memory
mod Tests
