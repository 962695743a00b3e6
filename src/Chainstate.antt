-- ===== src/Chainstate.antt =====
-- The way from Bitcoin Core's chainstate database to the index.
pub mod Coin
pub mod Obfuscation
pub mod Reader
pub mod Decode
pub mod Database
pub mod Migration
mod Tests
