-- ===== src/Compression.antt =====
-- internal/pkg/bitcoincore/bitcoincorecompression: the compact forms of numbers, amounts and
-- scripts.
pub mod Vlq
pub mod Amount
pub mod Script
pub mod TxOut
mod Tests
