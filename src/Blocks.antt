-- ===== src/Blocks.antt =====
-- bitcoinblocksiterator: the blocks of the chain, downloaded side by side and handed on in order.
pub mod Options
pub mod Semaphore
pub mod Ordering
pub mod Iterator
mod Tests
