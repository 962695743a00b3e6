-- ===== src/KeyValue.antt =====
-- internal/pkg/keyvalueabstraction: the store in memory and that of Redis.
pub mod InMemory
pub mod Redis
mod Tests
