-- ===== src/Store.antt =====
-- Package `internal/store`: the interface and its implementation in memory.
pub mod Interface
pub mod Memory
