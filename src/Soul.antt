-- ===== src/Soul.antt =====
-- backend/app/soul: the one orchestration of a turn, over ports to the store.
pub mod Ports
pub mod Runtime
pub mod Sqlite
