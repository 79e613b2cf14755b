-- ===== src/Store.antt =====
-- backend/app/memory: the store of the companion, one module for each mixin of MemoryStore.
pub mod State
pub mod Meta
pub mod Messages
pub mod Budget
pub mod ChatPersistence
pub mod Tokens
pub mod Loops
pub mod Memories
pub mod Retrieval
pub mod Context
pub mod Cost
pub mod Events
pub mod Candidates
pub mod WritePolicy
pub mod Holidays
pub mod Summary
pub mod UsageGuard
