-- ===== src/Behavior.antt =====
-- backend/app/behavior: how the companion's inner state moves, what tone it shows, and what a
-- message or a tick makes it do.
pub mod Mood
pub mod Tone
pub mod Types
pub mod Rules
pub mod Engine
pub mod Signals
pub mod Parser
