-- ===== src/Files.antt =====
-- backend/app/files: which files the companion may read and write, and the log of every check.
pub mod Gateway
