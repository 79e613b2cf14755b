-- ===== src/Speech.antt =====
-- backend/app/tts: the tags of speech that are put into a finished reply.
pub mod Tags
pub mod Sentences
