-- ===== src/Realtime.antt =====
-- backend/realtime: the voice pipeline. Its wire protocols and its barge-in processor are modelled.
pub mod Asr
pub mod BargeIn
pub mod Codec
pub mod Dialog
