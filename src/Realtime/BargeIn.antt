-- ===== src/Realtime/BargeIn.antt =====
-- backend/realtime/barge_in_processor.py: when the user's speech interrupts the companion's.
--
-- The processor sees frames and owns one debounce task. A step is a frame, or the event loop giving
-- the task its turn: the task ends its sleep only when `min_speech_secs` have gone by. Times are
-- whole milliseconds. The broadcast itself is Pipecat's.
pub mod Debounce
use cyber_companion.Base.{
  ℕ, ◌+◌, Bool, true, false, ◌&&◌, not, Option, none, some, List, [], ◌∷◌, leb, is_some,
  if◌then◌else◌,
}

pub data Event : Type 0 where
  bot_started bot_stopped user_started user_stopped other_frame task_turn : Event

pub record BargeIn : Type 0 where
  pub bot_speaking : Bool
  -- the pending task, by the time at which it began its sleep
  pub pending : Option ℕ

abbrev pub idle_barge_in : BargeIn
idle_barge_in = record { bot_speaking = false; pending = none }

-- `_cancel_pending_barge_in`
unfoldable pub cancel_pending_barge_in : BargeIn → BargeIn
cancel_pending_barge_in s = record s { pending = none }

-- A newest-first history of what the processor was given, each with its time.
abbrev pub History : Type 0
History = List (ℕ × Event)

module _ (enabled : Bool) (min_speech : ℕ) where
  -- `_debounce_then_interrupt` at its turn: has its sleep ended, so that it broadcasts?
  unfoldable pub interrupts : ℕ → BargeIn → Bool
  interrupts now s = elim s.pending [ none ↦ false | some since ↦ leb (since + min_speech) now ]

  -- `process_frame`, and the turn of the task.
  unfoldable pub process_frame : ℕ → Event → BargeIn → BargeIn
  unfolding cancel_pending_barge_in interrupts
  process_frame now bot_started s = record s { bot_speaking = true }
  process_frame now bot_stopped s = cancel_pending_barge_in (record s { bot_speaking = false })
  process_frame now user_started s =
      if enabled && s.bot_speaking && not (is_some s.pending)
      then record s { pending = some now }
      else s
  process_frame now user_stopped s = cancel_pending_barge_in s
  process_frame now other_frame s = s
  process_frame now task_turn s = if interrupts now s then record s { pending = none } else s

  unfoldable pub run : History → BargeIn
  unfolding process_frame
  run [] = idle_barge_in
  run ((now, e) ∷ h) = process_frame now e (run h)
