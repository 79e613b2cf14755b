-- ===== src/Behavior/Signals/Bounds.antt =====
-- backend/app/behavior/kernel.py: the levels of the kernel and an appraisal.
use cyber_companion.Base.{String, Option, none, some, if_keeps}
use cyber_companion.Base.Float.{Float, InUnit, clamp01-InUnit, round-InUnit}
use cyber_companion.Records.{Json}
use cyber_companion.Store.State.{KernelDb, get_mood_state, update_mood_state}
use cyber_companion.Behavior.Engine.Bounds.{KernelInUnit, relationship-KernelInUnit}
use cyber_companion.Behavior.Signals.{
  Converted, Signals, read_signals, negative, positive, written, new_worry, new_boredom,
  new_loneliness, mood_update, relationship_update, write_signals, apply_signals_to_kernel,
}

module _ (fl : Float) (to_float : Json fl → Converted fl.F) where
  open fl use {F, dec, plus, minus, times}

  new_worry-InUnit :
      (s : Signals fl to_float) (v : F) → InUnit fl v → InUnit fl (new_worry fl to_float s v)
  unfolding new_worry
  new_worry-InUnit s v h =
      if_keeps (InUnit fl) (negative fl to_float s)
        (clamp01-InUnit fl
          (plus v (times (times (minus (dec 0 0) s.valence) s.goal_relevance) (dec 10 2))))
        (if_keeps (InUnit fl) (positive fl to_float s) (clamp01-InUnit fl (times v (dec 9 1))) h)

  new_boredom-InUnit :
      (s : Signals fl to_float) (v : F) → InUnit fl v → InUnit fl (new_boredom fl to_float s v)
  unfolding new_boredom
  new_boredom-InUnit s v h = if_keeps (InUnit fl) _ (clamp01-InUnit fl _) h

  new_loneliness-InUnit :
      (s : Signals fl to_float) (v : F) → InUnit fl v → InUnit fl (new_loneliness fl to_float s v)
  unfolding new_loneliness
  new_loneliness-InUnit s v h = if_keeps (InUnit fl) _ (clamp01-InUnit fl _) h

  write_signals-KernelInUnit :
      (s : Signals fl to_float) (now : String) (db : KernelDb fl)
      → KernelInUnit fl db
      → KernelInUnit fl (write_signals fl to_float s now db)
  unfolding write_signals mood_update
  write_signals-KernelInUnit s now db h =
      relationship-KernelInUnit fl (relationship_update fl to_float s db.relationship now) now _ (
        unfold update_mood_state get_mood_state in
        record {
          mood = record {
            energy = h.mood.energy;
            annoyance = h.mood.annoyance;
            boredom = round-InUnit fl 3 _ (new_boredom-InUnit s db.mood.boredom h.mood.boredom);
            worry = round-InUnit fl 3 _ (new_worry-InUnit s db.mood.worry h.mood.worry);
            loneliness =
                round-InUnit fl 3 _ (new_loneliness-InUnit s db.mood.loneliness h.mood.loneliness);
          };
          relationship = h.relationship;
        })

  written-KernelInUnit :
      (s : Option (Signals fl to_float)) (now : String) (db : KernelDb fl)
      → KernelInUnit fl db
      → KernelInUnit fl (written fl to_float s now db)
  unfolding written
  written-KernelInUnit none now db h = h
  written-KernelInUnit (some s) now db h = write_signals-KernelInUnit s now db h

  -- If every level of the kernel lies in [0, 1], then so it does after the appraisal of a turn is
  -- applied, whatever JSON the appraisal is and whatever `float` makes of it.
  pub apply_signals-KernelInUnit :
      (signals : Option (Json fl)) (now : String) (db : KernelDb fl)
      → KernelInUnit fl db
      → KernelInUnit fl (apply_signals_to_kernel fl to_float signals now db)
  unfolding apply_signals_to_kernel
  apply_signals-KernelInUnit signals now db h =
      written-KernelInUnit (read_signals fl to_float signals) now db h
