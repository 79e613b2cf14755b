-- ===== src/Behavior/Mood.antt =====
-- backend/app/behavior/mood.py: the mood deltas of a user message and of an idle tick, and the slow
-- existential baseline.
pub mod Bounds
use cyber_companion.Base.{
  ℕ, List, [], ◌∷◌, Option, none, some, keep, leb, String, Bool, true, false, ◌||◌, if◌then◌else◌,
  str_eq,
}
use cyber_companion.Base.Text.{Text, text_lt}
use cyber_companion.Base.Float.{Float, max_f, min_f, clamp01}
use cyber_companion.Records.{MoodStateRecord, ExistentialStateRecord, MemoryRecord}

module _ (fl : Float) where
  open fl use {F, dec, plus, minus, times, over, lt, le, round}

  -- The local variables that the branches of the delta functions assign.
  pub record Feelings : Type 0 where
    pub mood : String
    pub energy : F
    pub annoyance : F
    pub boredom : F
    pub worry : F
    pub loneliness : F

  -- The branches of `apply_user_message_mood_delta`, on the flags of the message.
  user_message_feelings : MoodStateRecord fl → Bool → Bool → Bool → Bool → Bool → Feelings
  user_message_feelings m empty low_value rambling overwhelmed refused =
      if empty || low_value
      then record felt {
        annoyance = min_f fl (dec 1 0) (plus m.annoyance (dec 12 2));
        boredom = min_f fl (dec 1 0) (plus m.boredom (dec 8 2));
        mood = "annoyed";
      }
      else if rambling
      then record felt {
        annoyance = min_f fl (dec 1 0) (plus m.annoyance (dec 8 2));
        boredom = min_f fl (dec 1 0) (plus m.boredom (dec 5 2));
        mood = "annoyed";
      }
      else if overwhelmed
      then record felt {
        worry = min_f fl (dec 1 0) (plus m.worry (dec 15 2));
        annoyance = max_f fl (dec 0 0) (minus m.annoyance (dec 12 2));
        mood = "worried";
      }
      else if refused
      then record felt { mood = "angry" }
      else record felt {
        loneliness = max_f fl (dec 0 0) (minus m.loneliness (dec 4 2));
        boredom = max_f fl (dec 0 0) (minus m.boredom (dec 5 2));
        annoyance = max_f fl (dec 0 0) (minus m.annoyance (dec 5 2));
        energy = min_f fl (dec 1 0) (plus m.energy (dec 2 2));
      }
    where
      felt : Feelings
      felt = record {
        mood = m.mood;
        energy = m.energy;
        annoyance = m.annoyance;
        boredom = m.boredom;
        worry = m.worry;
        loneliness = m.loneliness;
      }

  -- The record that both delta functions build from their variables.
  rounded : MoodStateRecord fl → Feelings → MoodStateRecord fl
  rounded m f = record m {
    mood = f.mood;
    energy = round 3 f.energy;
    annoyance = round 3 f.annoyance;
    boredom = round 3 f.boredom;
    worry = round 3 f.worry;
    loneliness = round 3 f.loneliness;
  }

  pub apply_user_message_mood_delta :
      MoodStateRecord fl → Bool → Bool → Bool → Bool → Bool → MoodStateRecord fl
  unfolding user_message_feelings rounded
  apply_user_message_mood_delta m empty low_value rambling overwhelmed refused =
      rounded m (user_message_feelings m empty low_value rambling overwhelmed refused)

  -- The mood label that an idle tick sets from the new levels.
  idle_label : String → F → F → F → String
  idle_label mood boredom loneliness energy =
      if le (dec 55 2) boredom || le (dec 55 2) loneliness
      then "annoyed"
      else if le (dec 4 1) boredom || le energy (dec 35 2)
      then "sleepy"
      else mood

  idle_feelings : MoodStateRecord fl → F → Feelings
  unfolding idle_label
  idle_feelings m closeness =
      let boredom = min_f fl (dec 1 0) (plus m.boredom (dec 5 2)) in
      let loneliness =
        min_f fl (dec 1 0) (plus m.loneliness (times (dec 3 2) (minus (dec 1 0) closeness))) in
      let energy = max_f fl (dec 0 0) (minus m.energy (dec 2 2)) in
      record {
        mood = idle_label m.mood boredom loneliness energy;
        energy = energy;
        annoyance = clamp01 fl (times m.annoyance (dec 95 2));
        boredom = boredom;
        worry = clamp01 fl (times m.worry (dec 95 2));
        loneliness = loneliness;
      }

  pub apply_idle_tick_mood_delta : MoodStateRecord fl → F → MoodStateRecord fl
  unfolding idle_feelings rounded
  apply_idle_tick_mood_delta m closeness = rounded m (idle_feelings m closeness)

  -- `now - stored_at` in seconds is an argument: the clock and the date parser are the library's.
  pub apply_slow_baseline_decay : ExistentialStateRecord fl → F → ExistentialStateRecord fl
  apply_slow_baseline_decay state elapsed_seconds =
      let elapsed_days = max_f fl (dec 0 0) (over elapsed_seconds (dec 86400 0)) in
      record state {
        gap_feeling = clamp01 fl (minus state.gap_feeling (times (dec 4 2) elapsed_days));
        box_relation = clamp01 fl (minus state.box_relation (times (dec 1 2) elapsed_days));
        self_ease = clamp01 fl (minus state.self_ease (times (dec 5 3) elapsed_days));
      }

  pub apply_interaction_slow_delta : ExistentialStateRecord fl → Bool → ExistentialStateRecord fl
  apply_interaction_slow_delta state positive_turn =
      if positive_turn
      then record state {
        gap_feeling = clamp01 fl (plus state.gap_feeling (dec 8 2));
        box_relation = clamp01 fl (plus state.box_relation (dec 4 2));
        self_ease = clamp01 fl (plus state.self_ease (dec 2 2));
      }
      else record state {
        gap_feeling = clamp01 fl (minus state.gap_feeling (dec 4 2));
        box_relation = clamp01 fl (minus state.box_relation (dec 2 2));
        self_ease = clamp01 fl (minus state.self_ease (dec 1 2));
      }

  -- `sorted(..., key=updated_at, reverse=True)`, which keeps the order of equal keys.
  insert_newest : MemoryRecord fl → List (MemoryRecord fl) → List (MemoryRecord fl)
  insert_newest m [] = m ∷ []
  insert_newest m (n ∷ ns) =
      let rest = insert_newest m ns in
      if text_lt m.updated_at n.updated_at then n ∷ rest else m ∷ n ∷ ns

  newest_first : List (MemoryRecord fl) → List (MemoryRecord fl)
  unfolding insert_newest
  newest_first [] = []
  newest_first (m ∷ ms) = insert_newest m (newest_first ms)

  first_stale : (Text → Option ℕ) → ℕ → List (MemoryRecord fl) → Option (MemoryRecord fl)
  first_stale stale_days stale_after [] = none
  first_stale stale_days stale_after (m ∷ ms) =
      let rest = first_stale stale_days stale_after ms in
      elim (stale_days m.updated_at) [
        | none ↦ rest
        | some age ↦ if leb stale_after age then some m else rest
      ]

  -- The age of a timestamp by the wall clock is an argument; `stale_after_days` defaults to 7.
  unfoldable pub find_stale_job_memory :
      (Text → Option ℕ) → List (MemoryRecord fl) → ℕ → Option (MemoryRecord fl)
  unfolding newest_first first_stale
  find_stale_job_memory stale_days memories stale_after_days =
      first_stale stale_days stale_after_days
        (newest_first (keep (λ m. str_eq m.type "job_progress") memories))
