-- ===== src/Behavior/Mood/Bounds.antt =====
-- backend/app/behavior/mood.py: the levels of the mood and the unit interval.
use cyber_companion.Base.{ℕ, if_keeps, Bool, arith, ◌||◌}
use cyber_companion.Base.Float.{
  Float, InUnit, max_f, min_f, clamp01-InUnit, round-InUnit, raise-InUnit, lower-InUnit,
}
use cyber_companion.Records.{MoodStateRecord}
use cyber_companion.Behavior.Mood.{
  Feelings, user_message_feelings, rounded, apply_user_message_mood_delta, idle_feelings,
  apply_idle_tick_mood_delta,
}

module _ (fl : Float) where
  open fl use {F, dec, plus, minus, times, le}

  -- The levels that mood.py moves lie in the unit interval.
  pub record MoodInUnit (m : MoodStateRecord fl) : Type 0 where
    pub energy : InUnit fl m.energy
    pub annoyance : InUnit fl m.annoyance
    pub boredom : InUnit fl m.boredom
    pub worry : InUnit fl m.worry
    pub loneliness : InUnit fl m.loneliness

  record FeelingsInUnit (f : Feelings fl) : Type 0 where
    energy : InUnit fl f.energy
    annoyance : InUnit fl f.annoyance
    boredom : InUnit fl f.boredom
    worry : InUnit fl f.worry
    loneliness : InUnit fl f.loneliness

  rounded-MoodInUnit :
      (m : MoodStateRecord fl) (f : Feelings fl) → FeelingsInUnit f → MoodInUnit (rounded fl m f)
  unfolding rounded
  rounded-MoodInUnit m f h = record {
    energy = round-InUnit fl 3 f.energy h.energy;
    annoyance = round-InUnit fl 3 f.annoyance h.annoyance;
    boredom = round-InUnit fl 3 f.boredom h.boredom;
    worry = round-InUnit fl 3 f.worry h.worry;
    loneliness = round-InUnit fl 3 f.loneliness h.loneliness;
  }

  up : (v : F) (n k : ℕ) → InUnit fl v → InUnit fl (min_f fl (dec 1 0) (plus v (dec n k)))
  up v n k h = raise-InUnit fl v (dec n k) h (fl.dec_nonneg n k)

  down : (v : F) (n k : ℕ) → InUnit fl v → InUnit fl (max_f fl (dec 0 0) (minus v (dec n k)))
  down v n k h = lower-InUnit fl v (dec n k) h (fl.dec_nonneg n k)

  user_message_feelings-InUnit :
      (m : MoodStateRecord fl) (empty low_value rambling overwhelmed refused : Bool)
      → MoodInUnit m
      → FeelingsInUnit (user_message_feelings fl m empty low_value rambling overwhelmed refused)
  unfolding user_message_feelings
  user_message_feelings-InUnit m e l r o f h =
      if_keeps FeelingsInUnit (e || l)
        (record {
          energy = h.energy;
          annoyance = up m.annoyance 12 2 h.annoyance;
          boredom = up m.boredom 8 2 h.boredom;
          worry = h.worry;
          loneliness = h.loneliness;
        })
        (if_keeps FeelingsInUnit r
          (record {
            energy = h.energy;
            annoyance = up m.annoyance 8 2 h.annoyance;
            boredom = up m.boredom 5 2 h.boredom;
            worry = h.worry;
            loneliness = h.loneliness;
          })
          (if_keeps FeelingsInUnit o
            (record {
              energy = h.energy;
              annoyance = down m.annoyance 12 2 h.annoyance;
              boredom = h.boredom;
              worry = up m.worry 15 2 h.worry;
              loneliness = h.loneliness;
            })
            (if_keeps FeelingsInUnit f
              (record {
                energy = h.energy;
                annoyance = h.annoyance;
                boredom = h.boredom;
                worry = h.worry;
                loneliness = h.loneliness;
              })
              (record {
                energy = up m.energy 2 2 h.energy;
                annoyance = down m.annoyance 5 2 h.annoyance;
                boredom = down m.boredom 5 2 h.boredom;
                worry = h.worry;
                loneliness = down m.loneliness 4 2 h.loneliness;
              }))))

  idle_feelings-InUnit :
      (m : MoodStateRecord fl) (closeness : F)
      → MoodInUnit m
      → InUnit fl closeness
      → FeelingsInUnit (idle_feelings fl m closeness)
  unfolding idle_feelings
  idle_feelings-InUnit m c h k = record {
    energy = down m.energy 2 2 h.energy;
    annoyance = clamp01-InUnit fl (times m.annoyance (dec 95 2));
    boredom = up m.boredom 5 2 h.boredom;
    worry = clamp01-InUnit fl (times m.worry (dec 95 2));
    loneliness = raise-InUnit fl m.loneliness (times (dec 3 2) (minus (dec 1 0) c)) h.loneliness (
        fl.times_nonneg 3 2 (minus (dec 1 0) c) (omega arith)
          (fl.minus_nonneg (dec 1 0) c k.low k.high fl.one_le_one)
          (fl.minus_le_one (dec 1 0) c fl.one_le_one k.low));
  }

  -- If every level of a mood lies in the unit interval, then so it does after the delta of a user
  -- message, whatever its flags.
  pub user_message-MoodInUnit :
      (m : MoodStateRecord fl) (empty low_value rambling overwhelmed refused : Bool)
      → MoodInUnit m
      → MoodInUnit (apply_user_message_mood_delta fl m empty low_value rambling overwhelmed refused)
  unfolding apply_user_message_mood_delta
  user_message-MoodInUnit m e l r o f h =
      rounded-MoodInUnit m (user_message_feelings fl m e l r o f)
        (user_message_feelings-InUnit m e l r o f h)

  -- If every level of a mood and the closeness lie in the unit interval, then so does every level
  -- after the delta of an idle tick.
  pub idle_tick-MoodInUnit :
      (m : MoodStateRecord fl) (closeness : F)
      → MoodInUnit m
      → InUnit fl closeness
      → MoodInUnit (apply_idle_tick_mood_delta fl m closeness)
  unfolding apply_idle_tick_mood_delta
  idle_tick-MoodInUnit m c h k =
      rounded-MoodInUnit m (idle_feelings fl m c) (idle_feelings-InUnit m c h k)
