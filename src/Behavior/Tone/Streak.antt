-- ===== src/Behavior/Tone/Streak.antt =====
-- backend/app/behavior/tone.py: the streak over whole histories of turns.
use cyber_companion.Base.{
  ℕ, suc, ◌+◌, ◌≡◌, Bool, true, false, List, [], ◌∷◌, none, arith, ◌≤◌, ◌↔◌, if◌then◌else◌,
}
use cyber_companion.Base.Dict.{Dict, get, get-put}
use cyber_companion.Base.Float.{Float}
use cyber_companion.Records.{Json}
use cyber_companion.Behavior.Tone.{
  positive_streak_key, performative_streak_threshold, streak_count, next_positive_streak,
  performative_active_from_metadata,
}

-- The number of positive turns since the last other one; the newest turn stands first.
pub run_length : List Bool → ℕ
run_length [] = 0
run_length (true ∷ turns) = suc (run_length turns)
run_length (false ∷ turns) = 0

module _ (fl : Float) where
  -- The metadata after a history of turns, newest first.
  pub metadata_after : Dict (Json fl) → List Bool → Dict (Json fl)
  metadata_after m [] = m
  metadata_after m (turn ∷ turns) = (next_positive_streak fl (metadata_after m turns) turn).0

  count-next :
      (m : Dict (Json fl)) (turn : Bool)
      → streak_count fl (get positive_streak_key (next_positive_streak fl m turn).0)
        ≡ (if turn then streak_count fl (get positive_streak_key m) + 1 else 0)
  unfolding next_positive_streak streak_count
  count-next m turn = simp get-put

  stored_streak :
      (m : Dict (Json fl)) (turns : List Bool)
      → get positive_streak_key m ≡ none
      → streak_count fl (get positive_streak_key (metadata_after m turns)) ≡ run_length turns
  unfolding metadata_after run_length streak_count
  stored_streak m [] h = rw h
  stored_streak m (true ∷ turns) h =
      omega (arith, count-next (metadata_after m turns) true, stored_streak m turns h)
  stored_streak m (false ∷ turns) h = count-next (metadata_after m turns) false

  -- From metadata without a streak, after any history of turns: teasing is armed by a next turn
  -- exactly if that turn is positive and at least one positive turn stands right before it, and the
  -- surfaces that only read the stored metadata see the same as the turn that wrote it.
  pub armed_iff :
      (m : Dict (Json fl)) (turn : Bool) (turns : List Bool)
      → get positive_streak_key m ≡ none
      → let next = next_positive_streak fl (metadata_after m turns) turn in
        ((next.1 ≡ true) ↔ (performative_streak_threshold ≤ run_length (turn ∷ turns)))
        × (performative_active_from_metadata fl next.0 ≡ next.1)
  unfolding next_positive_streak run_length performative_active_from_metadata
  armed_iff m true turns h =
      let seen = stored_streak m turns h in
      (
        (λ e. ground (arith, seen), λ e. ground (arith, seen)),
        rw (count-next (metadata_after m turns) true),
      )
  armed_iff m false turns h =
      ((λ e. ground arith, λ e. ground arith), rw (count-next (metadata_after m turns) false))
