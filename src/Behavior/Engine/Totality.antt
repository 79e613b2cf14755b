-- ===== src/Behavior/Engine/Totality.antt =====
-- backend/app/behavior/engine.py: how the evaluation of a user message ends.
use cyber_companion.Base.{
  ℕ, ◌+◌, if◌then◌else◌, String, ◌≡◌, refl, ap, sym, ◌∙◌, Bool, List, [], ◌∷◌, some, if_keeps,
}
use cyber_companion.Base.Int.{pos}
use cyber_companion.Base.Text.{Text}
use cyber_companion.Base.Float.{Float}
use cyber_companion.Base.Dict.{Dict, get, dict_laws}
use cyber_companion.Records.{Json, int, MemoryRecord, MoodStateRecord, RelationshipStateRecord}
use cyber_companion.Store.State.{
  KernelDb, ok, is_retired, is_operational, patch_mood_metadata, update_relationship_state,
}
use cyber_companion.Behavior.Tone.{positive_streak_key, streak_count, next_positive_streak}
use cyber_companion.Behavior.Rules.{Tools}
use cyber_companion.Behavior.Types.{BehaviorDecision}
use cyber_companion.Behavior.Engine.{
  Branch, Reading, branch, read_input, streak, streak_entry, streak_patch, mood_written, writes_of,
  respond, evaluate_user_message,
}

module _ (fl : Float) where
  -- The streak key is neither operational nor retired, so its patch is never refused, and the mood
  -- row holds the new value.
  entry-ok :
      (v : Json fl) (now : String) (db : KernelDb fl)
      → (r : MoodStateRecord fl × KernelDb fl) × (patch_mood_metadata fl
            ((positive_streak_key, v) ∷ [])
            []
            now
            db
          ≡ ok r)
        × (get positive_streak_key r.1.mood.metadata ≡ some v)
  unfolding patch_mood_metadata is_retired is_operational get
  entry-ok v now db = (_, refl, simp dict_laws)

  -- The key that the engine looks up is in the metadata of the next streak.
  next-has_key :
      (m : Dict (Json fl)) (positive_turn : Bool)
      → (v : Json fl) × (get positive_streak_key (next_positive_streak fl m positive_turn).0
          ≡ some v)
  unfolding next_positive_streak
  next-has_key m positive_turn =
      let run : ℕ = if positive_turn then streak_count fl (get positive_streak_key m) + 1 else 0 in
      (int (pos run), simp dict_laws)

  streak-has_key :
      (r : Reading fl) (db : KernelDb fl)
      → (v : Json fl) × (get positive_streak_key (streak fl r db).0 ≡ some v)
  unfolding streak
  streak-has_key r db = next-has_key _ _

  -- What a user message returns is what its branches make of the state after the two writes, the
  -- second of which leaves the next streak.
  pub evaluate_user_message-eq :
      (tools : Tools) (input : Text) (memories : List (MemoryRecord fl)) (now : String)
      (db : KernelDb fl)
      → let r = read_input fl tools input in
        (updates : Dict (Json fl)) × (db' : KernelDb fl) × (m : MoodStateRecord fl)
        × (patch_mood_metadata fl updates [] now (mood_written fl r now db) ≡ ok (m, db'))
        × (evaluate_user_message fl tools input memories now db
            ≡ ok (respond fl tools input memories r now db db'))
        × (get positive_streak_key db'.mood.metadata ≡ get positive_streak_key (streak fl r db).0)
  unfolding evaluate_user_message streak_patch streak_entry
  evaluate_user_message-eq tools input memories now db =
      let r = read_input fl tools input in
      let (v, known) = streak-has_key r db in
      let (done, patched_ok, stored) = entry-ok v now (mood_written fl r now db) in
      (
        (positive_streak_key, v) ∷ [],
        done.1,
        done.0,
        patched_ok,
        rw (known, patched_ok) refl,
        stored ∙ sym known,
      )

  writes-mood :
      (b : Branch) (r : Reading fl) (relationship : RelationshipStateRecord fl) (now : String)
      (db : KernelDb fl)
      → (writes_of fl b r relationship now db).mood ≡ db.mood
  unfolding writes_of update_relationship_state
  writes-mood Branch.refused r relationship now db = refl
  writes-mood Branch.reply r relationship now db =
      if_keeps (λ (x : KernelDb fl). x.mood ≡ db.mood) r.overwhelmed refl refl
  writes-mood Branch.empty r relationship now db = refl
  writes-mood Branch.stale_job r relationship now db = refl
  writes-mood Branch.low_value r relationship now db = refl
  writes-mood Branch.rambling r relationship now db = refl

  -- A user message is always answered: whatever the text, the memories and the stored state, the
  -- evaluation ends with a decision, no error of the store and no missing key is raised, and the mood
  -- row is left with the streak that next_positive_streak computed for this turn.
  pub evaluate_user_message-total :
      (tools : Tools) (input : Text) (memories : List (MemoryRecord fl)) (now : String)
      (db : KernelDb fl)
      → (r : BehaviorDecision fl × KernelDb fl) × (evaluate_user_message fl tools input memories now
            db
          ≡ ok r)
        × (get positive_streak_key r.1.mood.metadata
            ≡ get positive_streak_key (streak fl (read_input fl tools input) db).0)
  unfolding respond
  evaluate_user_message-total tools input memories now db =
      let run = evaluate_user_message-eq tools input memories now db in
      let r = read_input fl tools input in
      (
        respond fl tools input memories r now db run.1,
        run.4,
        ap (λ (m : MoodStateRecord fl). get positive_streak_key m.metadata)
              (writes-mood (branch fl tools input memories r) r db.relationship now run.1)
            ∙ run.5,
      )
