-- ===== src/Behavior/Engine.antt =====
-- backend/app/behavior/engine.py: what a user message and an idle tick make the companion do.
pub mod Totality
pub mod Bounds
pub mod Decisions
use cyber_companion.Base.{
  ℕ, String, Bool, true, false, not, ◌&&◌, ◌||◌, Option, none, some, List, [], ◌∷◌, leb, length,
  if◌then◌else◌, is_some,
}
use cyber_companion.Base.Text.{Text, strip}
use cyber_companion.Base.Dict.{Dict, get, put}
use cyber_companion.Base.Float.{Float, max_f, min_f}
use cyber_companion.Records.{Json, MoodStateRecord, RelationshipStateRecord, MemoryRecord}
use cyber_companion.Store.State.{
  KernelDb, Result, ok, err, missing_key, get_mood_state, update_mood_state,
  update_relationship_state, patch_mood_metadata, no_mood_update, no_relationship_update,
}
use cyber_companion.Behavior.Mood.{
  apply_user_message_mood_delta, apply_idle_tick_mood_delta, find_stale_job_memory,
}
use cyber_companion.Behavior.Tone.{
  ToneMode, ToneProjection, positive_streak_key, in_positive_zone, next_positive_streak,
  project_tone,
}
use cyber_companion.Behavior.Types.{DecisionType, decision_name, BehaviorDecision}
use cyber_companion.Behavior.Rules.{
  Tools, stale_days_from_iso, is_empty_input, is_low_value_input, is_rambling,
  matches_refuse_pattern, mentions_job_topic, mentions_overwhelmed, local_response_for_decision,
}

pub data Branch : Type 0 where
  empty refused stale_job low_value rambling reply : Branch

module _ (fl : Float) where
  open fl use {F, dec, plus, minus, le}

  -- What `_evaluate_user_message` computes before it branches.
  pub record Reading : Type 0 where
    pub empty : Bool
    pub low_value : Bool
    pub rambling : Bool
    pub overwhelmed : Bool
    pub refused : Bool

  pub read_input : Tools → Text → Reading
  read_input tools user_input = record {
    empty = is_empty_input user_input;
    low_value = is_low_value_input tools user_input;
    rambling = is_rambling user_input;
    overwhelmed = mentions_overwhelmed tools user_input;
    refused = matches_refuse_pattern tools user_input;
  }

  clean_turn : Reading → Bool
  clean_turn r = not (r.empty || r.low_value || r.rambling || r.overwhelmed || r.refused)

  pub moved_mood : Reading → KernelDb fl → MoodStateRecord fl
  moved_mood r db =
      apply_user_message_mood_delta fl (get_mood_state fl db) r.empty r.low_value r.rambling
        r.overwhelmed r.refused

  pub streak : Reading → KernelDb fl → Dict (Json fl) × Bool
  unfolding clean_turn moved_mood
  streak r db =
      next_positive_streak fl (moved_mood r db).metadata
        (clean_turn r && in_positive_zone fl (get_mood_state fl db) db.relationship r.overwhelmed)

  pub projection : Reading → KernelDb fl → ToneProjection fl
  unfolding streak
  projection r db =
      project_tone fl (get_mood_state fl db) db.relationship r.overwhelmed (streak r db).1

  -- The six levels that are written back.
  pub mood_written : Reading → String → KernelDb fl → KernelDb fl
  unfolding moved_mood
  mood_written r now db =
      let updated = moved_mood r db in
      update_mood_state fl
        (record (no_mood_update fl) {
          mood = some updated.mood;
          energy = some updated.energy;
          annoyance = some updated.annoyance;
          boredom = some updated.boredom;
          worry = some updated.worry;
          loneliness = some updated.loneliness;
        })
        now db

  -- `{POSITIVE_STREAK_KEY: streak_metadata[POSITIVE_STREAK_KEY]}`
  streak_entry : Option (Json fl) → Result (Dict (Json fl))
  streak_entry none = err missing_key
  streak_entry (some v) = ok ((positive_streak_key, v) ∷ [])

  pub streak_patch : Dict (Json fl) → Result (Dict (Json fl))
  streak_patch metadata = streak_entry (get positive_streak_key metadata)

  -- The guards of `_evaluate_user_message` in their order.
  pub branch : Tools → Text → List (MemoryRecord fl) → Reading → Branch
  branch tools user_input memories r =
      let casual = leb (length (strip user_input)) 48 && not r.rambling && not r.overwhelmed in
      let stale_job = is_some (find_stale_job_memory fl (stale_days_from_iso tools) memories 7) in
      if r.empty
      then Branch.empty
      else if r.refused
      then Branch.refused
      else if stale_job && not (mentions_job_topic tools user_input) && casual
      then Branch.stale_job
      else if r.low_value
      then Branch.low_value
      else if r.rambling
      then Branch.rambling
      else Branch.reply

  say : DecisionType → Option String
  say d = some (local_response_for_decision (decision_name d) ToneMode.normal)

  -- The decision that a branch returns, from the projection and the moved mood of the turn.
  pub decision_of : Branch → ToneProjection fl → MoodStateRecord fl → BehaviorDecision fl
  unfolding say
  decision_of Branch.empty shown updated = record {
    decision = DecisionType.silent;
    avatar_state = "silent";
    should_call_llm = false;
    reason = "empty_user_input";
    local_response = say DecisionType.silent;
    tone_mode = shown.tone_mode;
    tone = some shown;
  }
  decision_of Branch.refused shown updated = record {
    decision = DecisionType.refuse;
    avatar_state = "angry";
    should_call_llm = false;
    reason = "refused_request_pattern";
    local_response = say DecisionType.refuse;
    tone_mode = ToneMode.normal;
    tone = none;
  }
  decision_of Branch.stale_job shown updated = record {
    decision = DecisionType.proactive;
    avatar_state = "worried";
    should_call_llm = false;
    reason = "stale_job_progress";
    local_response = say DecisionType.proactive;
    tone_mode = shown.tone_mode;
    tone = none;
  }
  decision_of Branch.low_value shown updated =
      let unmet =
        if le (dec 55 2) updated.annoyance then DecisionType.silent else DecisionType.mutter in
      record {
        decision = unmet;
        avatar_state = "annoyed";
        should_call_llm = false;
        reason = "low_value_user_input";
        local_response = say unmet;
        tone_mode = shown.tone_mode;
        tone = some shown;
      }
  decision_of Branch.rambling shown updated = record {
    decision = DecisionType.interrupt;
    avatar_state = "annoyed";
    should_call_llm = true;
    reason = "user_rambling";
    local_response = none;
    tone_mode = shown.tone_mode;
    tone = some shown;
  }
  decision_of Branch.reply shown updated = record {
    decision = DecisionType.reply;
    avatar_state = elim shown.tone_mode [
      | ToneMode.normal ↦ "thinking"
      | ToneMode.comfort ↦ "worried"
      | _ ↦ "idle"
    ];
    should_call_llm = true;
    reason = "user_message_needs_response";
    local_response = none;
    tone_mode = shown.tone_mode;
    tone = some shown;
  }

  -- What a branch writes to the relationship, from the relationship that was read at the head.
  pub writes_of : Branch → Reading → RelationshipStateRecord fl → String → KernelDb fl → KernelDb fl
  writes_of Branch.refused r relationship now db =
      update_relationship_state fl
        (record (no_relationship_update fl) {
          tension = some (min_f fl (dec 1 0) (plus relationship.tension (dec 8 2)));
          trust = some (max_f fl (dec 0 0) (minus relationship.trust (dec 5 2)));
        })
        now db
  writes_of Branch.reply r relationship now db =
      if r.overwhelmed
      then update_relationship_state fl
          (record (no_relationship_update fl) {
            trust = some (min_f fl (dec 1 0) (plus relationship.trust (dec 4 2)));
          })
          now db
      else db
  writes_of _ r relationship now db = db

  -- The tail of `_evaluate_user_message`; `before` is the state that its head read.
  pub respond :
      Tools
      → Text
      → List (MemoryRecord fl)
      → Reading
      → String
      → KernelDb fl
      → KernelDb fl
      → BehaviorDecision fl × KernelDb fl
  respond tools user_input memories r now before db =
      let b = branch tools user_input memories r in
      (
        decision_of b (projection r before) (moved_mood r before),
        writes_of b r before.relationship now db,
      )

  abbrev after_patch :
      Result (MoodStateRecord fl × KernelDb fl)
      → (KernelDb fl → BehaviorDecision fl × KernelDb fl)
      → Result (BehaviorDecision fl × KernelDb fl)
  after_patch (ok (m, db)) f = ok (f db)
  after_patch (err e) f = err e

  -- The patch of the streak, once its updates are looked up.
  abbrev patched :
      Result (Dict (Json fl)) → String → KernelDb fl → Result (MoodStateRecord fl × KernelDb fl)
  patched (ok updates) now db = patch_mood_metadata fl updates [] now db
  patched (err e) now db = err e

  -- `memories` is `store.list_memories(limit=100)`.
  pub evaluate_user_message :
      Tools
      → Text
      → List (MemoryRecord fl)
      → String
      → KernelDb fl
      → Result (BehaviorDecision fl × KernelDb fl)
  unfolding read_input
  evaluate_user_message tools user_input memories now db =
      let r = read_input tools user_input in
      after_patch (patched (streak_patch (streak r db).0) now (mood_written r now db))
        (respond tools user_input memories r now db)

  pub evaluate_idle_tick : String → KernelDb fl → BehaviorDecision fl × KernelDb fl
  evaluate_idle_tick now db =
      let updated =
        apply_idle_tick_mood_delta fl (get_mood_state fl db) db.relationship.closeness in
      let db' =
        update_mood_state fl
          (record (no_mood_update fl) {
            mood = some updated.mood;
            energy = some updated.energy;
            boredom = some updated.boredom;
            loneliness = some updated.loneliness;
          })
          now db in
      let low = le (dec 4 1) updated.boredom || le updated.energy (dec 35 2) in
      (
        record {
          decision = DecisionType.observe;
          avatar_state = if low then "sleepy" else "idle";
          should_call_llm = false;
          reason = if low then "idle_low_energy" else "idle_tick";
          local_response = none;
          tone_mode = ToneMode.normal;
          tone = none;
        },
        db',
      )
