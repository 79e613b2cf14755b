-- ===== src/Behavior/Engine/Bounds.antt =====
-- backend/app/behavior/engine.py: the levels of the kernel across its events.
use cyber_companion.Base.{String, ◌≡◌, ap, subst, List, [], arith, if_keeps}
use cyber_companion.Base.Text.{Text}
use cyber_companion.Base.Float.{Float}
use cyber_companion.Base.Dict.{Dict}
use cyber_companion.Records.{Json, MemoryRecord, MoodStateRecord, RelationshipStateRecord}
use cyber_companion.Store.State.{
  KernelDb, RelationshipUpdate, ok, ok_unique, get_mood_state, update_mood_state,
  update_relationship_state, patch_mood_metadata,
}
use cyber_companion.Store.State.Bounds.{RelationshipInUnit, update_relationship_state-InUnit}
use cyber_companion.Behavior.Mood.Bounds.{MoodInUnit, user_message-MoodInUnit, idle_tick-MoodInUnit}
use cyber_companion.Behavior.Rules.{Tools}
use cyber_companion.Behavior.Types.{BehaviorDecision}
use cyber_companion.Behavior.Engine.{
  Reading, Branch, branch, writes_of, read_input, moved_mood, mood_written, respond,
  evaluate_user_message, evaluate_idle_tick,
}
use cyber_companion.Behavior.Engine.Totality.{evaluate_user_message-eq}

module _ (fl : Float) where
  -- Every level of the mood row and of the relationship row.
  pub record KernelInUnit (db : KernelDb fl) : Type 0 where
    pub mood : MoodInUnit fl db.mood
    pub relationship : RelationshipInUnit fl db.relationship

  get_mood_state-MoodInUnit :
      (db : KernelDb fl) → KernelInUnit db → MoodInUnit fl (get_mood_state fl db)
  unfolding get_mood_state
  get_mood_state-MoodInUnit db h = record {
    energy = h.mood.energy;
    annoyance = h.mood.annoyance;
    boredom = h.mood.boredom;
    worry = h.mood.worry;
    loneliness = h.mood.loneliness;
  }

  mood_written-KernelInUnit :
      (r : Reading fl) (now : String) (db : KernelDb fl)
      → KernelInUnit db
      → KernelInUnit (mood_written fl r now db)
  unfolding mood_written update_mood_state moved_mood
  mood_written-KernelInUnit r now db h =
      let moved =
        user_message-MoodInUnit fl (get_mood_state fl db) r.empty r.low_value r.rambling
          r.overwhelmed r.refused (get_mood_state-MoodInUnit db h) in
      record {
        mood = record {
          energy = moved.energy;
          annoyance = moved.annoyance;
          boredom = moved.boredom;
          worry = moved.worry;
          loneliness = moved.loneliness;
        };
        relationship = h.relationship;
      }

  patch-KernelInUnit :
      (patch : Dict (Json fl)) (removed : List String) (now : String) (db : KernelDb fl)
      {m : MoodStateRecord fl} {db' : KernelDb fl}
      → KernelInUnit db
      → patch_mood_metadata fl patch removed now db ≡ ok (m, db')
      → KernelInUnit db'
  unfolding patch_mood_metadata
  patch-KernelInUnit patch removed now db {m} {db'} h e = record {
    mood = rw same_mood (record {
      energy = h.mood.energy;
      annoyance = h.mood.annoyance;
      boredom = h.mood.boredom;
      worry = h.mood.worry;
      loneliness = h.mood.loneliness;
    });
    relationship = rw same_relationship h.relationship;
  }
    where
      same_mood : db'.mood ≡ record db.mood { updated_at = now; metadata = db'.mood.metadata }
      same_mood = ground arith

      same_relationship : db'.relationship ≡ db.relationship
      same_relationship = ground arith

  pub relationship-KernelInUnit :
      (u : RelationshipUpdate fl) (now : String) (db : KernelDb fl)
      → KernelInUnit db
      → KernelInUnit (update_relationship_state fl u now db)
  relationship-KernelInUnit u now db h = record {
    mood = unfold update_relationship_state in h.mood;
    relationship = update_relationship_state-InUnit fl u now db;
  }

  writes_of-KernelInUnit :
      (b : Branch) (r : Reading fl) (relationship : RelationshipStateRecord fl) (now : String)
      (db : KernelDb fl)
      → KernelInUnit db
      → KernelInUnit (writes_of fl b r relationship now db)
  unfolding writes_of
  writes_of-KernelInUnit Branch.refused r relationship now db h =
      relationship-KernelInUnit _ now db h
  writes_of-KernelInUnit Branch.reply r relationship now db h =
      if_keeps KernelInUnit r.overwhelmed (relationship-KernelInUnit _ now db h) h
  writes_of-KernelInUnit _ r relationship now db h = h

  -- If every level of the kernel lies in [0, 1], then so it does after any user message.
  pub evaluate_user_message-KernelInUnit :
      (tools : Tools) (input : Text) (memories : List (MemoryRecord fl)) (now : String)
      (db : KernelDb fl) {d : BehaviorDecision fl} {db' : KernelDb fl}
      → KernelInUnit db
      → evaluate_user_message fl tools input memories now db ≡ ok (d, db')
      → KernelInUnit db'
  evaluate_user_message-KernelInUnit tools input memories now db {d} {db'} h e =
      let run = evaluate_user_message-eq fl tools input memories now db in
      let r = read_input fl tools input in
      let written =
        patch-KernelInUnit run.0 [] now (mood_written fl r now db)
          (mood_written-KernelInUnit r now db h) run.3 in
      let kept =
        writes_of-KernelInUnit (branch fl tools input memories r) r db.relationship now run.1
          written in
      let same = ok_unique _ _ (d, db') run.4 e in
      subst KernelInUnit (ap (λ x. x.1) same) (unfold respond in kept)

  -- If every level of the kernel lies in [0, 1], then so it does after any idle tick.
  pub evaluate_idle_tick-KernelInUnit :
      (now : String) (db : KernelDb fl)
      → KernelInUnit db
      → KernelInUnit (evaluate_idle_tick fl now db).1
  unfolding evaluate_idle_tick update_mood_state get_mood_state
  evaluate_idle_tick-KernelInUnit now db h =
      let moved =
        idle_tick-MoodInUnit fl (get_mood_state fl db) db.relationship.closeness
          (get_mood_state-MoodInUnit db h) h.relationship.closeness in
      record {
        mood = record {
          energy = moved.energy;
          annoyance = h.mood.annoyance;
          boredom = moved.boredom;
          worry = h.mood.worry;
          loneliness = moved.loneliness;
        };
        relationship = h.relationship;
      }
