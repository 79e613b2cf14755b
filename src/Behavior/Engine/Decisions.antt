-- ===== src/Behavior/Engine/Decisions.antt =====
-- backend/app/behavior/engine.py: its decisions, for the surfaces that act on them.
use cyber_companion.Base.{
  String, ◌≡◌, ◌↔◌, ◌⊎◌, refl, ap, subst, true, false, ◌||◌, List, arith, is_some,
}
use cyber_companion.Base.Text.{Text}
use cyber_companion.Base.Float.{Float}
use cyber_companion.Records.{MemoryRecord, MoodStateRecord}
use cyber_companion.Store.State.{KernelDb, ok, ok_unique, get_mood_state, update_mood_state}
use cyber_companion.Behavior.Tone.{ToneProjection}
use cyber_companion.Behavior.Rules.{Tools}
use cyber_companion.Behavior.Mood.{apply_idle_tick_mood_delta}
use cyber_companion.Behavior.Types.{DecisionType, BehaviorDecision}
use cyber_companion.Behavior.Engine.{
  Branch, Reading, read_input, branch, say, decision_of, respond, projection, moved_mood,
  evaluate_user_message, evaluate_idle_tick,
}
use cyber_companion.Behavior.Engine.Totality.{evaluate_user_message-eq}

module _ (fl : Float) where
  -- Exactly the messages that stay off the model carry a line to say.
  abbrev Answers : BehaviorDecision fl → Type 0
  Answers d =
      ((d.should_call_llm ≡ false) ↔ (is_some d.local_response ≡ true))
      × ((d.should_call_llm ≡ true)
          ↔ ((d.decision ≡ DecisionType.reply) ⊎ (d.decision ≡ DecisionType.interrupt)))

  decision_of-Answers :
      (b : Branch) (shown : ToneProjection fl) (updated : MoodStateRecord fl)
      → Answers (decision_of fl b shown updated)
  unfolding decision_of say
  decision_of-Answers b shown updated =
      ((λ h. ground arith, λ h. ground arith), (λ h. ground arith, λ h. ground arith))

  -- A message that reads as empty, refused or low in value never reaches the model.
  branch-local :
      (tools : Tools) (input : Text) (memories : List (MemoryRecord fl)) (r : Reading fl)
      (shown : ToneProjection fl) (updated : MoodStateRecord fl)
      → (r.empty || r.refused || r.low_value) ≡ true
      → (decision_of fl (branch fl tools input memories r) shown updated).should_call_llm ≡ false
  unfolding branch decision_of
  branch-local tools input memories r shown updated h = ground arith

  decision_eq :
      (tools : Tools) (input : Text) (memories : List (MemoryRecord fl)) (now : String)
      (db : KernelDb fl) {d : BehaviorDecision fl} {db' : KernelDb fl}
      → evaluate_user_message fl tools input memories now db ≡ ok (d, db')
      → let r = read_input fl tools input in
        decision_of fl (branch fl tools input memories r) (projection fl r db) (moved_mood fl r db)
        ≡ d
  unfolding respond
  decision_eq tools input memories now db {d} {db'} e =
      let run = evaluate_user_message-eq fl tools input memories now db in
      ap (λ x. x.0) (ok_unique _ _ (d, db') run.4 e)

  -- After any user message: the decision carries a local line exactly if it calls no model; it calls
  -- the model exactly if it is a reply or an interrupt; and a message that is empty, refused or low
  -- in value never calls it.
  pub evaluate_user_message-answers :
      (tools : Tools) (input : Text) (memories : List (MemoryRecord fl)) (now : String)
      (db : KernelDb fl) {d : BehaviorDecision fl} {db' : KernelDb fl}
      → evaluate_user_message fl tools input memories now db ≡ ok (d, db')
      → ((d.should_call_llm ≡ false) ↔ (is_some d.local_response ≡ true))
        × ((d.should_call_llm ≡ true)
            ↔ ((d.decision ≡ DecisionType.reply) ⊎ (d.decision ≡ DecisionType.interrupt)))
        × (let r = read_input fl tools input in
            (r.empty || r.refused || r.low_value) ≡ true → d.should_call_llm ≡ false)
  evaluate_user_message-answers tools input memories now db {d} {db'} e =
      let r = read_input fl tools input in
      let b = branch fl tools input memories r in
      let same = decision_eq tools input memories now db e in
      let answers =
        subst Answers same (decision_of-Answers b (projection fl r db) (moved_mood fl r db)) in
      (
        answers.0,
        answers.1,
        λ h.
            subst (λ (x : BehaviorDecision fl). x.should_call_llm ≡ false) same
              (branch-local tools input memories r (projection fl r db) (moved_mood fl r db) h),
      )

  -- An idle tick computes a decayed annoyance and worry, and stores neither: both levels read after
  -- the tick as before it, while the loneliness and the boredom are those that mood.py computed.
  pub evaluate_idle_tick-stores :
      (now : String) (db : KernelDb fl)
      → let after = get_mood_state fl (evaluate_idle_tick fl now db).1 in
        let updated =
          apply_idle_tick_mood_delta fl (get_mood_state fl db) db.relationship.closeness in
        (after.annoyance ≡ (get_mood_state fl db).annoyance)
        × (after.worry ≡ (get_mood_state fl db).worry)
        × (after.boredom ≡ updated.boredom)
        × (after.loneliness ≡ updated.loneliness)
        × (after.energy ≡ updated.energy)
        × (after.mood ≡ updated.mood)
  unfolding evaluate_idle_tick update_mood_state get_mood_state
  evaluate_idle_tick-stores now db = (refl, refl, refl, refl, refl, refl)
