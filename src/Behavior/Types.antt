-- ===== src/Behavior/Types.antt =====
-- backend/app/behavior/types.py: the decisions of the engine.
use cyber_companion.Base.{String, Bool, Option}
use cyber_companion.Base.Float.{Float}
use cyber_companion.Behavior.Tone.{ToneMode, ToneProjection}

pub data DecisionType : Type 0 where
  reply silent mutter refuse interrupt proactive observe : DecisionType

abbrev pub decision_name : DecisionType → String
decision_name DecisionType.reply = "reply"
decision_name DecisionType.silent = "silent"
decision_name DecisionType.mutter = "mutter"
decision_name DecisionType.refuse = "refuse"
decision_name DecisionType.interrupt = "interrupt"
decision_name DecisionType.proactive = "proactive"
decision_name DecisionType.observe = "observe"

module _ (fl : Float) where
  -- Without the three fields that only a proactive check fills.
  pub record BehaviorDecision : Type 0 where
    pub decision : DecisionType
    pub avatar_state : String
    pub should_call_llm : Bool
    pub reason : String
    pub local_response : Option String
    pub tone_mode : ToneMode
    pub tone : Option (ToneProjection fl)
