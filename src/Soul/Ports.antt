-- ===== src/Soul/Ports.antt =====
-- backend/app/soul/ports.py: what the runtime asks of the store, over any state `W`. An operation that
-- returns nothing has raised; what it wrote before that stays in the state.
use cyber_companion.Base.{ℕ, String, Bool, Option, none, some, List}
use cyber_companion.Base.Text.{Text}
use cyber_companion.Base.Dict.{Dict}
use cyber_companion.Base.Float.{Float}
use cyber_companion.Records.{Json, MoodStateRecord}
use cyber_companion.Store.Budget.{BudgetConfig}
use cyber_companion.Store.UsageGuard.{BudgetGate}
use cyber_companion.Store.ChatPersistence.{ChatCompletionResult, TurnLabels}
use cyber_companion.Store.Context.Prompt.{ChatMessage, BuiltContext}
use cyber_companion.Behavior.Types.{BehaviorDecision}

abbrev pub Step : Type 0 → Type 0 → Type 0
Step W A = W → Option A × W

unfoldable pub bind : {W A B : Type 0} → Option A × W → (A → Step W B) → Option B × W
bind (none, w) f = (none, w)
bind (some a, w) f = f a w

infixl 5 ◌>>=◌ ◌>>◌
abbrev pub ◌>>=◌ : {W A B : Type 0} → Step W A → (A → Step W B) → Step W B
(m >>= f) w = bind (m w) f

abbrev pub ◌>>◌ : {W A B : Type 0} → Step W A → Step W B → Step W B
(m >> n) w = bind (m w) (λ a. n)

abbrev pub pure : {W A : Type 0} → A → Step W A
pure a w = (some a, w)

abbrev pub raise : {W A : Type 0} → Step W A
raise w = (none, w)

-- An operation that only reads.
abbrev pub reading : {W A : Type 0} → (W → A) → Step W A
reading f w = (some (f w), w)

-- `try: ... except Exception: pass`
unfoldable pub try_step : {W A : Type 0} → Step W A → Step W Unit
try_step m w = (some tt, (m w).1)

module _ (fl : Float) where
  -- The payload of a committed turn.
  pub record TurnEvent : Type 0 where
    pub surface : String
    pub event_type : String
    pub decision : String
    pub avatar_state : String
    pub called_llm : Bool
    pub message_ids : List ℕ
    pub provider : String
    pub model : String
    pub mock : Bool
    pub has_user_input : Bool
    pub has_signals : Bool
    pub translated : Bool
    pub metadata : Dict (Json fl)

  -- SoulEvent; the id and the time come from the table.
  pub record SoulEvent : Type 0 where
    pub kind : String
    pub payload : TurnEvent

  -- MemoryPort, StatePort and EventLogPort.
  pub record SoulPorts (W : Type 0) : Type 0 where
    pub decide_user_message : Text → Step W (BehaviorDecision fl)
    pub check_llm_budget : BudgetConfig fl → Text → W → BudgetGate fl
    pub build_context :
        Text → BudgetConfig fl → BehaviorDecision fl → Option String → W → BuiltContext fl
    pub persist_turn : Text → ChatCompletionResult fl → TurnLabels fl → Step W (List ℕ)
    pub record_turn_memories : Text → Option (Json fl) → Option ℕ → BudgetConfig fl → Step W Unit
    pub maybe_update_summary : BudgetConfig fl → Step W Bool
    pub note_llm_turn : Step W ℕ
    pub get_mood : W → MoodStateRecord fl
    pub apply_signals : Option (Json fl) → Step W Unit
    pub append : SoulEvent → Step W Unit

  -- ProviderRouter: the model of a provider and its answer, where no ProviderError is raised, with
  -- the translator and the expression tagger that call it.
  pub record Router : Type 0 where
    pub model_of : Option String → Option Text
    pub complete : List ChatMessage → ℕ → Option String → Option (ChatCompletionResult fl)
    pub translate_to_chinese : Text → Option String
    pub tag_reply_by_sentence : Text → MoodStateRecord fl → Text
