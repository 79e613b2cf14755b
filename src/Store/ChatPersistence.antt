-- ===== src/Store/ChatPersistence.antt =====
-- backend/app/memory/chat_persistence.py: how a turn of the chat is written to the message log.
pub mod Turns
use cyber_companion.Base.{
  ℕ, String, Bool, true, false, Option, none, some, List, [], ◌∷◌, ◌++◌, str_eq, if◌then◌else◌,
}
use cyber_companion.Base.Text.{Text, strip, is_empty}
use cyber_companion.Base.Int.{pos}
use cyber_companion.Base.Dict.{Dict}
use cyber_companion.Base.Float.{Float}
use cyber_companion.Records.{Json, bool, int, float, str, obj, Fields, end, field}
use cyber_companion.Store.Messages.{MessageRecord, MessageTable, create_message}

module _ (fl : Float) where
  open fl use {F}

  -- providers/types.py
  pub record TokenUsage : Type 0 where
    pub input_tokens : ℕ
    pub output_tokens : ℕ
    pub total_tokens : ℕ

  pub record CostEstimate : Type 0 where
    pub input_usd : F
    pub output_usd : F
    pub total_usd : F
    pub pricing_source : String

  pub record ChatCompletionResult : Type 0 where
    pub provider : String
    pub model : String
    pub content : Text
    pub usage : TokenUsage
    pub cost : CostEstimate
    pub mock : Bool

  -- schemas.py
  pub record ChatMessageSchema : Type 0 where
    pub role : String
    pub content : Text

  -- The optional arguments of a turn.
  pub record TurnLabels : Type 0 where
    pub decision : Option String
    pub avatar_state : Option String
    pub should_call_llm : Option Bool
    pub translation : Option String

  -- `if value is not None: metadata[key] = value`
  entry {ℓ} : {A : Type ℓ} → String → (A → Json fl) → Option A → Dict (Json fl)
  entry key wrap none = []
  entry key wrap (some a) = (key, wrap a) ∷ []

  pub assistant_metadata : ChatCompletionResult → TurnLabels → Dict (Json fl)
  unfolding entry
  assistant_metadata result labels =
      (("provider", str result.provider)
        ∷ ("model", str result.model)
        ∷ ("mock", bool result.mock)
        ∷ (
          "usage",
          obj (
              field "input_tokens" (int (pos result.usage.input_tokens)) (
                field "output_tokens" (int (pos result.usage.output_tokens))
                  (field "total_tokens" (int (pos result.usage.total_tokens)) end))),
        )
        ∷ (
          "cost",
          obj (
              field "input_usd" (float result.cost.input_usd) (
                field "output_usd" (float result.cost.output_usd) (
                  field "total_usd" (float result.cost.total_usd)
                    (field "pricing_source" (str result.cost.pricing_source) end)))),
        )
        ∷ [])
      ++ (entry "decision" str labels.decision
          ++ (entry "avatar_state" str labels.avatar_state
              ++ (entry "should_call_llm" bool labels.should_call_llm
                  ++ entry "translation" str labels.translation)))

  -- The loop over the request: user messages that are not blank are written.
  unfoldable pub persist_user_messages :
      List ChatMessageSchema → Text → MessageTable fl → List ℕ × MessageTable fl
  persist_user_messages [] now t = ([], t)
  persist_user_messages (m ∷ ms) now t =
      let blank = is_empty (strip m.content) in
      let (saved, t') =
        create_message fl m.role m.content "chat" (("phase", str "user_turn") ∷ []) now t in
      let later = persist_user_messages ms now in
      if str_eq m.role "user"
      then (if blank then later t else (let (ids, t'') = later t' in (saved.id ∷ ids, t'')))
      else later t

  unfoldable pub persist_chat_turn :
      List ChatMessageSchema
      → ChatCompletionResult
      → TurnLabels
      → Text
      → MessageTable fl
      → List ℕ × MessageTable fl
  persist_chat_turn request_messages result labels now t =
      let (ids, t') = persist_user_messages request_messages now t in
      let (saved, t'') =
        create_message fl "assistant" result.content "chat" (assistant_metadata result labels) now
          t' in
      (ids ++ saved.id ∷ [], t'')
