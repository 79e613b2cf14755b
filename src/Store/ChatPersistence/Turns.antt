-- ===== src/Store/ChatPersistence/Turns.antt =====
-- backend/app/memory/chat_persistence.py: a persisted turn and the counter of model turns.
use cyber_companion.Base.{
  ◌+◌, ◌≡◌, refl, String, Bool, false, not, ◌&&◌, Option, none, some, List, [], ◌∷◌, arith,
  if◌then◌else◌, eq_iff, or_default,
}
use cyber_companion.Base.Text.{Text, text_lt}
use cyber_companion.Base.Dict.{Dict, get}
use cyber_companion.Base.Float.{Float}
use cyber_companion.Records.{Json, bool, str}
use cyber_companion.Store.Messages.{
  MessageTable, create_message, called_llm, assistant_since, count_llm_turns_since,
}
use cyber_companion.Store.ChatPersistence.{
  ChatCompletionResult, ChatMessageSchema, TurnLabels, assistant_metadata, persist_user_messages,
  persist_chat_turn,
}

module _ (fl : Float) where
  -- A flag left out counts as no model turn.
  abbrev pub flagged : TurnLabels fl → Bool
  flagged labels = or_default labels.should_call_llm false

  abbrev wrapped : Option Bool → Option (Json fl)
  wrapped none = none
  wrapped (some b) = some (bool b)

  user_not_counted :
      (since : Text) (role : String) (content now : Text) (t : MessageTable fl)
      (metadata : Dict (Json fl))
      → role ≡ "user"
      → count_llm_turns_since fl since (create_message fl role content "chat" metadata now t).1
        ≡ count_llm_turns_since fl since t
  unfolding count_llm_turns_since create_message assistant_since
  user_not_counted since role content now t metadata h = rw h

  users_not_counted :
      (since : Text) (ms : List (ChatMessageSchema fl)) (now : Text) (t : MessageTable fl)
      → count_llm_turns_since fl since (persist_user_messages fl ms now t).1
        ≡ count_llm_turns_since fl since t
  unfolding persist_user_messages
  users_not_counted since [] now t = refl
  users_not_counted since (m ∷ ms) now t =
      let metadata : Dict (Json fl) = ("phase", str "user_turn") ∷ [] in
      let t' = (create_message fl m.role m.content "chat" metadata now t).1 in
      ground (
        arith,
        eq_iff m.role "user",
        user_not_counted since m.role m.content now t metadata,
        users_not_counted since ms now t,
        users_not_counted since ms now t',
      )

  label_read :
      (result : ChatCompletionResult fl) (decision avatar_state translation : Option String)
      (flag : Option Bool)
      → get "should_call_llm" (
          assistant_metadata fl result (record {
            decision = decision;
            avatar_state = avatar_state;
            should_call_llm = flag;
            translation = translation;
          }))
        ≡ wrapped flag
  unfolding assistant_metadata get
  label_read result none none none none = refl
  label_read result none none none (some b) = refl
  label_read result none none (some t) none = refl
  label_read result none none (some t) (some b) = refl
  label_read result none (some a) none none = refl
  label_read result none (some a) none (some b) = refl
  label_read result none (some a) (some t) none = refl
  label_read result none (some a) (some t) (some b) = refl
  label_read result (some d) none none none = refl
  label_read result (some d) none none (some b) = refl
  label_read result (some d) none (some t) none = refl
  label_read result (some d) none (some t) (some b) = refl
  label_read result (some d) (some a) none none = refl
  label_read result (some d) (some a) none (some b) = refl
  label_read result (some d) (some a) (some t) none = refl
  label_read result (some d) (some a) (some t) (some b) = refl

  assistant_counted :
      (since : Text) (content now : Text) (t : MessageTable fl) (metadata : Dict (Json fl))
      (flag : Option Bool)
      → get "should_call_llm" metadata ≡ wrapped flag
      → count_llm_turns_since fl since
          (create_message fl "assistant" content "chat" metadata now t).1
        ≡ (if not (text_lt now since) && or_default flag false then 1 else 0)
          + count_llm_turns_since fl since t
  unfolding count_llm_turns_since create_message assistant_since called_llm
  assistant_counted since content now t metadata none h = ground arith
  assistant_counted since content now t metadata (some b) h = ground arith

  -- Persisting a turn, whatever the request holds: the count of model turns since a time grows by
  -- one if the turn is flagged as a model turn and is not stamped before that time, and stays
  -- otherwise.
  pub count-persist_chat_turn :
      (request : List (ChatMessageSchema fl)) (result : ChatCompletionResult fl)
      (labels : TurnLabels fl) (since now : Text) (t : MessageTable fl)
      → count_llm_turns_since fl since (persist_chat_turn fl request result labels now t).1
        ≡ (if not (text_lt now since) && flagged labels then 1 else 0)
          + count_llm_turns_since fl since t
  unfolding persist_chat_turn
  count-persist_chat_turn request result labels since now t =
      rw (← users_not_counted since request now t) (
        assistant_counted since result.content now (persist_user_messages fl request now t).1
          (assistant_metadata fl result labels) labels.should_call_llm
          (label_read result labels.decision labels.avatar_state labels.translation
            labels.should_call_llm))
