-- ===== src/Store/Summary.antt =====
-- backend/app/memory/summary_policy.py, and the conversation summaries of _store_records.py: the
-- rolling recap of the chat that lies before the raw window.
pub mod Ranges
use cyber_companion.Base.{
  ℕ, ◌+◌, String, Bool, true, false, not, ◌&&◌, ◌||◌, Option, none, some, List, [], ◌∷◌, ◌++◌, map,
  leb, ltb, ◌==◌, length, take, str_eq, if◌then◌else◌, ◌>>=◌,
}
use cyber_companion.Base.Text.{Text, codes, strip, text_in, text_lt}
use cyber_companion.Base.Float.{Float}
use cyber_companion.Store.Budget.{BudgetConfig}
use cyber_companion.Store.Tokens.{Lexer, tokenize}
use cyber_companion.Store.Messages.{
  MessageRecord, MessageTable, count_chat_messages, get_recent_chat_window_lower_bound_id,
  list_chat_messages_between,
}

-- database.py, with the ids that the table gives in the order of insertion.
pub record ConversationSummaryRecord : Type 0 where
  pub id : ℕ
  pub created_at : Text
  pub range_start_message_id : ℕ
  pub range_end_message_id : ℕ
  pub summary : Text
  pub keywords : List Text

-- The rows of conversation_summaries, newest first.
pub record SummaryTable : Type 0 where
  pub rows : List ConversationSummaryRecord
  pub last_id : ℕ

-- `ORDER BY range_end_message_id DESC, id DESC LIMIT 1`: is the first row the later one?
pub later : ConversationSummaryRecord → ConversationSummaryRecord → Bool
later a b =
    ltb b.range_end_message_id a.range_end_message_id
    || (b.range_end_message_id == a.range_end_message_id && ltb b.id a.id)

pub pick : ConversationSummaryRecord → Option ConversationSummaryRecord → ConversationSummaryRecord
unfolding later
pick s none = s
pick s (some best) = if later best s then best else s

pub latest : List ConversationSummaryRecord → Option ConversationSummaryRecord
unfolding pick
latest [] = none
latest (s ∷ rest) = some (pick s (latest rest))

unfoldable pub get_latest_conversation_summary : SummaryTable → Option ConversationSummaryRecord
get_latest_conversation_summary t = latest t.rows

unfoldable pub create_conversation_summary :
    ℕ → ℕ → Text → List Text → Text → SummaryTable → SummaryTable
create_conversation_summary range_start range_end summary keywords now t =
    let saved : ConversationSummaryRecord = record {
      id = t.last_id + 1;
      created_at = now;
      range_start_message_id = range_start;
      range_end_message_id = range_end;
      summary = summary;
      keywords = keywords;
    } in
    record { rows = saved ∷ t.rows; last_id = t.last_id + 1 }

-- A newline becomes a space.
spaced : Text → Text
spaced [] = []
spaced (c ∷ s) = (if c == 10 then 32 else c) ∷ spaced s

clipped : Text → Text
unfolding spaced strip
clipped content =
    let text = spaced (strip content) in
    if ltb 120 (length text) then take 117 text ++ codes "..." else text

join : Text → List Text → Text
join sep [] = []
join sep (s ∷ []) = s
join sep (s ∷ t ∷ rest) = s ++ (sep ++ join sep (t ∷ rest))

-- A sorted list without repetitions, for `sorted` of a set.
insert : Text → List Text → List Text
insert t [] = t ∷ []
insert t (u ∷ us) =
    let rest = insert t us in
    if text_lt t u then t ∷ u ∷ us else if text_lt u t then u ∷ rest else u ∷ us

sorted_set : List Text → List Text
unfolding insert
sorted_set [] = []
sorted_set (t ∷ ts) = insert t (sorted_set ts)

module _ (fl : Float) (lexer : Lexer) where
  snippet : MessageRecord fl → Text
  unfolding clipped
  snippet m = codes m.role ++ (codes ": " ++ clipped m.content)

  all_tokens : List (MessageRecord fl) → List Text
  all_tokens [] = []
  all_tokens (m ∷ ms) = tokenize lexer m.content ++ all_tokens ms

  unfoldable pub build_rule_based_summary : List (MessageRecord fl) → Text × List Text
  unfolding snippet all_tokens join sorted_set
  build_rule_based_summary messages = (
    codes "Earlier conversation recap: " ++ join (codes " | ") (map snippet messages),
    take 12 (sorted_set (all_tokens messages)),
  )

  pub first_id : List (MessageRecord fl) → Option ℕ
  first_id [] = none
  first_id (m ∷ ms) = some m.id

  pub final_id : List (MessageRecord fl) → Option ℕ
  final_id [] = none
  final_id (m ∷ []) = some m.id
  final_id (m ∷ n ∷ ms) = final_id (n ∷ ms)

  pub covered_until : SummaryTable → ℕ
  unfolding get_latest_conversation_summary
  covered_until t = elim (get_latest_conversation_summary t) [
    | none ↦ 0
    | some s ↦ s.range_end_message_id
  ]

  -- The batch is written; `none` is the IndexError of `batch[0]`.
  pub summarise : List (MessageRecord fl) → Text → SummaryTable → Option (Bool × SummaryTable)
  unfolding first_id final_id
  summarise batch now t = do
    first ← first_id batch
    final ← final_id batch
    let (text, keywords) = build_rule_based_summary batch
    some (true, create_conversation_summary first final text keywords now t)

  -- What follows once the raw window has a lower bound.
  pub summarise_below :
      BudgetConfig fl
      → Option ℕ
      → MessageTable fl
      → Text
      → SummaryTable
      → Option (Bool × SummaryTable)
  summarise_below config none messages now t = some (false, t)
  summarise_below config (some bound) messages now t =
      let older =
        list_chat_messages_between fl (covered_until t) bound config.summary_batch_size messages in
      if ltb (length older) config.summary_batch_size
      then some (false, t)
      else summarise older now t

  pub maybe_update_conversation_summary :
      BudgetConfig fl → MessageTable fl → Text → SummaryTable → Option (Bool × SummaryTable)
  maybe_update_conversation_summary config messages now t =
      if config.llm_summary
      then some (false, t)
      else if leb (count_chat_messages fl messages) (config.max_raw_turns + 1)
      then some (false, t)
      else summarise_below config
          (get_recent_chat_window_lower_bound_id fl config.max_raw_turns messages) messages now t
