-- ===== src/Store/Messages.antt =====
-- backend/app/memory/_store_messages.py: the message log and its counts. The table is kept with its
-- newest row first, so `ORDER BY id DESC` is the list as it stands. Ids come from AUTOINCREMENT.
pub mod Order
pub mod Prune
use cyber_companion.Base.{
  ℕ, zero, suc, ◌+◌, ◌-◌, String, Bool, true, false, not, ◌&&◌, ◌||◌, Option, none, some, List, [],
  ◌∷◌, map, reverse, length, take, keep, any, leb, ltb, ◌==◌, str_eq, if◌then◌else◌,
}
use cyber_companion.Base.Text.{Text, text_lt}
use cyber_companion.Base.Dict.{Dict, get}
use cyber_companion.Base.Float.{Float}
use cyber_companion.Records.{Json, null, bool, int, float, str, arr, obj}

module _ (fl : Float) where
  open fl use {F, dec, plus, round}

  -- database.py; the metadata column holds a JSON object.
  pub record MessageRecord : Type 0 where
    pub id : ℕ
    pub created_at : Text
    pub role : String
    pub content : Text
    pub source : String
    pub metadata : Dict (Json fl)

  pub record MessageTable : Type 0 where
    pub rows : List MessageRecord
    pub last_id : ℕ

  abbrev pub is_chat : MessageRecord → Bool
  is_chat m = str_eq m.source "chat"

  abbrev pub is_tick : MessageRecord → Bool
  is_tick m = str_eq m.source "behavior_tick"

  -- `datetime('now')` is the argument `now`.
  unfoldable pub create_message :
      String → Text → String → Dict (Json fl) → Text → MessageTable → MessageRecord × MessageTable
  create_message role content source metadata now t =
      let saved : MessageRecord = record {
        id = t.last_id + 1;
        created_at = now;
        role = role;
        content = content;
        source = source;
        metadata = metadata;
      } in
      (saved, record { rows = saved ∷ t.rows; last_id = t.last_id + 1 })

  -- A limit is not negative: SQLite reads a negative one as no limit.
  unfoldable pub list_messages : ℕ → MessageTable → List MessageRecord
  list_messages limit t = reverse (take limit t.rows)

  unfoldable pub count_messages : MessageTable → ℕ
  count_messages t = length t.rows

  unfoldable pub count_chat_messages : MessageTable → ℕ
  count_chat_messages t = length (keep is_chat t.rows)

  unfoldable pub list_recent_chat_messages : ℕ → MessageTable → List MessageRecord
  list_recent_chat_messages limit t = reverse (take limit (keep is_chat t.rows))

  abbrev pub is_between : ℕ → ℕ → MessageRecord → Bool
  is_between after_id before_id m = is_chat m && ltb after_id m.id && ltb m.id before_id

  unfoldable pub list_chat_messages_between : ℕ → ℕ → ℕ → MessageTable → List MessageRecord
  list_chat_messages_between after_id before_id limit t =
      take limit (reverse (keep (is_between after_id before_id) t.rows))

  abbrev pub id_in : ℕ → List MessageRecord → Bool
  id_in i ms = any (λ m. m.id == i) ms

  -- `DELETE ... WHERE source = 'behavior_tick' AND id NOT IN (the newest ticks)`, and the row count.
  unfoldable pub prune_behavior_tick_messages : ℕ → MessageTable → ℕ × MessageTable
  prune_behavior_tick_messages zero t = (0, t)
  prune_behavior_tick_messages (suc k) t =
      let newest = take (suc k) (keep is_tick t.rows) in
      let left = keep (λ m. not (is_tick m && not (id_in m.id newest))) t.rows in
      (length t.rows - length left, record t { rows = left })

  abbrev pub nth_id : List MessageRecord → ℕ → Option ℕ
  nth_id [] n = none
  nth_id (m ∷ ms) zero = some m.id
  nth_id (m ∷ ms) (suc n) = nth_id ms n

  unfoldable pub get_recent_chat_window_lower_bound_id : ℕ → MessageTable → Option ℕ
  get_recent_chat_window_lower_bound_id zero t = none
  get_recent_chat_window_lower_bound_id (suc n) t = nth_id (keep is_chat t.rows) n

  -- `created_at >= since` compares the texts.
  unfoldable pub assistant_since : Text → MessageRecord → Bool
  assistant_since since m = str_eq m.role "assistant" && not (text_lt m.created_at since)

  -- `metadata.get("should_call_llm") is True`
  is_true : Option (Json fl) → Bool
  is_true (some (bool b)) = b
  is_true _ = false

  unfoldable pub called_llm : MessageRecord → Bool
  unfolding is_true
  called_llm m = is_true (get "should_call_llm" m.metadata)

  unfoldable pub count_llm_turns_since : Text → MessageTable → ℕ
  count_llm_turns_since since t = length (keep called_llm (keep (assistant_since since) t.rows))

  unfoldable pub max_id : List MessageRecord → ℕ
  max_id [] = 0
  max_id (m ∷ ms) = let rest = max_id ms in if ltb rest m.id then m.id else rest

  unfoldable pub get_max_chat_message_id : MessageTable → ℕ
  unfolding max_id
  get_max_chat_message_id t = max_id (keep is_chat t.rows)
