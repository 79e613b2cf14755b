-- ===== src/Store/WritePolicy.antt =====
-- backend/app/memory/write_policy.py: which memories a turn leaves. `str` and `float` are parameters;
-- a result `none` is an exception.
pub mod Growth
use cyber_companion.Base.{
  ℕ, ◌+◌, ◌*◌, ◌/◌, max, min, String, Bool, true, false, not, ◌&&◌, ◌||◌, Option, none, some, List,
  [], ◌∷◌, map, keep, take, length, leb, str_in, if◌then◌else◌, ◌>>=◌,
}
use cyber_companion.Base.Text.{Text, codes, strip, is_empty, text_in, contains}
use cyber_companion.Base.Dict.{put}
use cyber_companion.Base.Float.{Float, clamp01, max_f}
use cyber_companion.Records.{
  Json, null, bool, int, float, str, arr, obj, Items, nil, cons, Fields, end, field, MemoryRecord,
}
use cyber_companion.Store.Budget.{BudgetConfig}
use cyber_companion.Store.Tokens.{Lexer, tokenize}
use cyber_companion.Store.Retrieval.{distinct}
use cyber_companion.Store.Memories.{
  memory_types, MemoryDb, NewMemory, create_memory, list_memories, MemoryUpdate, update_memory,
}
use cyber_companion.Store.Candidates.{
  Patterns, clip_content, MemoryWriteCandidate, min_write_confidence, extract_memory_candidates,
}
use cyber_companion.Behavior.Rules.{Tools}
use cyber_companion.Behavior.Signals.{Converted, number, unreadable, raised, get_field}

-- `datetime('now')` and `utc_now_iso()` at the time of the turn.
pub record Now : Type 0 where
  pub sql : Text
  pub iso : Text

-- The members of a set that are members of another.
unfoldable pub overlap : List Text → List Text → List Text
unfolding text_in
overlap left right = keep (λ t. text_in t right) left

unfoldable pub is_similar_content : Lexer → Text → Text → Bool
unfolding overlap strip is_empty contains distinct tokenize
is_similar_content lexer left right =
    let left_norm = lexer.lower (strip left) in
    let right_norm = lexer.lower (strip right) in
    let inside =
      if leb (length left_norm) (length right_norm)
      then contains right_norm left_norm
      else contains left_norm right_norm in
    let left_tokens = distinct (tokenize lexer left) in
    let right_tokens = distinct (tokenize lexer right) in
    let smaller = min (length left_tokens) (length right_tokens) in
    let shared = leb (max 2 ((smaller * 2 + 2) / 3)) (length (overlap left_tokens right_tokens)) in
    not (is_empty left_norm || is_empty right_norm)
    && (inside || (leb 1 (length left_tokens) && leb 1 (length right_tokens) && shared))

module _ (fl : Float) where
  open fl use {F, dec, lt}

  find_similar : Lexer → Text → List (MemoryRecord fl) → Option (MemoryRecord fl)
  unfolding is_similar_content
  find_similar lexer content [] = none
  find_similar lexer content (m ∷ ms) =
      let later = find_similar lexer content ms in
      if is_similar_content lexer m.content content then some m else later

  -- What `create_memory` returned.
  new_written :
      Option (MemoryRecord fl × MemoryDb fl) → Option (Option (MemoryRecord fl) × MemoryDb fl)
  new_written none = none
  new_written (some (saved, db)) = some (some saved, db)

  -- A new memory, or an update of a similar one. The outer `none` is an exception.
  unfoldable pub persist_found :
      Option (MemoryRecord fl)
      → MemoryWriteCandidate fl
      → Option ℕ
      → String
      → Now
      → MemoryDb fl
      → Option (Option (MemoryRecord fl) × MemoryDb fl)
  unfolding new_written
  persist_found none candidate source_message_id writer now db = new_written (
      create_memory fl
        (record {
          type = candidate.type;
          content = candidate.content;
          tags = candidate.tags;
          importance = candidate.importance;
          confidence = candidate.confidence;
          expires_at = none;
          source_message_id = source_message_id;
          metadata = ("writer", str writer) ∷ [];
        })
        now.sql db)
  persist_found (some existing) candidate source_message_id writer now db = some (
      update_memory fl existing.id
        (record {
          content = some candidate.content;
          tags = some candidate.tags;
          importance = some (max_f fl existing.importance candidate.importance);
          confidence = some (max_f fl existing.confidence candidate.confidence);
          expires_at = none;
          metadata =
              some
                (put "updated_from_turn" (bool true) (put "writer" (str writer) existing.metadata));
        })
        now.iso db)

  -- What follows once the memories of the type are listed.
  persist_listed :
      Option (List (MemoryRecord fl))
      → Lexer
      → MemoryWriteCandidate fl
      → Option ℕ
      → String
      → Now
      → MemoryDb fl
      → Option (Option (MemoryRecord fl) × MemoryDb fl)
  unfolding find_similar
  persist_listed none lexer candidate source_message_id writer now db = none
  persist_listed (some listed) lexer candidate source_message_id writer now db =
      persist_found (find_similar lexer candidate.content listed) candidate source_message_id writer
        now db

  unfoldable pub persist_candidate :
      Lexer
      → MemoryWriteCandidate fl
      → Option ℕ
      → String
      → Now
      → MemoryDb fl
      → Option (Option (MemoryRecord fl) × MemoryDb fl)
  unfolding persist_listed
  persist_candidate lexer candidate source_message_id writer now db =
      persist_listed (list_memories fl (some candidate.type) 50 db) lexer candidate
        source_message_id writer now db

  -- What was written and the table; `none` where an exception ended the loop, after its writes.
  abbrev pub Written : Type 0
  Written = Option (List (Option (MemoryRecord fl))) × MemoryDb fl

  written_more : Option (MemoryRecord fl) → Written → Written
  written_more m (none, db) = (none, db)
  written_more m (some ms, db) = (some (m ∷ ms), db)

  -- One step of a loop, and the rest of it from the table that the step left.
  unfoldable pub and_then :
      Option (Option (MemoryRecord fl) × MemoryDb fl)
      → MemoryDb fl
      → (MemoryDb fl → Written)
      → Written
  unfolding written_more
  and_then none db rest = (none, db)
  and_then (some (m, db')) db rest = written_more m (rest db')

  unfoldable pub persist_all :
      Lexer → List (MemoryWriteCandidate fl) → Option ℕ → String → Now → MemoryDb fl → Written
  unfolding and_then
  persist_all lexer [] source_message_id writer now db = (some [], db)
  persist_all lexer (c ∷ cs) source_message_id writer now db =
      and_then (persist_candidate lexer c source_message_id writer now db) db
        (λ db'. persist_all lexer cs source_message_id writer now db')

  unfoldable pub maybe_write_memories_from_turn :
      Tools → Patterns → BudgetConfig fl → Text → Option ℕ → Now → MemoryDb fl → Written
  maybe_write_memories_from_turn tools patterns config user_input source_message_id now db =
      if config.auto_memory_write
      then persist_all tools.lexer (extract_memory_candidates fl tools patterns user_input)
          source_message_id "rule_based" now db
      else (some [], db)

  -- The list of a JSON array.
  abbrev pub items : Items fl → List (Json fl)
  items nil = []
  items (cons x xs) = x ∷ items xs

  module _ (to_float : Json fl → Converted F) (to_str : Json fl → Text) where
    converted_or : F → Converted F → Option F
    converted_or default (number v) = some v
    converted_or default unreadable = some default
    converted_or default raised = none

    -- `_as_float(value, default)`; `none` is an exception that it lets through.
    unfoldable pub as_float_or : F → Option (Json fl) → Option F
    unfolding converted_or
    as_float_or default none = some default
    as_float_or default (some null) = some default
    as_float_or default (some value) = converted_or default (to_float value)

    -- A type of MEMORY_TYPES.
    known_type : Option (Json fl) → Option String
    known_type (some (str t)) = if str_in t memory_types then some t else none
    known_type _ = none

    -- `str(raw.get("content", ""))`
    content_text : Option (Json fl) → Text
    content_text none = []
    content_text (some value) = to_str value

    string_tags : List (Json fl) → List Text
    string_tags [] = []
    string_tags (str t ∷ rest) = codes t ∷ string_tags rest
    string_tags (_ ∷ rest) = string_tags rest

    tags_of : Option (Json fl) → List Text
    unfolding string_tags
    tags_of (some (arr xs)) = take 6 (string_tags (items xs))
    tags_of _ = []

    -- The outer `none` is an exception.
    unfoldable pub validate_fields :
        Fields fl → Option String → Option (Option (MemoryWriteCandidate fl))
    unfolding as_float_or content_text tags_of clip_content get_field
    validate_fields raw none = some none
    validate_fields raw (some mem_type) =
        let content = clip_content (content_text (get_field fl to_float "content" raw)) 200 in
        let rated : Option (Option (MemoryWriteCandidate fl)) = do
          importance ← as_float_or (dec 5 1) (get_field fl to_float "importance" raw)
          confidence ← as_float_or (dec 5 1) (get_field fl to_float "confidence" raw)
          some (
              some (record {
                type = mem_type;
                content = content;
                importance = clamp01 fl importance;
                confidence = clamp01 fl confidence;
                tags = tags_of (get_field fl to_float "tags" raw);
              }))
        in if leb 4 (length content) then rated else some none

    unfoldable pub validate_signal_memory : Json fl → Option (Option (MemoryWriteCandidate fl))
    unfolding validate_fields known_type get_field
    validate_signal_memory (obj raw) =
        validate_fields raw (known_type (get_field fl to_float "type" raw))
    validate_signal_memory _ = some none

    -- What the loop does with a validated memory: nothing, if there is none, or if it is not sure
    -- enough.
    one_signal :
        Option (Option (MemoryWriteCandidate fl))
        → Lexer
        → Option ℕ
        → Now
        → MemoryDb fl
        → (MemoryDb fl → Written)
        → Written
    unfolding and_then
    one_signal none lexer source_message_id now db rest = (none, db)
    one_signal (some none) lexer source_message_id now db rest = rest db
    one_signal (some (some c)) lexer source_message_id now db rest =
        if lt c.confidence (min_write_confidence fl)
        then rest db
        else and_then (persist_candidate lexer c source_message_id "llm" now db) db rest

    -- The loop over the memories of the signals.
    unfoldable pub write_signals : Lexer → List (Json fl) → Option ℕ → Now → MemoryDb fl → Written
    unfolding one_signal
    write_signals lexer [] source_message_id now db = (some [], db)
    write_signals lexer (raw ∷ raws) source_message_id now db =
        one_signal (validate_signal_memory raw) lexer source_message_id now db
          (λ db'. write_signals lexer raws source_message_id now db')

    unfoldable pub write_memories_from_signals :
        Lexer → BudgetConfig fl → List (Json fl) → Option ℕ → Now → MemoryDb fl → Written
    write_memories_from_signals lexer config signal_memories source_message_id now db =
        if config.auto_memory_write
        then write_signals lexer (take 5 signal_memories) source_message_id now db
        else (some [], db)

    -- `signals.get("memory")` of signals that are a dict, where it is a list.
    signal_items : Option (Json fl) → List (Json fl)
    unfolding get_field
    signal_items (some (obj fields)) = elim (get_field fl to_float "memory" fields) [
      | some (arr xs) ↦ items xs
      | _ ↦ []
    ]
    signal_items _ = []

    -- Where the signals wrote nothing, the text is read as well.
    or_from_text : Written → (MemoryDb fl → Written) → Written
    or_from_text (none, db) otherwise = (none, db)
    or_from_text (some [], db) otherwise = otherwise db
    or_from_text (some (m ∷ ms), db) otherwise = (some (m ∷ ms), db)

    unfoldable pub record_turn_memories :
        Tools
        → Patterns
        → BudgetConfig fl
        → Text
        → Option (Json fl)
        → Option ℕ
        → Now
        → MemoryDb fl
        → Written
    unfolding or_from_text signal_items
    record_turn_memories tools patterns config user_input signals source_message_id now db =
        let from_text =
          maybe_write_memories_from_turn tools patterns config user_input source_message_id now in
        if not config.auto_memory_write
        then (some [], db)
        else if config.llm_memory_extraction && leb 1 (length (signal_items signals))
        then or_from_text
            (write_memories_from_signals tools.lexer config (signal_items signals) source_message_id
              now db)
            from_text
        else from_text db
