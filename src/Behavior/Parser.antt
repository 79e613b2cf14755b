-- ===== src/Behavior/Parser.antt =====
-- backend/app/behavior/parser.py: what of a model's reply is shown, and what is read as signals. The
-- class `\w` of the regular expressions, `json.loads` and `str` are parameters. `>` is no word
-- character, so the greedy `\w+` of the sentinel never gives a character back.
pub mod Stream
pub mod Chunks
use cyber_companion.Base.{
  ℕ, zero, suc, ◌+◌, ◌-◌, String, Bool, true, false, not, ◌&&◌, ◌||◌, Option, none, some, List, [],
  ◌∷◌, ◌++◌, leb, ltb, ◌==◌, length, take, drop, str_eq, if◌then◌else◌, is_some,
}
use cyber_companion.Base.Text.{Text, codes, strip, rstrip, starts_with, find, is_empty, join}
use cyber_companion.Base.Float.{Float}
use cyber_companion.Records.{Json, str, obj, Fields, end, field}

-- The start and the end that every sentinel has.
abbrev pub sentinel_head : Text
sentinel_head = codes "<<<BOXI_"

abbrev pub sentinel_tail : Text
sentinel_tail = codes ">>>"

abbrev pub signals_sentinel : Text
signals_sentinel = codes "<<<BOXI_SIGNALS>>>"

abbrev pub leaked_reminder_marker : Text
leaked_reminder_marker = codes "（系统提醒："

abbrev pub put_before : ℕ → Option (Text × Text) → Option (Text × Text)
put_before c none = none
put_before c (some (before, after)) = some (c ∷ before, after)

-- A match at the head of a text, or the first one after it.
abbrev pub or_later : Option Text → Option (Text × Text) → Option (Text × Text)
or_later none later = later
or_later (some after) later = some ([], after)

module _ (is_word : ℕ → Bool) where
  -- `\w+>>>` after `n` word characters, and what follows it.
  unfoldable pub closes : ℕ → Text → Option Text
  unfolding starts_with
  closes n [] = none
  closes n (c ∷ s) =
      let later = closes (suc n) s in
      if is_word c
      then later
      else if leb 1 n && starts_with (c ∷ s) sentinel_tail
      then some (drop 3 (c ∷ s))
      else none

  -- SIGNALS_SENTINEL_PATTERN at the head of a text.
  unfoldable pub sentinel_here : Text → Option Text
  unfolding closes starts_with
  sentinel_here s =
      let after = closes 0 (drop 8 s) in if starts_with s sentinel_head then after else none

  -- Its first match: what stands before and after it.
  unfoldable pub split_sentinel : Text → Option (Text × Text)
  split_sentinel [] = none
  split_sentinel (c ∷ s) = or_later (sentinel_here (c ∷ s)) (put_before c (split_sentinel s))

-- `content[:idx].rstrip()`, with the index that `find` gives.
unfoldable pub cut_at : Text → Option ℕ → Text
unfolding rstrip
cut_at content none = content
cut_at content (some idx) = rstrip (take idx content)

unfoldable pub strip_leaked_provider_reminder : Text → Text
unfolding cut_at find
strip_leaked_provider_reminder content = cut_at content (find content leaked_reminder_marker)

-- `s.rfind(t)`, for a `t` that is not empty.
unfoldable pub rfind : Text → Text → Option ℕ
unfolding starts_with
rfind [] t = none
rfind (c ∷ s) t =
    let later = rfind s t in
    elim later [ some i ↦ some (suc i) | none ↦ if starts_with (c ∷ s) t then some 0 else none ]

unfoldable pub strip_trailing_sentinel_fragment : Text → Text
unfolding cut_at rfind
strip_trailing_sentinel_fragment text = cut_at text (rfind text sentinel_head)

-- SignalStreamFilter
pub record StreamFilter : Type 0 where
  pub buf : Text
  pub done : Bool

abbrev pub fresh_filter : StreamFilter
fresh_filter = record { buf = []; done = false }

abbrev pub held : Text → StreamFilter
held buf = record { buf = buf; done = false }

-- The text that is let out, up to a leaked reminder, which ends the stream.
unfoldable pub let_out : Text → Text → Option ℕ → Text × StreamFilter
unfolding rstrip
let_out out kept none = (out, held kept)
let_out out kept (some leak_idx) = (rstrip (take leak_idx out), record { buf = kept; done = true })

-- The branch without a complete sentinel: all but the last 18 characters are let out.
unfoldable pub release : Text → Text × StreamFilter
unfolding let_out
release buf =
    let out = take (length buf - 18) buf in
    let kept = drop (length buf - 18) buf in
    if ltb 18 (length buf)
    then let_out out kept (find out leaked_reminder_marker)
    else ([], held buf)

unfoldable pub fed : Text → Option (Text × Text) → Text × StreamFilter
unfolding release strip_leaked_provider_reminder
fed buf none = release buf
fed buf (some (before, after)) =
    (strip_leaked_provider_reminder before, record { buf = []; done = true })

unfoldable pub feed : (ℕ → Bool) → Text → StreamFilter → Text × StreamFilter
unfolding fed split_sentinel
feed is_word chunk f =
    if f.done then ([], f) else fed (f.buf ++ chunk) (split_sentinel is_word (f.buf ++ chunk))

unfoldable pub flush : StreamFilter → Text
unfolding strip_leaked_provider_reminder strip_trailing_sentinel_fragment
flush f =
    if f.done then [] else strip_leaked_provider_reminder (strip_trailing_sentinel_fragment f.buf)

-- What a caller shows of a stream: the output of every chunk, then that of the flush.
unfoldable pub shown : (ℕ → Bool) → StreamFilter → List Text → Text
shown is_word f [] = flush f
shown is_word f (c ∷ cs) = let r = feed is_word c f in r.0 ++ shown is_word r.1 cs

unfoldable pub finalize_visible_content : Text → Text
unfolding strip_leaked_provider_reminder strip
finalize_visible_content content = strip_leaked_provider_reminder (strip content)

-- The text up to the last `}`, if there is one.
up_to_brace : Text → Option Text
up_to_brace [] = none
up_to_brace (c ∷ s) =
    let later = up_to_brace s in
    elim later [ some t ↦ some (c ∷ t) | none ↦ if c == 125 then some (c ∷ []) else none ]

-- JSON_BLOCK_PATTERN: what stands before the first match, and the match. From a first `{` without a
-- `}` after it no later `{` has one.
unfoldable pub json_block : Text → Option (Text × Text)
unfolding up_to_brace
json_block [] = none
json_block (c ∷ s) =
    let block = up_to_brace s in
    let later = put_before c (json_block s) in
    if c == 123 then elim block [ none ↦ none | some t ↦ some ([], c ∷ t) ] else later

last_is : ℕ → Text → Bool
last_is c [] = false
last_is c (d ∷ []) = c == d
last_is c (d ∷ e ∷ s) = last_is c (e ∷ s)

module _ (fl : Float) where
  -- The labels are texts here: a label of another JSON type is left out.
  pub record StructuredAssistantResponse : Type 0 where
    pub content : Text
    pub avatar_state : Option String
    pub decision : Option String
    pub signals : Option (Json fl)

  abbrev pub plain : Text → StructuredAssistantResponse
  plain content = record { content = content; avatar_state = none; decision = none; signals = none }

  module _ (is_word : ℕ → Bool) (loads : Text → Option (Json fl)) (to_str : Json fl → Text) where
    field_of : String → Fields fl → Option (Json fl)
    field_of key end = none
    field_of key (field k v rest) =
        let later = field_of key rest in if str_eq k key then some v else later

    label : String → Fields fl → Option String
    unfolding field_of
    label key payload = elim (field_of key payload) [ some (str t) ↦ some t | _ ↦ none ]

    -- `isinstance(payload, dict)`
    fields_of : Option (Json fl) → Option (Fields fl)
    fields_of (some (obj payload)) = some payload
    fields_of _ = none

    parse_sentinel_trailer : Text → Option (Fields fl)
    unfolding fields_of json_block
    parse_sentinel_trailer trailer = elim (json_block trailer) [
      | none ↦ none
      | some (before, block) ↦ fields_of (loads block)
    ]

    with_trailer : Text → Option (Fields fl) → StructuredAssistantResponse
    unfolding label
    with_trailer content none = plain content
    with_trailer content (some payload) = record {
      content = content;
      avatar_state = label "avatar_state" payload;
      decision = label "decision" payload;
      signals = some (obj payload);
    }

    -- The reply of a JSON object that has a content, after a prefix.
    from_object : Text → Option (Fields fl) → Option StructuredAssistantResponse
    unfolding label field_of finalize_visible_content strip is_empty join
    from_object prefix none = none
    from_object prefix (some payload) = elim (field_of "content" payload) [
      | none ↦ none
      | some value ↦
          let content = to_str value in
          let whole =
            if is_empty prefix then content else strip (prefix ++ (codes "\n" ++ content)) in
          some (record {
            content = finalize_visible_content whole;
            avatar_state = label "avatar_state" payload;
            decision = label "decision" payload;
            signals = none;
          })
    ]

    -- A reply that is one JSON object.
    as_object_reply : Text → Option StructuredAssistantResponse
    unfolding from_object last_is fields_of starts_with
    as_object_reply stripped =
        if starts_with stripped (codes "{") && last_is 125 stripped
        then from_object [] (fields_of (loads stripped))
        else none

    -- A reply with a JSON object in it.
    as_block_reply : Text → Option StructuredAssistantResponse
    unfolding from_object fields_of json_block strip
    as_block_reply stripped = elim (json_block stripped) [
      | none ↦ none
      | some (before, block) ↦ from_object (strip before) (fields_of (loads block))
    ]

    first_reply :
        Option StructuredAssistantResponse
        → Option StructuredAssistantResponse
        → StructuredAssistantResponse
        → StructuredAssistantResponse
    first_reply (some r) second otherwise = r
    first_reply none (some r) otherwise = r
    first_reply none none otherwise = otherwise

    parsed_without_sentinel : Text → StructuredAssistantResponse
    unfolding first_reply as_object_reply as_block_reply finalize_visible_content
    parsed_without_sentinel stripped =
        first_reply (as_object_reply stripped) (as_block_reply stripped)
          (plain (finalize_visible_content stripped))

    unfoldable pub parse_structured_assistant_response : Text → StructuredAssistantResponse
    unfolding parsed_without_sentinel with_trailer parse_sentinel_trailer split_sentinel
        finalize_visible_content strip is_empty
    parse_structured_assistant_response raw_content =
        let stripped = strip raw_content in
        let parsed : StructuredAssistantResponse = elim (split_sentinel is_word raw_content) [
          | some (before, trailer) ↦
              with_trailer (finalize_visible_content (strip before))
                (parse_sentinel_trailer trailer)
          | none ↦ parsed_without_sentinel stripped
        ] in
        if is_empty stripped then plain [] else parsed
