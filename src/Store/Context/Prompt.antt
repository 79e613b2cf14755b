-- ===== src/Store/Context/Prompt.antt =====
-- backend/app/memory/context_builder.py: the messages of a turn, packed into the token budget. The
-- persona, the clock and the number formats come in as arguments.
use cyber_companion.Base.{
  ℕ, ◌+◌, ◌-◌, ◌*◌, max, String, Bool, true, false, ◌||◌, Option, none, some, List, [], ◌∷◌, ◌++◌,
  map, reverse, leb, ltb, ◌==◌, take, str_eq, if◌then◌else◌,
}
use cyber_companion.Base.Text.{Text, codes, strip, rstrip, join}
use cyber_companion.Base.Int.{ℤ}
use cyber_companion.Base.Float.{Float}
use cyber_companion.Records.{MemoryRecord}
use cyber_companion.Store.State.{KernelDb, get_mood_state}
use cyber_companion.Store.Budget.{BudgetConfig}
use cyber_companion.Store.Tokens.{Lexer}
use cyber_companion.Store.Messages.{
  MessageRecord, MessageTable, list_recent_chat_messages, count_chat_messages,
}
use cyber_companion.Store.Summary.{SummaryTable, get_latest_conversation_summary}
use cyber_companion.Store.Memories.{MemoryDb}
use cyber_companion.Store.Retrieval.{Stamp}
use cyber_companion.Store.Cost.{estimate_token_count, sum_tokens}
use cyber_companion.Store.Context.{select_memories}
use cyber_companion.Store.Context.Blocks.{
  Clock, format_time_block, format_mood_block, format_existential_block, format_relationship_block,
  format_impression_block, format_summary_block, format_memories_block, format_language_instruction,
}
use cyber_companion.Behavior.Types.{BehaviorDecision, decision_name}
use cyber_companion.Behavior.Rules.{behavior_tone_instruction}

-- persona.py
abbrev pub output_protocol : Text
output_protocol =
    codes
      "\n\n=== MANDATORY OUTPUT FORMAT (every reply, no exceptions) ===\nEnd EVERY reply with: your in-character reply, then a newline, then the exact marker\n<<<BOXI_SIGNALS>>>, then ONE single-line JSON. Never omit it, even if values are\nneutral/zero.\nExample:\n行吧，别演了。\n<<<BOXI_SIGNALS>>>\n{\"avatar_state\":\"annoyed\",\"decision\":\"reply\",\"appraisal\":{\"valence\":-0.2,\"arousal\":0.3,\"goal_relevance\":0.5,\"note\":\"...\"},\"relationship\":{\"trust\":0.0,\"closeness\":0.0,\"tension\":0.0},\"memory\":[{\"type\":\"job_progress\",\"content\":\"...\",\"importance\":0.6,\"confidence\":0.8,\"tags\":[]}]}\nKeys: avatar_state(idle/happy/sad/angry/sleepy/thinking/talking/worried/annoyed/silent),\ndecision, appraisal{valence -1..1, arousal 0..1, goal_relevance 0..1, note},\nrelationship{trust,closeness,tension deltas -0.1..0.1},\nmemory[{type,content,importance 0..1,confidence 0..1,tags}] — type MUST be one of:\nstable_profile, recent_event, emotion_state, project, job_progress, reminder,\nrelationship_state, behavior_preference. Put <<<BOXI_SIGNALS>>> nowhere else."

abbrev pub anti_fabrication_note : Text
anti_fabrication_note =
    codes
      "[Memory honesty]\n上面的 mood/relationship/memories/summary 是你目前能想起来的全部。如果用户提到的事不在其中，说明你真的不记得/没听他说过——直接承认不记得（用 Boxi 的口吻），不要编造细节、时间、地点或对话内容。"

abbrev pub truncation_suffix : Text
truncation_suffix = codes " …[truncated]"

abbrev pub trailer_reminder : Text
trailer_reminder = codes "\n\n（系统提醒：本轮回复必须在正文后另起一行输出 <<<BOXI_SIGNALS>>> 及其单行 JSON，不可省略。）"

-- A limit of 0 is no limit.
unfoldable pub truncate_user_input_for_provider : Text → ℕ → Text
unfolding estimate_token_count rstrip
truncate_user_input_for_provider user_input max_tokens =
    if max_tokens == 0 || leb (estimate_token_count user_input) max_tokens
    then user_input
    else rstrip (take (max_tokens * 3) user_input) ++ truncation_suffix

-- The loop from `used_tokens` on: what it still selects, and whether it stops early.
unfoldable pub pack_from : ℕ → ℕ → List Text → List Text × Bool
pack_from used_tokens max_input_tokens [] = ([], false)
pack_from used_tokens max_input_tokens (s ∷ ss) =
    let used = used_tokens + estimate_token_count s in
    let rest = pack_from used max_input_tokens ss in
    if ltb max_input_tokens used then ([], true) else (s ∷ rest.0, rest.1)

unfoldable pub pack_sections : List Text → ℕ → List Text × Bool
unfolding pack_from
pack_sections sections max_input_tokens = pack_from 0 max_input_tokens sections

abbrev pub optional {ℓ} : {A : Type ℓ} → Option A → List A
optional none = []
optional (some a) = a ∷ []

-- providers/types.py
pub record ChatMessage : Type 0 where
  pub role : String
  pub content : Text

abbrev pub contents : List ChatMessage → List Text
contents ms = map (λ m. m.content) ms

module _ (fl : Float) where
  open fl use {F}

  -- What the surroundings of a turn give: `load_persona_system_prompt()`, the switch of the persona
  -- file, the clock, `get_holiday_window(now.date())`, the time in UTC, the seconds since the slow
  -- baseline was stored, the age of a timestamp in days, and `f"{x:.2f}"`.
  pub record Surroundings : Type 0 where
    pub persona_system_prompt : Text
    pub disable_existential_block : Bool
    pub clock : Clock
    pub holidays : List (ℤ × String)
    pub now_iso : Text
    pub from_iso : Text → Stamp
    pub baseline_seconds : F
    pub age : Text → Option ℤ
    pub fixed2 : F → Text

  pub record BuiltContext : Type 0 where
    pub messages : List ChatMessage
    pub estimated_input_tokens : ℕ
    pub included_memory_ids : List ℕ
    pub included_message_ids : List ℕ
    pub summary_used : Option Text
    pub truncated : Bool
    pub total_stored_messages : ℕ

  tone_section : Option (BehaviorDecision fl) → List Text
  tone_section none = []
  tone_section (some b) =
      optional (elim (behavior_tone_instruction (decision_name b.decision) b.tone_mode) [
        | none ↦ none
        | some line ↦ some (codes line)
      ])

  -- The sections of the system message, before they are packed.
  unfoldable pub system_sections :
      Surroundings
      → KernelDb fl
      → SummaryTable
      → MemoryDb fl
      → Option (BehaviorDecision fl)
      → List (MemoryRecord fl)
      → List Text
  unfolding tone_section
  system_sections around kernel summaries memories behavior selected =
      (around.persona_system_prompt
        ∷ format_time_block around.clock around.holidays
        ∷ format_mood_block fl around.fixed2 (get_mood_state fl kernel)
        ∷ [])
      ++ ((if around.disable_existential_block
            then []
            else format_existential_block fl kernel.existential around.baseline_seconds ∷ [])
          ++ ((format_relationship_block fl around.fixed2 kernel.relationship ∷ [])
              ++ (optional (format_impression_block fl memories)
                  ++ (tone_section behavior
                      ++ (optional
                            (format_summary_block (get_latest_conversation_summary summaries))
                          ++ (format_memories_block fl around.age selected
                              ∷ anti_fabrication_note
                              ∷ []))))))

  -- `f"{message.role}: {message.content}"`
  spoken : MessageRecord fl → Text
  spoken m = codes m.role ++ (codes ": " ++ m.content)

  -- A stored message as the model is told it.
  unfoldable pub replayed : MessageRecord fl → ChatMessage
  replayed m = record {
    role = if str_eq m.role "assistant" then "assistant" else "user";
    content = m.content;
  }

  -- What the sections may take; a difference below 256, or below 0, is raised to 256.
  unfoldable pub memory_budget : BudgetConfig fl → Text → List (MessageRecord fl) → Option Text → ℕ
  unfolding spoken
  memory_budget config provider_user_input recent_raw language = max 256 (
      config.max_input_tokens_per_turn
      - (estimate_token_count provider_user_input + sum_tokens (map spoken recent_raw))
      - estimate_token_count output_protocol
      - estimate_token_count trailer_reminder
      - sum_tokens (optional language))

  unfoldable pub build_provider_context :
      Lexer
      → Surroundings
      → BudgetConfig fl
      → KernelDb fl
      → SummaryTable
      → MemoryDb fl
      → MessageTable fl
      → Text
      → Option (BehaviorDecision fl)
      → Option String
      → BuiltContext
  build_provider_context lexer around config kernel summaries memories messages user_input behavior
        target_language =
      let selected =
        select_memories fl lexer around.from_iso around.now_iso user_input
          config.max_memories_per_turn memories in
      let recent_raw = list_recent_chat_messages fl config.max_raw_turns messages in
      let provider_user_input =
        truncate_user_input_for_provider user_input config.max_user_input_tokens in
      let language = format_language_instruction target_language in
      let packed =
        pack_sections (system_sections around kernel summaries memories behavior selected)
          (memory_budget config provider_user_input recent_raw language) in
      let system =
        join (codes "\n\n")
          (packed.0 ++ (output_protocol ∷ (optional language ++ (strip trailer_reminder ∷ [])))) in
      let provider_messages =
        record { role = "system"; content = system }
        ∷ (map replayed recent_raw
            ++ (record { role = "user"; content = provider_user_input } ∷ [])) in
      record {
        messages = provider_messages;
        estimated_input_tokens = sum_tokens (contents provider_messages);
        included_memory_ids = map (λ (m : MemoryRecord fl). m.id) selected;
        included_message_ids = map (λ (m : MessageRecord fl). m.id) recent_raw;
        summary_used = elim (get_latest_conversation_summary summaries) [
          | none ↦ none
          | some s ↦ some s.summary
        ];
        truncated = packed.1;
        total_stored_messages = count_chat_messages fl messages;
      }

-- `extract_latest_user_input`; `none` is the ValueError. The messages are read from the last on.
unfoldable pub latest_user_input : List ChatMessage → Option Text
latest_user_input [] = none
latest_user_input (m ∷ ms) =
    let earlier = latest_user_input ms in if str_eq m.role "user" then some m.content else earlier

unfoldable pub extract_latest_user_input : List ChatMessage → Option Text
unfolding latest_user_input
extract_latest_user_input messages = latest_user_input (reverse messages)
