-- ===== src/Soul/Runtime.antt =====
-- backend/app/soul/runtime.py: a turn from the decision to the commit.
pub mod Brakes
pub mod Accounts
pub mod Writes
pub mod DailyLimit
use cyber_companion.Base.{
  ℕ, String, Bool, true, false, not, ◌&&◌, ◌||◌, Option, none, some, List, [], ◌∷◌, ◌++◌, str_eq,
  if◌then◌else◌, is_some, or_default,
}
use cyber_companion.Base.Text.{Text, codes, strip, is_empty, show}
use cyber_companion.Base.Dict.{Dict}
use cyber_companion.Base.Float.{Float}
use cyber_companion.Records.{Json, obj, Fields, end, field}
use cyber_companion.Store.Budget.{BudgetConfig}
use cyber_companion.Store.UsageGuard.{Block, reasoning_model, daily_turns, monthly_usd, BudgetGate}
use cyber_companion.Store.ChatPersistence.{TokenUsage, ChatCompletionResult, TurnLabels}
use cyber_companion.Store.Cost.{
  estimate_cost, build_local_completion, build_budget_block_completion,
}
use cyber_companion.Behavior.Types.{BehaviorDecision, DecisionType, decision_name}
use cyber_companion.Behavior.Parser.{StructuredAssistantResponse}
use cyber_companion.Soul.Ports.{
  Step, bind, ◌>>=◌, ◌>>◌, pure, raise, try_step, reading, TurnEvent, SoulEvent, SoulPorts, Router,
}

module _ (fl : Float) where
  open fl use {F}

  pub record PerceivedEvent : Type 0 where
    pub event_type : String
    pub user_input : Text
    pub surface : String
    pub provider : Option String
    pub target_language : Option String
    pub metadata : Dict (Json fl)

  pub record TurnOutcome : Type 0 where
    pub result : ChatCompletionResult fl
    pub avatar_state : String
    pub decision : String
    pub called_llm : Bool
    pub translation : Option String

  -- What the first half of a turn settles, and the second half commits.
  pub record Answer : Type 0 where
    pub outcome : TurnOutcome
    pub signals : Option (Json fl)

  -- `x or default` of a text that may be missing.
  abbrev pub or_text : Option String → String → String
  or_text none default = default
  or_text (some x) default = if str_eq x "" then default else x

  -- `bool(target_language)`
  abbrev pub wanted : Option String → Bool
  wanted none = false
  wanted (some x) = not (str_eq x "")

  -- `bool(signals)`
  abbrev pub has_signals : Option (Json fl) → Bool
  has_signals none = false
  has_signals (some (obj end)) = false
  has_signals (some v) = true

  -- usage_guard.py: the line of a block, with `f"{x:.2f}"` and `f"{x:.4f}"` as parameters.
  block_line : (F → Text) → (F → Text) → Block F → Text
  unfolding show
  block_line fixed2 fixed4 (reasoning_model model) =
      codes "reasoning 模型（"
      ++ (model ++ codes "）这个月没给你开。用普通模型，或者去 budget.json 把 allow_reasoning_model 打开。")
  block_line fixed2 fixed4 (Block.daily_turns limit) =
      codes "今天的对话额度（" ++ (show limit ++ codes " 次）用完了。我也要喘口气。明天再来，或者改 budget.json。")
  block_line fixed2 fixed4 (monthly_usd limit cost) =
      codes "这个月的预算（$"
      ++ (fixed2 limit ++ (codes "）被你榨干了，已经烧掉约 $" ++ (fixed4 cost ++ codes "。省着点，今天先用自己的脑子。")))

  -- `gate.block_line or "..."`
  gate_line : (F → Text) → (F → Text) → BudgetGate fl → Text
  unfolding block_line
  gate_line fixed2 fixed4 gate = elim gate.blocked_by [
    | none ↦ codes "预算用完了，先省着点。"
    | some b ↦ block_line fixed2 fixed4 b
  ]

  -- `saved_ids[0] if user_input.strip() and saved_ids else None`
  first_id : Bool → List ℕ → Option ℕ
  first_id true ids = none
  first_id false [] = none
  first_id false (i ∷ is) = some i

  user_message_id : Text → List ℕ → Option ℕ
  unfolding first_id strip is_empty
  user_message_id user_input ids = first_id (is_empty (strip user_input)) ids

  -- `{"talking" if ... else ...}`: the avatar of a reply that names none.
  default_avatar : BehaviorDecision fl → String
  default_avatar d = elim d.decision [
    | DecisionType.reply ↦ "talking"
    | DecisionType.interrupt ↦ "talking"
    | _ ↦ d.avatar_state
  ]

  -- What the second half of a turn is given.
  pub record Commit : Type 0 where
    pub surface : String
    pub event_type : String
    pub user_input : Text
    pub result : ChatCompletionResult fl
    pub decision : String
    pub avatar_state : String
    -- the flag of the stored message, and that of the counter and the event
    pub should_call_llm : Bool
    pub called_llm : Bool
    pub signals : Option (Json fl)
    pub translation : Option String
    pub update_summary : Bool
    pub note : Bool
    pub metadata : Dict (Json fl)

  module _ {W : Type 0} (ports : SoulPorts fl W) (budget : BudgetConfig fl) where
    unfoldable pub append_turn_event : Commit → List ℕ → Step W Unit
    unfolding strip is_empty
    append_turn_event c message_ids = try_step (
        ports.append (record {
          kind = "turn.committed";
          payload = record {
            surface = c.surface;
            event_type = c.event_type;
            decision = c.decision;
            avatar_state = c.avatar_state;
            called_llm = c.called_llm;
            message_ids = message_ids;
            provider = c.result.provider;
            model = c.result.model;
            mock = c.result.mock;
            has_user_input = not (is_empty (strip c.user_input));
            has_signals = has_signals c.signals;
            translated = is_some c.translation;
            metadata = c.metadata;
          };
        }))

    pub labels_of : Commit → TurnLabels fl
    labels_of c = record {
      decision = some c.decision;
      avatar_state = some c.avatar_state;
      should_call_llm = some c.should_call_llm;
      translation = c.translation;
    }

    -- The second half of every turn: the turn is stored, its memories, the summary and the counter
    -- follow, and the event closes it.
    unfoldable pub commit : Commit → Step W (List ℕ)
    unfolding labels_of append_turn_event user_message_id
    commit c = do
      saved_ids ← ports.persist_turn c.user_input c.result (labels_of c)
      try_step (
          ports.record_turn_memories c.user_input c.signals (user_message_id c.user_input saved_ids)
            budget)
      (if c.update_summary then ports.maybe_update_summary budget else pure false)
      (if c.note then ports.note_llm_turn else pure 0)
      append_turn_event c saved_ids
      pure saved_ids

    -- commit_turn, for the surfaces that answer before they commit.
    unfoldable pub commit_turn :
        Text
        → ChatCompletionResult fl
        → String
        → String
        → Bool
        → Option (Json fl)
        → Option String
        → Bool
        → String
        → Bool
        → Option Bool
        → Step W (List ℕ)
    commit_turn user_input result decision avatar_state called_llm signals translation apply_signals
          surface update_summary should_call_llm =
        do
          (if apply_signals then try_step (ports.apply_signals signals) else pure tt)
          commit (record {
            surface = surface;
            event_type = "user_message";
            user_input = user_input;
            result = result;
            decision = decision;
            avatar_state = avatar_state;
            should_call_llm = or_default should_call_llm called_llm;
            called_llm = called_llm;
            signals = signals;
            translation = translation;
            update_summary = update_summary;
            note = called_llm;
            metadata = [];
          })

    module _ (router : Router fl) (parse : Text → StructuredAssistantResponse fl)
        (fixed2 fixed4 : F → Text) where
      -- finalize_streamed_turn, once the text is accumulated. It notes no turn: its caller does.
      unfoldable pub finalize_streamed_turn :
          Text
          → Text
          → String
          → String
          → TokenUsage fl
          → Bool
          → String
          → String
          → Bool
          → Option String
          → Step W (ChatCompletionResult fl × Option String)
      finalize_streamed_turn user_input accumulated_text provider_name model usage mock decision
            avatar_state should_call_llm target_language =
          do
            let parsed = parse accumulated_text
            try_step (ports.apply_signals parsed.signals)
            tagged ← reading (λ w. router.tag_reply_by_sentence parsed.content (ports.get_mood w))
            let translation : Option String =
                if wanted target_language then router.translate_to_chinese parsed.content else none
            let result : ChatCompletionResult fl = record {
              provider = provider_name;
              model = model;
              content = tagged;
              usage = usage;
              cost = estimate_cost fl model usage;
              mock = mock;
            }
            commit (record {
              surface = "text_stream";
              event_type = "user_message";
              user_input = user_input;
              result = result;
              decision = or_text parsed.decision decision;
              avatar_state = or_text parsed.avatar_state avatar_state;
              should_call_llm = should_call_llm;
              called_llm = should_call_llm;
              signals = parsed.signals;
              translation = translation;
              update_summary = true;
              note = false;
              metadata = [];
            })
            pure (result, translation)

      -- The reply of a provider, parsed, appraised and tagged.
      unfoldable pub replied :
          PerceivedEvent → BehaviorDecision fl → Option (ChatCompletionResult fl) → Step W Answer
      unfolding default_avatar
      replied event decision none = raise
      replied event decision (some result) = do
        let parsed = parse result.content
        let translation : Option String =
            if wanted event.target_language
            then router.translate_to_chinese parsed.content
            else none
        try_step (ports.apply_signals parsed.signals)
        tagged ← reading (λ w. router.tag_reply_by_sentence parsed.content (ports.get_mood w))
        pure (record {
          outcome = record {
            result = record result { content = tagged };
            avatar_state = or_text parsed.avatar_state (default_avatar decision);
            decision = or_text parsed.decision (decision_name decision.decision);
            called_llm = true;
            translation = translation;
          };
          signals = parsed.signals;
        })

      -- An answer without a provider.
      local_answer : ChatCompletionResult fl → String → String → Answer
      local_answer result avatar_state decision = record {
        outcome = record {
          result = result;
          avatar_state = avatar_state;
          decision = decision;
          called_llm = false;
          translation = none;
        };
        signals = none;
      }

      -- The call of a provider, unless the spend brake is on.
      unfoldable pub ask : PerceivedEvent → BehaviorDecision fl → Option Text → Step W Answer
      unfolding replied local_answer gate_line
      ask event decision none = raise
      ask event decision (some target_model) = do
        gate ← reading (λ w. ports.check_llm_budget budget target_model w)
        (if gate.allowed
            then (do
              built ← reading (λ w.
                  ports.build_context event.user_input budget decision event.target_language w)
              replied event decision
                  (router.complete built.messages budget.max_output_tokens_per_turn event.provider))
            else pure (
                local_answer (build_budget_block_completion fl (gate_line fixed2 fixed4 gate))
                  "annoyed" "refuse"))

      unfoldable pub answered : PerceivedEvent → BehaviorDecision fl → Step W Answer
      unfolding ask local_answer
      answered event decision =
          if decision.should_call_llm
          then ask event decision (router.model_of event.provider)
          else pure (
              local_answer (build_local_completion fl decision event.user_input)
                decision.avatar_state (decision_name decision.decision))

      -- The commit of an answer.
      committed : PerceivedEvent → Answer → Commit
      committed event a = record {
        surface = event.surface;
        event_type = event.event_type;
        user_input = event.user_input;
        result = a.outcome.result;
        decision = a.outcome.decision;
        avatar_state = a.outcome.avatar_state;
        should_call_llm = a.outcome.called_llm;
        called_llm = a.outcome.called_llm;
        signals = a.signals;
        translation = a.outcome.translation;
        update_summary = true;
        note = a.outcome.called_llm;
        metadata = event.metadata;
      }

      unfoldable pub run_turn : PerceivedEvent → Step W TurnOutcome
      unfolding answered committed commit
      run_turn event = do
        decision ← ports.decide_user_message event.user_input
        a ← answered event decision
        commit (committed event a)
        pure a.outcome
