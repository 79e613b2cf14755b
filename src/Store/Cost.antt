-- ===== src/Store/Cost.antt =====
-- backend/app/providers/cost.py and backend/app/behavior/completion.py: the count of tokens, the price
-- of a call, and the results that are made without one.
use cyber_companion.Base.{
  ℕ, ◌+◌, ◌/◌, ◌≤◌, max, String, true, Option, none, some, List, [], ◌∷◌, arith, length, str_eq,
  if◌then◌else◌,
}
use cyber_companion.Base.Text.{Text, codes, strip, is_empty, length-strip}
use cyber_companion.Base.Float.{Float}
use cyber_companion.Store.ChatPersistence.{TokenUsage, CostEstimate, ChatCompletionResult}
use cyber_companion.Behavior.Types.{BehaviorDecision}

unfoldable pub estimate_token_count : Text → ℕ
unfolding strip is_empty
estimate_token_count text =
    let stripped = strip text in if is_empty stripped then 0 else max 1 (length stripped / 3)

abbrev pub sum_tokens : List Text → ℕ
sum_tokens [] = 0
sum_tokens (t ∷ ts) = estimate_token_count t + sum_tokens ts

-- The estimate of a text is about a third of its length.
pub estimate_token_count-le : (s : Text) → estimate_token_count s ≤ length s / 3 + 1
unfolding estimate_token_count
estimate_token_count-le s = ground (arith, length-strip s)

module _ (fl : Float) where
  open fl use {F, dec, plus, times, over, round}

  pub record Pricing : Type 0 where
    pub input : F
    pub output : F
    pub source : String

  -- PRICING_PER_MILLION_USD, with the price of an unknown model.
  unfoldable pub pricing_of : String → Pricing
  pricing_of model =
      if str_eq model "deepseek-chat"
      then record { input = dec 28 2; output = dec 42 2; source = "deepseek-list-price-2026-03" }
      else if str_eq model "gpt-5.4-nano"
      then record { input = dec 10 2; output = dec 40 2; source = "placeholder-openai-estimate" }
      else if str_eq model "local-model"
      then record { input = dec 0 1; output = dec 0 1; source = "local-assumed-free" }
      else if str_eq model "mock-boxi"
      then record { input = dec 0 1; output = dec 0 1; source = "mock-provider" }
      else record { input = dec 0 1; output = dec 0 1; source = "unknown-model" }

  unfoldable pub estimate_usage : List Text → Text → TokenUsage fl
  estimate_usage messages output_text =
      let input_tokens = sum_tokens messages in
      let output_tokens = estimate_token_count output_text in
      record {
        input_tokens = input_tokens;
        output_tokens = output_tokens;
        total_tokens = input_tokens + output_tokens;
      }

  unfoldable pub estimate_cost : String → TokenUsage fl → CostEstimate fl
  unfolding pricing_of
  estimate_cost model usage =
      let pricing = pricing_of model in
      let input_usd = over (times (dec usage.input_tokens 0) pricing.input) (dec 1000000 0) in
      let output_usd = over (times (dec usage.output_tokens 0) pricing.output) (dec 1000000 0) in
      record {
        input_usd = round 8 input_usd;
        output_usd = round 8 output_usd;
        total_usd = round 8 (plus input_usd output_usd);
        pricing_source = pricing.source;
      }

  -- `decision.local_response or "……"`
  or_dots : Option String → Text
  or_dots none = codes "……"
  or_dots (some line) = if str_eq line "" then codes "……" else codes line

  unfoldable pub build_local_completion : BehaviorDecision fl → Text → ChatCompletionResult fl
  unfolding or_dots estimate_usage estimate_cost
  build_local_completion decision user_input =
      let content = or_dots decision.local_response in
      let usage = estimate_usage (user_input ∷ []) content in
      record {
        provider = "local-behavior";
        model = "behavior-local";
        content = content;
        usage = usage;
        cost = estimate_cost "mock-boxi" usage;
        mock = true;
      }

  unfoldable pub build_budget_block_completion : Text → ChatCompletionResult fl
  unfolding estimate_usage estimate_cost
  build_budget_block_completion message =
      let usage = estimate_usage [] message in
      record {
        provider = "local-budget";
        model = "budget-guard";
        content = message;
        usage = usage;
        cost = estimate_cost "mock-boxi" usage;
        mock = true;
      }
