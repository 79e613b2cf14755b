-- ===== src/Store/UsageGuard.antt =====
-- backend/app/memory/usage_guard.py: the spend brakes before a model call.
pub mod Limits
use cyber_companion.Base.{
  ℕ, ◌+◌, ◌≡◌, String, Bool, true, false, not, ◌&&◌, Option, none, some, List, [], ◌∷◌, map, any,
  leb, ltb, if◌then◌else◌, keep, take, ◌++◌, reverse,
}
use cyber_companion.Base.Text.{Text, codes, contains}
use cyber_companion.Base.Dict.{get}
use cyber_companion.Base.Float.{Float}
use cyber_companion.Records.{Json, null, bool, int, float, str, arr, obj, Fields, end, field}
use cyber_companion.Store.Budget.{BudgetConfig}
use cyber_companion.Store.Messages.{
  MessageRecord, MessageTable, assistant_since, count_llm_turns_since,
}

abbrev pub reasoning_model_markers : List Text
reasoning_model_markers = map codes ("reason" ∷ "thinking" ∷ "o1-" ∷ "-o1" ∷ "o3-" ∷ "-o3" ∷ [])

-- `str.lower` is a parameter.
unfoldable pub is_reasoning_model : (Text → Text) → Text → Bool
is_reasoning_model lower model =
    let lowered = lower model in any (λ marker. contains lowered marker) reasoning_model_markers

-- `now.strftime("%Y-%m-%d 00:00:00")` and its sibling, where `now` is given as the text
-- `YYYY-MM-DD HH:MM:SS` that SQLite stamps a row with at that moment.
unfoldable pub day_start_str : Text → Text
day_start_str now = take 10 now ++ codes " 00:00:00"

unfoldable pub month_start_str : Text → Text
month_start_str now = take 7 now ++ codes "-01 00:00:00"

-- `blocked_by` with the values that the line of the block quotes.
pub data Block {ℓ} (F : Type ℓ) : Type ℓ where
  reasoning_model : Text → Block F
  daily_turns : ℕ → Block F
  monthly_usd : F → F → Block F

module _ (fl : Float) where
  open fl use {F, dec, plus, lt, le, round}

  pub record BudgetGate : Type 0 where
    pub allowed : Bool
    pub blocked_by : Option (Block F)

  abbrev pub open_gate : BudgetGate
  open_gate = record { allowed = true; blocked_by = none }

  abbrev pub blocked : Block F → BudgetGate
  blocked b = record { allowed = false; blocked_by = some b }

  -- `store.sum_llm_cost_since`: `usd` is what `float(cost.get("total_usd", 0.0) or 0.0)` makes of a
  -- message, and `none` where that is a TypeError or a ValueError, in which case the loop goes on. The
  -- cost of a message is a dict or nothing, as persist_chat_turn writes it.
  add_costs : (MessageRecord fl → Option F) → F → List (MessageRecord fl) → F
  add_costs usd total [] = total
  add_costs usd total (m ∷ ms) =
      add_costs usd (elim (usd m) [ none ↦ total | some x ↦ plus total x ]) ms

  unfoldable pub sum_llm_cost_since : (MessageRecord fl → Option F) → Text → MessageTable fl → F
  unfolding add_costs
  sum_llm_cost_since usd since t =
      round 8 (add_costs usd (dec 0 0) (reverse (keep (assistant_since fl since) t.rows)))

  unfoldable pub evaluate_llm_budget_gate :
      (Text → Text)
      → (MessageRecord fl → Option F)
      → MessageTable fl
      → BudgetConfig fl
      → Text
      → Text
      → BudgetGate
  evaluate_llm_budget_gate lower usd t budget target_model now =
      let daily_turns = count_llm_turns_since fl (day_start_str now) t in
      let month_cost = sum_llm_cost_since usd (month_start_str now) t in
      if not budget.allow_reasoning_model && is_reasoning_model lower target_model
      then blocked (reasoning_model target_model)
      else if ltb 0 budget.daily_llm_turn_limit && leb budget.daily_llm_turn_limit daily_turns
      then blocked (Block.daily_turns budget.daily_llm_turn_limit)
      else if lt (dec 0 0) budget.monthly_usd_limit && le budget.monthly_usd_limit month_cost
      then blocked (monthly_usd budget.monthly_usd_limit month_cost)
      else open_gate
