-- ===== src/Store/UsageGuard/Limits.antt =====
-- backend/app/memory/usage_guard.py: when the gate before a model call is open.
use cyber_companion.Base.{◌<◌, ◌≡◌, ◌↔◌, ◌⊎◌, true, false, Option, arith}
use cyber_companion.Base.Text.{Text}
use cyber_companion.Base.Float.{Float}
use cyber_companion.Store.Budget.{BudgetConfig}
use cyber_companion.Store.Messages.{MessageRecord, MessageTable, count_llm_turns_since}
use cyber_companion.Store.UsageGuard.{
  is_reasoning_model, day_start_str, month_start_str, sum_llm_cost_since, evaluate_llm_budget_gate,
}

module _ (fl : Float) (lower : Text → Text) (usd : MessageRecord fl → Option fl.F)
    (budget : BudgetConfig fl) where
  -- An open gate leaves room for one more turn of the day.
  pub gate_daily :
      (t : MessageTable fl) (model now : Text)
      → 0 < budget.daily_llm_turn_limit
      → (evaluate_llm_budget_gate fl lower usd t budget model now).allowed ≡ true
      → count_llm_turns_since fl (day_start_str now) t < budget.daily_llm_turn_limit
  unfolding evaluate_llm_budget_gate
  gate_daily t model now pos h = ground arith

  -- A gate is open exactly if no brake is on: the model is no reasoning model or those are allowed,
  -- the daily limit is off or not reached, and the monthly limit is off or not reached.
  pub gate-allowed_iff :
      (t : MessageTable fl) (model now : Text)
      → ((evaluate_llm_budget_gate fl lower usd t budget model now).allowed ≡ true) ↔ (
          ((budget.allow_reasoning_model ≡ true) ⊎ (is_reasoning_model lower model ≡ false))
          × ((budget.daily_llm_turn_limit ≡ 0)
              ⊎ (count_llm_turns_since fl (day_start_str now) t < budget.daily_llm_turn_limit))
          × ((fl.lt (fl.dec 0 0) budget.monthly_usd_limit ≡ false)
              ⊎ (fl.le budget.monthly_usd_limit (sum_llm_cost_since fl usd (month_start_str now) t)
                  ≡ false)))
  unfolding evaluate_llm_budget_gate
  gate-allowed_iff t model now = (λ h. ground arith, λ h. ground arith)
