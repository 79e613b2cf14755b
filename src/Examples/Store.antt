-- ===== src/Examples/Store.antt =====
-- Runs of the store models.
use cyber_companion.Base.{
  ℕ, ◌+◌, ◌≡◌, ◌≤◌, ◌<◌, ◌↔◌, refl, String, true, false, not, ◌&&◌, Option, none, some, List, [],
  ◌∷◌, ◌⊎◌, arith, keep, take, length, leb, if◌then◌else◌,
}
use cyber_companion.Base.Text.{Text, codes, text_lt, parse_int, text_eq}
use cyber_companion.Base.Int.{ℤ, pos}
use cyber_companion.Base.Dict.{get, update, remove_all}
use cyber_companion.Base.Micro.{micro}
use cyber_companion.Records.{Json, str}
use cyber_companion.Store.State.{
  KernelDb, get_mood_state, patch_mood_metadata, patch_behavior_runtime_metadata, purge,
  is_operational, is_retired, RelationshipUpdate, no_relationship_update,
}
use cyber_companion.Store.State.Metadata.{
  RuntimeIsOperational, get-patch_mood_metadata, get-patch_behavior_runtime,
  patch_behavior_runtime-RuntimeIsOperational,
}
use cyber_companion.Store.Meta.{
  MetaTable, select, turns_key, stored_turns, claim_write, claim_reflection, claimed,
}
use cyber_companion.Store.Meta.Locks.{
  Call, note, claim, release, claim_turn, step, grants, releases, reflecting, note_turns,
  grants-le-releases, claim_after_turns,
}
use cyber_companion.Store.Meta.Overlap.{overlapping, overlapping_granted}
use cyber_companion.Store.Messages.{
  MessageRecord, MessageTable, is_tick, prune_behavior_tick_messages, count_llm_turns_since,
  get_recent_chat_window_lower_bound_id,
}
use cyber_companion.Store.Messages.Order.{IsOrdered}
use cyber_companion.Store.Messages.Prune.{prune-keeps_newest}
use cyber_companion.Store.Budget.{BudgetConfig, default_budget}
use cyber_companion.Store.ChatPersistence.{
  ChatCompletionResult, ChatMessageSchema, TurnLabels, persist_chat_turn,
}
use cyber_companion.Store.ChatPersistence.Turns.{flagged, count-persist_chat_turn}
use cyber_companion.Store.UsageGuard.{
  day_start_str, month_start_str, is_reasoning_model, evaluate_llm_budget_gate, sum_llm_cost_since,
}
use cyber_companion.Store.UsageGuard.Limits.{gate-allowed_iff}
use cyber_companion.Store.Summary.{SummaryTable, maybe_update_conversation_summary}
use cyber_companion.Store.Summary.Ranges.{Extends, maybe_update-Extends}
use cyber_companion.Examples.Data.{calm, runtime, kernel, lexer}

-- The canonical row starts empty here.
abbrev fresh : KernelDb micro
fresh = record kernel { runtime = record runtime { metadata = [] } }

fresh-RuntimeIsOperational : RuntimeIsOperational micro fresh
unfolding get
fresh-RuntimeIsOperational k e = refl

abbrev rain : List (String × Json micro)
rain = ("topic", str "rain") ∷ []

-- The kernel after the topic was patched.
abbrev rainy : KernelDb micro
rainy = record fresh {
  mood = record calm { updated_at = "now"; metadata = update calm.metadata rain };
}

get-patch_mood_metadata_example :
    get "topic" (get_mood_state micro rainy).metadata ≡ some (str "rain")
unfolding patch_mood_metadata get_mood_state get is_operational is_retired update remove_all
get-patch_mood_metadata_example =
    get-patch_mood_metadata micro rain [] "now" fresh {m = get_mood_state micro rainy} {db' = rainy}
      fresh-RuntimeIsOperational refl "topic"

abbrev check : List (String × Json micro)
check = ("last_proactive_check_at", str "today") ∷ []

-- The kernel after the time of the last check was patched.
abbrev checked : KernelDb micro
checked = record fresh {
  runtime = record { updated_at = "now"; metadata = update [] check };
  mood = record calm {
    updated_at = "now";
    metadata = update (purge calm.metadata) (update [] check);
  };
}

get-patch_behavior_runtime_example :
    get "last_proactive_check_at" (get_mood_state micro checked).metadata ≡ some (str "today")
unfolding patch_behavior_runtime_metadata get is_operational update remove_all
get-patch_behavior_runtime_example =
    get-patch_behavior_runtime micro check [] "now" fresh {r = checked.runtime} {db' = checked}
      fresh-RuntimeIsOperational refl "last_proactive_check_at"

patch_behavior_runtime-RuntimeIsOperational_example : RuntimeIsOperational micro checked
unfolding patch_behavior_runtime_metadata is_operational update remove_all
patch_behavior_runtime-RuntimeIsOperational_example =
    patch_behavior_runtime-RuntimeIsOperational micro check [] "now" fresh {r = checked.runtime}
      {db' = checked} fresh-RuntimeIsOperational refl

-- A trust far above the scale.
abbrev too_much : RelationshipUpdate micro
too_much = record (no_relationship_update micro) { trust = some (pos 9_000_000) }

abbrev race : List Call
race = note ∷ claim 1 ∷ claim 1 ∷ release ∷ note ∷ claim 1 ∷ claim_turn (codes "room") ∷ []

grants-le-releases_example : grants race [] ≤ releases race + (if reflecting [] then 0 else 1)
grants-le-releases_example = grants-le-releases race []

claim_after_turns_example :
    let r = step (claim 2) (note_turns 3 []) in
    (r.0 ≡ (not (reflecting []) && leb 2 3))
    × (r.0 ≡ true → stored_turns (select turns_key r.1) ≡ some 0)
unfolding select
claim_after_turns_example = claim_after_turns 3 2 [] refl

abbrev noon : Text
noon = codes "2026-01-01 12:00:00"

abbrev row : ℕ → String → String → MessageRecord micro
row i role source = record {
  id = i;
  created_at = noon;
  role = role;
  content = codes "hello";
  source = source;
  metadata = [];
}

abbrev log : MessageTable micro
log = record {
  rows =
      row 6 "assistant" "behavior_tick"
      ∷ row 5 "assistant" "chat"
      ∷ row 4 "user" "chat"
      ∷ row 3 "assistant" "behavior_tick"
      ∷ row 2 "assistant" "chat"
      ∷ row 1 "user" "chat"
      ∷ [];
  last_id = 6;
}

log-IsOrdered : IsOrdered micro log
log-IsOrdered =
    (omega arith, (omega arith, (omega arith, (omega arith, (omega arith, (omega arith, tt))))))

prune-keeps_newest_example :
    let r = prune_behavior_tick_messages micro 1 log in
    (keep (is_tick micro) r.1.rows ≡ take 1 (keep (is_tick micro) log.rows))
    × (keep (λ m. not (is_tick micro m)) r.1.rows ≡ keep (λ m. not (is_tick micro m)) log.rows)
    × (r.0 + length r.1.rows ≡ length log.rows)
prune-keeps_newest_example = prune-keeps_newest micro 1 log (omega arith) log-IsOrdered

abbrev result : ChatCompletionResult micro
result = record {
  provider = "mock";
  model = "mock";
  content = codes "hi";
  usage = record { input_tokens = 1; output_tokens = 1; total_tokens = 2 };
  cost = record {
    input_usd = pos 0;
    output_usd = pos 0;
    total_usd = pos 0;
    pricing_source = "mock";
  };
  mock = true;
}

abbrev labels : TurnLabels micro
labels = record {
  decision = some "reply";
  avatar_state = none;
  should_call_llm = some true;
  translation = none;
}

abbrev request : List (ChatMessageSchema micro)
request = record { role = "user"; content = codes "hello" } ∷ []

count-persist_chat_turn_example :
    count_llm_turns_since micro noon (persist_chat_turn micro request result labels noon log).1
    ≡ (if not (text_lt noon noon) && flagged micro labels then 1 else 0)
      + count_llm_turns_since micro noon log
count-persist_chat_turn_example = count-persist_chat_turn micro request result labels noon noon log

abbrev usd : MessageRecord micro → Option ℤ
usd m = some (pos 0)

gate-allowed_iff_example :
    let budget = default_budget micro in
    ((evaluate_llm_budget_gate micro (λ s. s) usd log budget (codes "gpt") noon).allowed ≡ true) ↔ (
      ((budget.allow_reasoning_model ≡ true) ⊎ (is_reasoning_model (λ s. s) (codes "gpt") ≡ false))
      × ((budget.daily_llm_turn_limit ≡ 0)
          ⊎ (count_llm_turns_since micro (day_start_str noon) log < budget.daily_llm_turn_limit))
      × ((micro.lt (micro.dec 0 0) budget.monthly_usd_limit ≡ false)
          ⊎ (micro.le budget.monthly_usd_limit
                (sum_llm_cost_since micro usd (month_start_str noon) log)
              ≡ false)))
gate-allowed_iff_example =
    gate-allowed_iff micro (λ s. s) usd (default_budget micro) log (codes "gpt") noon

-- Two raw turns, recaps of one message.
abbrev recaps : BudgetConfig micro
recaps = record (default_budget micro) {
  llm_summary = false;
  max_raw_turns = 2;
  summary_batch_size = 1;
}

abbrev no_summaries : SummaryTable
no_summaries = record { rows = []; last_id = 0 }

maybe_update-Extends_example :
    let o = maybe_update_conversation_summary micro lexer recaps log noon no_summaries in
    (o ≡ some (false, no_summaries))
    ⊎ ((bound : ℕ) × (t' : SummaryTable) × (get_recent_chat_window_lower_bound_id micro 2 log
          ≡ some bound)
        × (o ≡ some (true, t'))
        × Extends micro lexer bound no_summaries t')
maybe_update-Extends_example =
    maybe_update-Extends micro lexer recaps log noon no_summaries (omega arith) log-IsOrdered

-- Three turns since the last reflection.
abbrev due : MetaTable
due = (turns_key, codes "3") ∷ []

overlapping_granted_example :
    overlapping 2 3 due ≡ (some (true, claim_write due), some (true, claim_write (claim_write due)))
unfolding claim_reflection claimed stored_turns select parse_int text_eq
overlapping_granted_example =
    overlapping_granted 2 3 due {t' = claim_write due} {t'' = claim_write due} refl refl
