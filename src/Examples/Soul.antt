-- ===== src/Examples/Soul.antt =====
-- Runs of the stream filter and of the soul runtime.
use cyber_companion.Base.{
  ℕ, suc, ◌+◌, ◌≤◌, max, ◌≡◌, refl, String, Bool, true, false, not, ◌&&◌, Option, none, some, List,
  [], ◌∷◌, arith, leb, length, if◌then◌else◌,
}
use cyber_companion.Base.Text.{Text, codes, text_lt, find}
use cyber_companion.Base.Int.{ℤ, pos}
use cyber_companion.Base.Micro.{micro}
use cyber_companion.Store.Meta.{select, stored_turns}
use cyber_companion.Store.Messages.{count_llm_turns_since}
use cyber_companion.Store.Budget.{BudgetConfig, default_budget}
use cyber_companion.Store.UsageGuard.{daily_turns, blocked, day_start_str}
use cyber_companion.Store.ChatPersistence.{ChatCompletionResult}
use cyber_companion.Store.Memories.{empty_memories}
use cyber_companion.Store.Context.Prompt.{ChatMessage, Surroundings, BuiltContext}
use cyber_companion.Store.Cost.{estimate_usage, estimate_cost}
use cyber_companion.Behavior.Tone.{ToneMode}
use cyber_companion.Behavior.Types.{DecisionType, BehaviorDecision}
use cyber_companion.Behavior.Parser.{StructuredAssistantResponse, plain, fresh_filter, shown}
use cyber_companion.Behavior.Parser.Chunks.{Word, shown-plain, shown-marked}
use cyber_companion.Soul.Ports.{SoulPorts, Router}
use cyber_companion.Soul.Runtime.{PerceivedEvent, TurnOutcome, run_turn}
use cyber_companion.Soul.Runtime.Brakes.{reaches_provider, counted, served_by, run_turn-local}
use cyber_companion.Soul.Runtime.Accounts.{Sound, run_turn-returns}
use cyber_companion.Soul.Runtime.DailyLimit.{Turn, after_turns, daily_limit_holds}
use cyber_companion.Soul.Sqlite.{World, Host, ports_from_store}
use cyber_companion.Examples.Data.{calm, kernel, tools}
use cyber_companion.Examples.Memories.{patterns, to_float, to_str, today, clock}

-- The capital letters as the word characters.
abbrev capital : ℕ → Bool
capital c = leb 65 c && leb c 90

capital-Word : Word capital
capital-Word = record { capital = λ c low high. ground arith; angle = refl }

-- The sentinel is cut in two.
abbrev chunks : List Text
chunks = codes "行吧。\n<<<BOX" ∷ codes "I_SIGNALS>>>{\"a\"" ∷ codes ": 1}" ∷ []

shown-marked_example : shown capital fresh_filter chunks ≡ codes "行吧。\n"
unfolding find
shown-marked_example =
    shown-marked capital capital-Word chunks (codes "行吧。\n") (codes "{\"a\": 1}") refl refl refl

shown-plain_example :
    shown capital fresh_filter (codes "别磨蹭，" ∷ codes "今天先投一份。" ∷ []) ≡ codes "别磨蹭，今天先投一份。"
unfolding find
shown-plain_example = shown-plain capital (codes "别磨蹭，" ∷ codes "今天先投一份。" ∷ []) refl refl

abbrev said : Text → ChatCompletionResult micro
said content = record {
  provider = "deepseek";
  model = "deepseek-chat";
  content = content;
  usage = estimate_usage micro [] content;
  cost = estimate_cost micro "deepseek-chat" (estimate_usage micro [] content);
  mock = false;
}

abbrev router : Router micro
router = record {
  model_of = λ provider. some (codes "deepseek-chat");
  complete = λ ms n provider. some (said (codes "行吧。"));
  translate_to_chinese = λ t. none;
  tag_reply_by_sentence = λ t mood. t;
}

abbrev parse : Text → StructuredAssistantResponse micro
parse t = plain micro t

abbrev fixed : ℤ → Text
fixed x = codes "0.50"

abbrev event : PerceivedEvent micro
event = record {
  event_type = "user_message";
  user_input = codes "hello there";
  surface = "text";
  provider = none;
  target_language = none;
  metadata = [];
}

abbrev willing : BehaviorDecision micro
willing = record {
  decision = DecisionType.reply;
  avatar_state = "thinking";
  should_call_llm = true;
  reason = "user_message_needs_response";
  local_response = none;
  tone_mode = ToneMode.normal;
  tone = none;
}

abbrev nothing_built : BuiltContext micro
nothing_built = record {
  messages = [];
  estimated_input_tokens = 0;
  included_memory_ids = [];
  included_message_ids = [];
  summary_used = none;
  truncated = false;
  total_stored_messages = 0;
}

-- A store that counts its writes, whose daily brake is on.
abbrev braked : SoulPorts micro ℕ
braked = record {
  decide_user_message = λ user_input w. (some willing, w + 1);
  check_llm_budget = λ budget model w. blocked micro (daily_turns 3);
  build_context = λ user_input budget behavior language w. nothing_built;
  persist_turn = λ user_input result labels w. (some (w ∷ []), w + 1);
  record_turn_memories = λ user_input signals source budget w. (some tt, w + 1);
  maybe_update_summary = λ budget w. (some false, w + 1);
  note_llm_turn = λ w. (some 1, w + 1);
  get_mood = λ w. calm;
  apply_signals = λ signals w. (some tt, w + 1);
  append = λ e w. (some tt, w + 1);
}

-- Services that never answer.
abbrev dead : List ChatMessage → ℕ → Option String → Option (ChatCompletionResult micro)
dead ms n provider = none

run_turn-local_example :
    (run_turn micro braked
        (default_budget micro)
        (served_by micro braked
          (default_budget micro)
          parse
          fixed
          fixed
          router
          dead
          (λ t. none)
          (λ t mood. t))
        parse
        fixed
        fixed
        event
        0
      ≡ run_turn micro braked (default_budget micro) router parse fixed fixed event 0)
    × (counted micro braked
          (default_budget micro)
          parse
          fixed
          fixed
          (run_turn micro braked (default_budget micro) router parse fixed fixed event 0).0
        ≡ false)
unfolding reaches_provider
run_turn-local_example =
    run_turn-local micro braked (default_budget micro) parse fixed fixed router dead (λ t. none)
      (λ t mood. t) event 0 1 willing refl refl

abbrev around : Surroundings micro
around = record {
  persona_system_prompt = codes "Boxi";
  disable_existential_block = false;
  clock = record { year = 2026; month = 1; day = 3; weekday = 5; hhmm = codes "10:00" };
  holidays = [];
  now_iso = today.iso;
  from_iso = clock;
  baseline_seconds = pos 0;
  age = λ t. none;
  fixed2 = fixed;
}

abbrev host : Host micro
host = record {
  tools = tools;
  patterns = patterns;
  to_float = to_float;
  to_str = to_str;
  usd = λ m. none;
  around = around;
  now = today;
  iso = "2026-01-03T10:00:00+00:00";
}

abbrev new_world : World micro
new_world = record {
  kernel = kernel;
  messages = record { rows = []; last_id = 0 };
  memories = empty_memories micro;
  summaries = record { rows = []; last_id = 0 };
  meta = [];
  events = record { rows = []; last_id = 0 };
}

new_world-Sound : Sound micro host (default_budget micro) 0 new_world
unfolding select stored_turns
new_world-Sound = record { ordered = tt; counter = refl }

run_turn-returns_example :
    (o : TurnOutcome micro) × (w' : World micro) × (run_turn micro
        (ports_from_store micro host)
        (default_budget micro)
        router
        parse
        fixed
        fixed
        event
        new_world
      ≡ (some o, w'))
    × (count_llm_turns_since micro (codes "2026-01-03 00:00:00") w'.messages
        ≡ (if not (text_lt today.sql (codes "2026-01-03 00:00:00")) && o.called_llm then 1 else 0)
          + count_llm_turns_since micro (codes "2026-01-03 00:00:00") new_world.messages)
    × Sound micro host (default_budget micro) (if o.called_llm then 0 + 1 else 0) w'
    × (length w'.events.rows ≡ suc (length new_world.events.rows))
run_turn-returns_example =
    run_turn-returns micro host (default_budget micro) router parse fixed fixed event 0 new_world
      (codes "deepseek-chat") (codes "2026-01-03 00:00:00") (omega arith) new_world-Sound refl
      (λ ms n. refl)

abbrev two_a_day : BudgetConfig micro
two_a_day = record (default_budget micro) { daily_llm_turn_limit = 2 }

abbrev turn : Turn micro
turn = record {
  host = host;
  router = router;
  parse = parse;
  fixed2 = fixed;
  fixed4 = fixed;
  event = event;
}

daily_limit_holds_example :
    let day = day_start_str today.sql in
    count_llm_turns_since micro day
      (after_turns micro two_a_day (turn ∷ turn ∷ turn ∷ []) new_world).messages
    ≤ max 2 (count_llm_turns_since micro day new_world.messages)
daily_limit_holds_example =
    daily_limit_holds micro two_a_day (day_start_str today.sql) (turn ∷ turn ∷ turn ∷ []) new_world
      (omega arith) (refl, (refl, (refl, tt)))
