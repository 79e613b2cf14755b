-- ===== src/Store/Budget.antt =====
-- backend/app/memory/budget.py: the limits and switches of `BudgetConfig`. The integer limits are
-- natural numbers: every use of one treats a negative value as it treats 0, or as no value at all.
use cyber_companion.Base.{ℕ, Bool, true, false, String, str_eq, if◌then◌else◌, Option, none, some}
use cyber_companion.Base.Float.{Float}

pub data ProactiveReasonMode : Type 0 where
  agenda relationship : ProactiveReasonMode

module _ (fl : Float) where
  open fl use {F, dec}

  pub record BudgetConfig : Type 0 where
    pub max_input_tokens_per_turn : ℕ
    pub max_output_tokens_per_turn : ℕ
    pub max_user_input_tokens : ℕ
    pub max_raw_turns : ℕ
    pub max_memories_per_turn : ℕ
    pub summary_batch_size : ℕ
    pub behavior_tick_retention : ℕ
    pub auto_memory_write : Bool
    pub llm_memory_extraction : Bool
    pub enable_reflection : Bool
    pub reflection_every_n_turns : ℕ
    pub enable_turn_analyzer : Bool
    pub analyze_every_n_turns : ℕ
    pub llm_summary : Bool
    pub allow_cloud_stt : Bool
    pub allow_cloud_tts : Bool
    pub monthly_usd_limit : F
    pub daily_llm_turn_limit : ℕ
    pub allow_reasoning_model : Bool
    pub proactive_reason_mode : ProactiveReasonMode
    pub enable_proactive : Bool
    pub longing_silence_hours_scale : F
    pub longing_closeness_weight : F
    pub longing_loneliness_weight : F
    pub longing_lambda_base_per_hour : F
    pub longing_lambda_longing_gain : F
    pub longing_tier_bored_hours : F
    pub longing_tier_longing_hours : F
    pub longing_tier_sulk_hours : F
    pub longing_tier_sulk_closeness_min : F
    pub proactive_fingerprint_history_size : ℕ
    pub proactive_llm : Bool
    pub proactive_max_output_tokens : ℕ
    pub idle_experience_enabled : Bool
    pub idle_experience_min_gap_hours : F
    pub idle_experience_daily_max : ℕ
    pub idle_experience_max_output_tokens : ℕ
    pub idle_experience_fingerprint_history_size : ℕ
    pub share_fingerprint_history_size : ℕ

  -- The defaults of the dataclass.
  abbrev pub default_budget : BudgetConfig
  default_budget = record {
    max_input_tokens_per_turn = 4000;
    max_output_tokens_per_turn = 300;
    max_user_input_tokens = 1500;
    max_raw_turns = 4;
    max_memories_per_turn = 6;
    summary_batch_size = 6;
    behavior_tick_retention = 200;
    auto_memory_write = true;
    llm_memory_extraction = true;
    enable_reflection = true;
    reflection_every_n_turns = 6;
    enable_turn_analyzer = true;
    analyze_every_n_turns = 1;
    llm_summary = true;
    allow_cloud_stt = false;
    allow_cloud_tts = false;
    monthly_usd_limit = dec 10 0;
    daily_llm_turn_limit = 200;
    allow_reasoning_model = false;
    proactive_reason_mode = ProactiveReasonMode.relationship;
    enable_proactive = true;
    longing_silence_hours_scale = dec 48 0;
    longing_closeness_weight = dec 55 2;
    longing_loneliness_weight = dec 45 2;
    longing_lambda_base_per_hour = dec 4 3;
    longing_lambda_longing_gain = dec 25 1;
    longing_tier_bored_hours = dec 24 0;
    longing_tier_longing_hours = dec 48 0;
    longing_tier_sulk_hours = dec 72 0;
    longing_tier_sulk_closeness_min = dec 6 1;
    proactive_fingerprint_history_size = 4;
    proactive_llm = true;
    proactive_max_output_tokens = 80;
    idle_experience_enabled = true;
    idle_experience_min_gap_hours = dec 6 0;
    idle_experience_daily_max = 4;
    idle_experience_max_output_tokens = 160;
    idle_experience_fingerprint_history_size = 4;
    share_fingerprint_history_size = 4;
  }

-- `_parse_proactive_reason_mode`; `none` is any value that is no text.
unfoldable pub parse_proactive_reason_mode : Option String → ProactiveReasonMode
parse_proactive_reason_mode none = ProactiveReasonMode.relationship
parse_proactive_reason_mode (some raw) =
    if str_eq raw "agenda" then ProactiveReasonMode.agenda else ProactiveReasonMode.relationship
