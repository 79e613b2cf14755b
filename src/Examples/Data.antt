-- ===== src/Examples/Data.antt =====
-- The states and the texts that the runs start from.
use cyber_companion.Base.{refl, none, [], ◌∷◌}
use cyber_companion.Base.Int.{ℤ}
use cyber_companion.Base.Micro.{micro, decimal}
use cyber_companion.Records.{
  str, MoodStateRecord, RelationshipStateRecord, BehaviorRuntimeStateRecord, ExistentialStateRecord,
}
use cyber_companion.Store.State.{KernelDb}
use cyber_companion.Store.State.Bounds.{RelationshipInUnit}
use cyber_companion.Store.Tokens.{Lexer}
use cyber_companion.Behavior.Mood.Bounds.{MoodInUnit}
use cyber_companion.Behavior.Engine.Bounds.{KernelInUnit}
use cyber_companion.Behavior.Rules.{Tools}

abbrev pub half : ℤ
half = decimal 5 1

abbrev pub calm : MoodStateRecord micro
calm = record {
  updated_at = "2026-01-01T00:00:00+00:00";
  mood = "happy";
  energy = half;
  annoyance = decimal 1 1;
  boredom = decimal 2 1;
  worry = decimal 1 1;
  trust = half;
  loneliness = decimal 3 1;
  metadata = ("topic", str "sun") ∷ ("place", str "box") ∷ [];
}

abbrev pub close_friend : RelationshipStateRecord micro
close_friend = record {
  updated_at = "2026-01-01T00:00:00+00:00";
  trust = half;
  closeness = decimal 7 1;
  familiarity = half;
  tension = decimal 1 1;
  last_meaningful_interaction_at = none;
  metadata = [];
}

abbrev pub runtime : BehaviorRuntimeStateRecord micro
runtime = record {
  updated_at = "2026-01-01T00:00:00+00:00";
  metadata = ("last_proactive_check_at", str "yesterday") ∷ [];
}

abbrev pub settled : ExistentialStateRecord micro
settled = record {
  updated_at = "2026-01-01T00:00:00+00:00";
  gap_feeling = half;
  box_relation = half;
  self_ease = half;
}

abbrev pub kernel : KernelDb micro
kernel = record {
  mood = calm;
  relationship = close_friend;
  runtime = runtime;
  existential = settled;
}

pub calm-MoodInUnit : MoodInUnit micro calm
calm-MoodInUnit = record {
  energy = record { low = refl; high = refl };
  annoyance = record { low = refl; high = refl };
  boredom = record { low = refl; high = refl };
  worry = record { low = refl; high = refl };
  loneliness = record { low = refl; high = refl };
}

pub close_friend-InUnit : RelationshipInUnit micro close_friend
close_friend-InUnit = record {
  trust = record { low = refl; high = refl };
  closeness = record { low = refl; high = refl };
  familiarity = record { low = refl; high = refl };
  tension = record { low = refl; high = refl };
}

pub kernel-InUnit : KernelInUnit micro kernel
kernel-InUnit = record { mood = calm-MoodInUnit; relationship = close_friend-InUnit }

-- A lexer that knows one word, and rules without regular expressions.
abbrev pub lexer : Lexer
lexer = record {
  lower = λ s. s;
  token_matches = λ s. s ∷ [];
  ascii_word_matches = λ s. s ∷ [];
  cjk_run_matches = λ s. [];
  lcut = none;
}

abbrev pub tools : Tools
tools = record { lexer = lexer; refuse_patterns = []; days_since = λ s. none }
