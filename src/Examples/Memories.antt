-- ===== src/Examples/Memories.antt =====
-- Runs of the memories, of the context that is made of them, and of the write policy.
use cyber_companion.Base.{
  ℕ, suc, ◌+◌, ◌/◌, ◌≤◌, ◌≡◌, refl, false, ◌&&◌, Option, none, some, List, [], ◌∷◌, arith, length,
  take, ltb, is_some, All, max,
}
use cyber_companion.Base.Text.{Text, codes}
use cyber_companion.Base.Int.{ℤ, pos}
use cyber_companion.Base.Micro.{micro, decimal}
use cyber_companion.Records.{Json, str, arr, obj, nil, cons, end, field, MemoryRecord}
use cyber_companion.Store.Budget.{default_budget}
use cyber_companion.Store.Memories.{
  MemoryDb, empty_memories, NewMemory, MemoryUpdate, get_memory, get_linked_memory_ids,
}
use cyber_companion.Store.Memories.View.{
  Call, log, create, change, delete, link, calls, specs, view, calls-refines,
}
use cyber_companion.Store.Memories.Links.{names, calls-links}
use cyber_companion.Store.Retrieval.{Stamp, zoned, is_expired}
use cyber_companion.Store.Retrieval.Selection.{Distinct}
use cyber_companion.Store.Context.{select_memories}
use cyber_companion.Store.Context.Memories.{select_memories-Live}
use cyber_companion.Store.Cost.{estimate_token_count, sum_tokens}
use cyber_companion.Store.Context.Prompt.{pack_sections, truncate_user_input_for_provider}
use cyber_companion.Store.Context.Packing.{pack_sections-longest, truncate_user_input-bound}
use cyber_companion.Store.Candidates.{Patterns}
use cyber_companion.Store.WritePolicy.{Now, record_turn_memories}
use cyber_companion.Store.WritePolicy.Growth.{origin, record_turn_memories-keeps}
use cyber_companion.Behavior.Signals.{Converted, number}
use cyber_companion.Examples.Data.{half, lexer, tools}

abbrev tea : NewMemory micro
tea = record {
  type = "behavior_preference";
  content = codes "likes tea";
  tags = codes "preference" ∷ [];
  importance = half;
  confidence = half;
  expires_at = none;
  source_message_id = none;
  metadata = [];
}

abbrev offer : NewMemory micro
offer = record tea {
  type = "job_progress";
  content = codes "offer: pending";
  source_message_id = some 7;
}

abbrev stronger : MemoryUpdate micro
stronger = record {
  content = none;
  tags = none;
  importance = some (decimal 9 1);
  confidence = none;
  expires_at = none;
  metadata = none;
}

-- The source of the second memory is in the log, that of a third is not. Two memories are made and
-- linked, one is changed, and one goes.
abbrev history : List (Call micro)
history =
    log (7 ∷ [])
    ∷ create tea (codes "2026-01-01 10:00:00")
    ∷ create (record tea { source_message_id = some 8 }) (codes "2026-01-01 10:30:00")
    ∷ create offer (codes "2026-01-01 11:00:00")
    ∷ link 1 2 "related"
    ∷ link 2 1 "related"
    ∷ change 2 stronger (codes "2026-01-02T09:00:00+00:00")
    ∷ delete 1
    ∷ []

calls-refines_example :
    specs micro history (view micro (empty_memories micro))
    ≡ (let r = calls micro history (empty_memories micro) in (r.0, view micro r.1))
calls-refines_example = calls-refines micro history (empty_memories micro)

-- Before the last call.
abbrev linked_history : List (Call micro)
linked_history = take 7 history

calls-links_example :
    let db = (calls micro linked_history (empty_memories micro)).1 in
    (names 2 (get_linked_memory_ids micro 1 db) ≡ names 1 (get_linked_memory_ids micro 2 db))
    × (names 1 (get_linked_memory_ids micro 1 db) ≡ false)
    × (names 2 (get_linked_memory_ids micro 1 db) ≡ (
        names 2 (get_linked_memory_ids micro 1 db)
        && is_some (get_memory micro 1 db)
        && is_some (get_memory micro 2 db)))
calls-links_example = calls-links micro linked_history 1 2

abbrev memory : ℕ → Option Text → MemoryRecord micro
memory i expires_at = record {
  id = i;
  created_at = codes "2026-01-01 10:00:00";
  updated_at = codes "2026-01-01 10:00:00";
  type = "recent_event";
  content = codes "tea";
  tags = [];
  importance = half;
  confidence = half;
  expires_at = expires_at;
  source_message_id = none;
  metadata = [];
}

-- The length of a text as its time, so that the third memory has expired.
abbrev pub clock : Text → Stamp
clock t = zoned (pos (length t))

abbrev shelf : MemoryDb micro
shelf = record {
  rows = memory 3 (some (codes "x")) ∷ memory 2 none ∷ memory 1 (some (codes "long ago")) ∷ [];
  last_id = 3;
  links = record { memory_id = 1; related_memory_id = 2; relation = "related" } ∷ [];
  messages = [];
}

select_memories-Live_example :
    let selected = select_memories micro lexer clock (codes "now") (codes "tea") 1 shelf in
    All
      (λ (m : MemoryRecord micro).
        (is_expired micro clock m (codes "now") ≡ false) × (get_memory micro m.id shelf ≡ some m))
      selected
    × Distinct micro selected
    × (length selected ≤ 1 + max 2 (1 / 2))
select_memories-Live_example =
    select_memories-Live micro lexer clock (codes "now") (codes "tea") 1 shelf
      (refl, (refl, (refl, tt)))

abbrev sections : List Text
sections = codes "persona" ∷ codes "the mood of today" ∷ codes "the memories" ∷ []

pack_sections-longest_example :
    let (packed, truncated) = pack_sections sections 5 in
    (packed ≡ take (length packed) sections)
    × (sum_tokens packed ≤ 5)
    × (truncated ≡ ltb (length packed) (length sections))
    × (truncated ≡ ltb 5 (sum_tokens (take (suc (length packed)) sections)))
pack_sections-longest_example = pack_sections-longest sections 5

truncate_user_input-bound_example :
    estimate_token_count (truncate_user_input_for_provider (codes "a long text of the user") 2)
    ≤ 2 + 5
truncate_user_input-bound_example =
    truncate_user_input-bound (codes "a long text of the user") 2 (omega arith)

abbrev pub patterns : Patterns
patterns = record {
  remember = λ s. some s;
  profile = λ s. none;
  project = λ s. none;
  preference = λ s. none;
  job_topic = λ s. none;
  job_action = λ s. none;
  job_action_topic = λ s. none;
  job_interview_topic = λ s. none;
  job_revise_topic = λ s. none;
}

abbrev pub to_float : Json micro → Converted ℤ
to_float v = number (decimal 9 1)

abbrev pub to_str : Json micro → Text
to_str v = codes "wants to move to the sea"

-- The signals ask for one memory.
abbrev signals : Json micro
signals = obj (
    field "memory"
      (arr (cons (obj (field "type" (str "project") (field "content" (str "sea") end))) nil)) end)

abbrev pub today : Now
today = record { sql = codes "2026-01-03 10:00:00"; iso = codes "2026-01-03T10:00:00+00:00" }

record_turn_memories-keeps_example :
    let db' =
      (record_turn_memories micro to_float to_str tools patterns
        (default_budget micro)
        (codes "remember the sea")
        (some signals)
        none
        today
        shelf).1 in
    (origin micro (get_memory micro 2 db') ≡ origin micro (get_memory micro 2 shelf))
    × (length db'.rows ≤ length shelf.rows + 5)
    × (db'.links ≡ shelf.links)
record_turn_memories-keeps_example =
    record_turn_memories-keeps micro to_float to_str tools patterns (default_budget micro)
      (codes "remember the sea") (some signals) none today shelf 2 (omega arith)
