-- ===== src/Store/Context.antt =====
-- backend/app/memory/context_builder.py: what a model is told. The texts that the calendar, the
-- persona files and the number formats give are parameters.
pub mod Memories
pub mod Blocks
pub mod Prompt
pub mod Packing
use cyber_companion.Base.{
  ℕ, ◌+◌, ◌-◌, ◌*◌, ◌/◌, max, String, Bool, true, false, not, ◌&&◌, ◌||◌, Option, none, some, List,
  [], ◌∷◌, ◌++◌, map, keep, any, take, length, leb, ltb, ◌==◌, str_eq, str_in, if◌then◌else◌,
}
use cyber_companion.Base.Text.{Text, codes, strip, rstrip, is_empty}
use cyber_companion.Base.Float.{Float}
use cyber_companion.Records.{MemoryRecord}
use cyber_companion.Store.Tokens.{Lexer}
use cyber_companion.Store.Memories.{
  MemoryDb, has_id, find_memory, list_memories, get_linked_memory_ids,
}
use cyber_companion.Store.Retrieval.{Stamp, is_expired, rank_memories}

abbrev pub link_extra_cap : ℕ → ℕ
link_extra_cap max_memories_per_turn = max 2 (max_memories_per_turn / 2)

module _ (fl : Float) where
  open fl use {F}

  -- `list_memories(limit=200)`; without a type the call raises nothing.
  unfoldable pub active_memories : (Text → Stamp) → Text → MemoryDb fl → List (MemoryRecord fl)
  active_memories from_iso now_iso db = elim (list_memories fl none 200 db) [
    | none ↦ []
    | some listed ↦ keep (λ memory. not (is_expired fl from_iso memory now_iso)) listed
  ]

  -- The inner loop: the memories that the links of one memory add to `extra`, which holds the
  -- memories of `seen_extra`. An id of no active memory adds nothing.
  unfoldable pub follow :
      ℕ
      → List (MemoryRecord fl)
      → List (MemoryRecord fl)
      → List ℕ
      → List (MemoryRecord fl)
      → List (MemoryRecord fl)
  follow cap active selected [] extra = extra
  follow cap active selected (linked_id ∷ ids) extra =
      if leb cap (length extra)
      then extra
      else let added : List (MemoryRecord fl) = elim (find_memory fl linked_id active) [
        | none ↦ extra
        | some linked_memory ↦ extra ++ linked_memory ∷ []
      ] in
        follow cap active selected ids
          (if has_id fl linked_id selected || has_id fl linked_id extra then extra else added)

  -- The outer loop, over the selected memories.
  unfoldable pub follow_all :
      ℕ
      → MemoryDb fl
      → List (MemoryRecord fl)
      → List (MemoryRecord fl)
      → List (MemoryRecord fl)
      → List (MemoryRecord fl)
      → List (MemoryRecord fl)
  follow_all cap db active selected [] extra = extra
  follow_all cap db active selected (m ∷ ms) extra =
      if leb cap (length extra)
      then extra
      else follow_all cap db active selected ms
          (follow cap active selected (get_linked_memory_ids fl m.id db) extra)

  -- The memories of a turn: the best of the active ones, then those they are linked to.
  unfoldable pub select_memories :
      Lexer → (Text → Stamp) → Text → Text → ℕ → MemoryDb fl → List (MemoryRecord fl)
  select_memories lexer from_iso now_iso user_input max_memories_per_turn db =
      let active = active_memories from_iso now_iso db in
      let selected = take max_memories_per_turn (rank_memories fl lexer active user_input) in
      selected ++ follow_all (link_extra_cap max_memories_per_turn) db active selected selected []
