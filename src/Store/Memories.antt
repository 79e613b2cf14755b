-- ===== src/Store/Memories.antt =====
-- backend/app/memory/_store_memories.py: the memories and the links between them. Rows stand with the
-- newest id first, links in the order in which they were stored. `messages` holds the ids of
-- the message log, which is in the same database: the foreign key of a memory refers to it.
pub mod View
pub mod Links
pub mod Ids
use cyber_companion.Base.{
  ℕ, ◌+◌, String, Bool, true, false, not, ◌&&◌, ◌||◌, Option, none, some, List, [], ◌∷◌, ◌++◌, map,
  keep, take, any, length, ltb, ◌==◌, str_eq, str_in, if◌then◌else◌, or_default, is_some,
}
use cyber_companion.Base.Text.{Text, text_lt}
use cyber_companion.Base.Dict.{Dict}
use cyber_companion.Base.Float.{Float}
use cyber_companion.Records.{Json, has_source, MemoryRecord}

-- schema.py
abbrev pub memory_types : List String
memory_types =
    "stable_profile" ∷ "recent_event" ∷ "emotion_state" ∷ "project" ∷ "job_progress" ∷ "reminder"
    ∷ "relationship_state" ∷ "behavior_preference" ∷ "conversation_summary" ∷ "idle_experience" ∷ []

-- A row of memory_links. Its id and its time are read by nothing but the listing of all links.
pub record LinkRow : Type 0 where
  pub memory_id : ℕ
  pub related_memory_id : ℕ
  pub relation : String

abbrev pub joins : ℕ → ℕ → LinkRow → Bool
joins i j l = l.memory_id == i && l.related_memory_id == j

abbrev pub touches : ℕ → LinkRow → Bool
touches i l = l.memory_id == i || l.related_memory_id == i

-- `INSERT OR IGNORE`, with the unique pair of ids.
unfoldable pub insert_link : ℕ → ℕ → String → List LinkRow → List LinkRow
insert_link i j relation links =
    let link : LinkRow = record { memory_id = i; related_memory_id = j; relation = relation } in
    if any (joins i j) links then links else links ++ link ∷ []

module _ (fl : Float) where
  open fl use {F}

  pub record MemoryDb : Type 0 where
    pub rows : List (MemoryRecord fl)
    pub last_id : ℕ
    pub links : List LinkRow
    pub messages : List ℕ

  abbrev pub empty_memories : MemoryDb
  empty_memories = record { rows = []; last_id = 0; links = []; messages = [] }

  -- The keyword arguments of create_memory.
  pub record NewMemory : Type 0 where
    pub type : String
    pub content : Text
    pub tags : List Text
    pub importance : F
    pub confidence : F
    pub expires_at : Option Text
    pub source_message_id : Option ℕ
    pub metadata : Dict (Json fl)

  -- `none` is the ValueError of an unsupported type, or the IntegrityError of a source message that is
  -- not in the log; `now` is `datetime('now')`.
  unfoldable pub create_memory : NewMemory → Text → MemoryDb → Option (MemoryRecord fl × MemoryDb)
  create_memory a now db =
      let saved : MemoryRecord fl = record {
        id = db.last_id + 1;
        created_at = now;
        updated_at = now;
        type = a.type;
        content = a.content;
        tags = a.tags;
        importance = a.importance;
        confidence = a.confidence;
        expires_at = a.expires_at;
        source_message_id = a.source_message_id;
        metadata = a.metadata;
      } in
      if str_in a.type memory_types && has_source a.source_message_id db.messages
      then some (saved, record db { rows = saved ∷ db.rows; last_id = db.last_id + 1 })
      else none

  unfoldable pub find_memory : ℕ → List (MemoryRecord fl) → Option (MemoryRecord fl)
  find_memory i [] = none
  find_memory i (r ∷ rs) = if r.id == i then some r else find_memory i rs

  -- Is there a memory of that id?
  abbrev pub has_id : ℕ → List (MemoryRecord fl) → Bool
  has_id i ms = any (λ m. m.id == i) ms

  unfoldable pub get_memory : ℕ → MemoryDb → Option (MemoryRecord fl)
  get_memory memory_id db = find_memory memory_id db.rows

  -- `ORDER BY updated_at DESC, id DESC`; the timestamps are compared as texts.
  unfoldable pub newer : MemoryRecord fl → MemoryRecord fl → Bool
  newer a b =
      text_lt b.updated_at a.updated_at
      || (not (text_lt a.updated_at b.updated_at) && ltb b.id a.id)

  unfoldable pub insert_memory : MemoryRecord fl → List (MemoryRecord fl) → List (MemoryRecord fl)
  insert_memory a [] = a ∷ []
  insert_memory a (b ∷ bs) =
      let rest = insert_memory a bs in if newer a b then a ∷ b ∷ bs else b ∷ rest

  unfoldable pub ordered_memories : List (MemoryRecord fl) → List (MemoryRecord fl)
  ordered_memories [] = []
  ordered_memories (a ∷ as') = insert_memory a (ordered_memories as')

  -- A limit is not negative; `none` is the ValueError of an unsupported type.
  unfoldable pub list_memories : Option String → ℕ → MemoryDb → Option (List (MemoryRecord fl))
  list_memories none limit db = some (take limit (ordered_memories db.rows))
  list_memories (some type) limit db =
      if str_in type memory_types
      then some (take limit (ordered_memories (keep (λ r. str_eq r.type type) db.rows)))
      else none

  -- The keyword arguments of update_memory; `none` is an argument left out.
  pub record MemoryUpdate : Type 0 where
    pub content : Option Text
    pub tags : Option (List Text)
    pub importance : Option F
    pub confidence : Option F
    pub expires_at : Option Text
    pub metadata : Option (Dict (Json fl))

  or_stored : Option Text → Option Text → Option Text
  or_stored none stored = stored
  or_stored (some t) stored = some t

  unfoldable pub updated_memory : MemoryUpdate → Text → MemoryRecord fl → MemoryRecord fl
  unfolding or_stored
  updated_memory u now existing = record existing {
    updated_at = now;
    content = or_default u.content existing.content;
    tags = or_default u.tags existing.tags;
    importance = or_default u.importance existing.importance;
    confidence = or_default u.confidence existing.confidence;
    expires_at = or_stored u.expires_at existing.expires_at;
    metadata = or_default u.metadata existing.metadata;
  }

  -- The columns that the SQL statement writes, of the record that was made.
  unfoldable pub write_memory : MemoryRecord fl → MemoryRecord fl → MemoryRecord fl
  write_memory updated r = record r {
    updated_at = updated.updated_at;
    content = updated.content;
    tags = updated.tags;
    importance = updated.importance;
    confidence = updated.confidence;
    expires_at = updated.expires_at;
    metadata = updated.metadata;
  }

  unfoldable pub change_memory :
      ℕ → (MemoryRecord fl → MemoryRecord fl) → List (MemoryRecord fl) → List (MemoryRecord fl)
  change_memory i f [] = []
  change_memory i f (r ∷ rs) =
      let rest = change_memory i f rs in if r.id == i then f r ∷ rest else r ∷ rest

  -- The update, once the row was looked up.
  unfoldable pub update_found :
      Option (MemoryRecord fl)
      → ℕ
      → MemoryUpdate
      → Text
      → MemoryDb
      → Option (MemoryRecord fl) × MemoryDb
  update_found none memory_id u now db = (none, db)
  update_found (some existing) memory_id u now db =
      let updated = updated_memory u now existing in
      (some updated, record db { rows = change_memory memory_id (write_memory updated) db.rows })

  unfoldable pub update_memory :
      ℕ → MemoryUpdate → Text → MemoryDb → Option (MemoryRecord fl) × MemoryDb
  unfolding update_found
  update_memory memory_id u now db = update_found (get_memory memory_id db) memory_id u now db

  -- The links of a deleted memory go with it: ON DELETE CASCADE.
  unfoldable pub delete_memory : ℕ → MemoryDb → Bool × MemoryDb
  delete_memory memory_id db =
      let rows = keep (λ r. not (r.id == memory_id)) db.rows in
      (
        ltb (length rows) (length db.rows),
        record db { rows = rows; links = keep (λ l. not (touches memory_id l)) db.links },
      )

  -- `none` is the IntegrityError of an id that is no memory's; OR IGNORE does not cover it.
  unfoldable pub add_memory_link : ℕ → ℕ → String → MemoryDb → Option MemoryDb
  add_memory_link i j relation db =
      if i == j
      then some db
      else if is_some (get_memory i db) && is_some (get_memory j db)
      then some (record db { links = insert_link j i relation (insert_link i j relation db.links) })
      else none

  unfoldable pub get_linked_memory_ids : ℕ → MemoryDb → List ℕ
  get_linked_memory_ids i db =
      map (λ l. l.related_memory_id) (keep (λ l. l.memory_id == i) db.links)

  unfoldable pub count_memory_links : MemoryDb → ℕ
  count_memory_links db = length db.links
