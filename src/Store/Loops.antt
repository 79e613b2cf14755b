-- ===== src/Store/Loops.antt =====
-- backend/app/memory/_store_loops.py: the agenda of open loops. Rows stand with the newest id first.
-- The date parser is a parameter. `messages` holds the ids of the message log, which is in the same
-- database: the foreign key of a loop refers to it.
pub mod Upsert
pub mod Listing
pub mod Agenda
use cyber_companion.Base.{
  ℕ, ◌+◌, String, Bool, true, false, not, ◌&&◌, ◌||◌, Option, none, some, List, [], ◌∷◌, ◌++◌, keep,
  take, ltb, ◌==◌, str_eq, str_in, if◌then◌else◌,
}
use cyber_companion.Base.Text.{Text, codes, strip, is_empty}
use cyber_companion.Base.Dict.{Dict}
use cyber_companion.Base.Float.{Float, clamp01}
use cyber_companion.Records.{Json, has_source}

-- schema.py
abbrev pub open_loop_kinds : List String
open_loop_kinds =
    "future_event" ∷ "commitment" ∷ "follow_up" ∷ "user_goal" ∷ "emotional_thread" ∷ []

abbrev pub open_loop_statuses : List String
open_loop_statuses = "open" ∷ "closed" ∷ "snoozed" ∷ []

-- What `datetime.fromisoformat` makes of a text: no timestamp, one without a zone, or one with a
-- zone, then given by its ISO form in UTC.
pub data Parsed : Type 0 where
  invalid naive : Parsed
  aware : Text → Parsed

-- The ValueErrors of the methods, and the IntegrityError of a source message that is not in the log.
pub data LoopError : Type 0 where
  unsupported_kind unsupported_status bad_timestamp unknown_message : LoopError

pub data Outcome {ℓ} (A : Type ℓ) : Type ℓ where
  done : A → Outcome A
  refused : LoopError → Outcome A

-- `f"{text[:-1]}+00:00"` of a text that ends in Z.
zulu_end : Text → Text
zulu_end [] = []
zulu_end (c ∷ []) = if c == 90 then codes "+00:00" else c ∷ []
zulu_end (c ∷ d ∷ s) = c ∷ zulu_end (d ∷ s)

in_utc : Parsed → Option (Option Text)
in_utc invalid = none
in_utc naive = none
in_utc (aware t) = some (some t)

-- `_normalize_aware_timestamp`; the outer `none` is the ValueError.
unfoldable pub normalize_aware_timestamp : (Text → Parsed) → Option Text → Option (Option Text)
unfolding zulu_end in_utc strip is_empty
normalize_aware_timestamp parse none = some none
normalize_aware_timestamp parse (some value) =
    if is_empty (strip value) then none else in_utc (parse (zulu_end (strip value)))

module _ (fl : Float) where
  open fl use {F}

  -- database.py
  pub record OpenLoopRecord : Type 0 where
    pub id : ℕ
    pub created_at : Text
    pub updated_at : Text
    pub status : String
    pub kind : String
    pub title : Text
    pub summary : Text
    pub due_at : Option Text
    pub last_mentioned_at : Option Text
    pub source_message_id : Option ℕ
    pub priority : F
    pub confidence : F
    pub metadata : Dict (Json fl)

  pub record LoopTable : Type 0 where
    pub rows : List OpenLoopRecord
    pub last_id : ℕ
    pub messages : List ℕ

  -- The keyword arguments of the two writers.
  pub record LoopArgs : Type 0 where
    pub kind : String
    pub title : Text
    pub summary : Text
    pub status : String
    pub due_at : Option Text
    pub last_mentioned_at : Option Text
    pub source_message_id : Option ℕ
    pub priority : F
    pub confidence : F
    pub metadata : Dict (Json fl)

  -- A row of the arguments, with the two timestamps normalized.
  unfoldable pub row_of : ℕ → Text → Text → LoopArgs → Option Text → Option Text → OpenLoopRecord
  row_of id created_at updated_at a due_at last_mentioned_at = record {
    id = id;
    created_at = created_at;
    updated_at = updated_at;
    status = a.status;
    kind = a.kind;
    title = a.title;
    summary = a.summary;
    due_at = due_at;
    last_mentioned_at = last_mentioned_at;
    source_message_id = a.source_message_id;
    priority = clamp01 fl a.priority;
    confidence = clamp01 fl a.confidence;
    metadata = a.metadata;
  }

  -- The timestamps, both or the error of the first that is bad.
  both : Option (Option Text) → Option (Option Text) → Outcome (Option Text × Option Text)
  both none l = refused bad_timestamp
  both (some d) none = refused bad_timestamp
  both (some d) (some l) = done (d, l)

  -- The checks at the head of the two writers.
  unfoldable pub checked : (Text → Parsed) → LoopArgs → Outcome (Option Text × Option Text)
  unfolding both
  checked parse a =
      if not (str_in a.kind open_loop_kinds)
      then refused unsupported_kind
      else if not (str_in a.status open_loop_statuses)
      then refused unsupported_status
      else both (normalize_aware_timestamp parse a.due_at)
          (normalize_aware_timestamp parse a.last_mentioned_at)

  unfoldable pub find_row : ℕ → List OpenLoopRecord → Option OpenLoopRecord
  find_row i [] = none
  find_row i (r ∷ rs) = if r.id == i then some r else find_row i rs

  unfoldable pub get_open_loop : ℕ → LoopTable → Option OpenLoopRecord
  get_open_loop loop_id t = find_row loop_id t.rows

  -- `UPDATE ... WHERE id = ?`
  unfoldable pub change_row :
      ℕ → (OpenLoopRecord → OpenLoopRecord) → List OpenLoopRecord → List OpenLoopRecord
  change_row i f [] = []
  change_row i f (r ∷ rs) =
      let rest = change_row i f rs in if r.id == i then f r ∷ rest else r ∷ rest

  unfoldable pub created :
      LoopArgs
      → Text
      → LoopTable
      → Outcome (Option Text × Option Text)
      → Outcome (OpenLoopRecord × LoopTable)
  created a now t (refused e) = refused e
  created a now t (done (due, last)) =
      let saved = row_of (t.last_id + 1) now now a due last in
      if has_source a.source_message_id t.messages
      then done (saved, record t { rows = saved ∷ t.rows; last_id = t.last_id + 1 })
      else refused unknown_message

  unfoldable pub create_open_loop :
      (Text → Parsed) → LoopArgs → Text → LoopTable → Outcome (OpenLoopRecord × LoopTable)
  create_open_loop parse a now t = created a now t (checked parse a)

  -- The update of the row `old`.
  unfoldable pub updated :
      OpenLoopRecord
      → LoopArgs
      → Text
      → LoopTable
      → Outcome (Option Text × Option Text)
      → Outcome (OpenLoopRecord × LoopTable)
  updated old a now t (refused e) = refused e
  updated old a now t (done (due, last)) =
      let rows = change_row old.id (λ r. row_of r.id r.created_at now a due last) t.rows in
      if has_source a.source_message_id t.messages
      then done (row_of old.id old.created_at now a due last, record t { rows = rows })
      else refused unknown_message

  -- The row that the id names, if there is one.
  unfoldable pub named : Option ℕ → LoopTable → Option OpenLoopRecord
  named none t = none
  named (some loop_id) t = get_open_loop loop_id t

  unfoldable pub upsert_found :
      Option OpenLoopRecord
      → (Text → Parsed)
      → LoopArgs
      → Text
      → Text
      → LoopTable
      → Outcome (OpenLoopRecord × LoopTable)
  upsert_found none parse a sql_now iso_now t = create_open_loop parse a sql_now t
  upsert_found (some old) parse a sql_now iso_now t = updated old a iso_now t (checked parse a)

  -- With `datetime('now')`, which stamps a new row, and `utc_now_iso()`, which stamps an update.
  unfoldable pub upsert_open_loop :
      (Text → Parsed)
      → Option ℕ
      → LoopArgs
      → Text
      → Text
      → LoopTable
      → Outcome (OpenLoopRecord × LoopTable)
  unfolding named
  upsert_open_loop parse loop_id a sql_now iso_now t =
      upsert_found (named loop_id t) parse a sql_now iso_now t

  -- The row is read again after the update.
  unfoldable pub close_open_loop : ℕ → Text → LoopTable → Option OpenLoopRecord × LoopTable
  close_open_loop loop_id now t =
      let closed : LoopTable = record t {
        rows = change_row loop_id (λ r. record r { status = "closed"; updated_at = now }) t.rows;
      } in
      elim (get_open_loop loop_id t) [
        | none ↦ (none, t)
        | some old ↦ (get_open_loop loop_id closed, closed)
      ]
