-- ===== src/Store/Memories/View.antt =====
-- backend/app/memory/_store_memories.py: the memories as a map from ids to records.
use cyber_companion.Base.{
  ℕ, ◌+◌, ◌≡◌, refl, ap, sym, fun_ext, String, Bool, true, false, not, ◌&&◌, Option, none, some,
  List, [], ◌∷◌, arith, any, keep, length, length-keep-le, ltb, ◌==◌, str_in, if◌then◌else◌,
  is_some, Bool-cases, inl, inr,
}
use cyber_companion.Base.Text.{Text}
use cyber_companion.Base.Float.{Float}
use cyber_companion.Records.{has_source, MemoryRecord}
use cyber_companion.Store.Memories.{
  memory_types, MemoryDb, NewMemory, create_memory, find_memory, get_memory, MemoryUpdate,
  updated_memory, write_memory, change_memory, update_found, update_memory, delete_memory,
  add_memory_link,
}

module _ (fl : Float) where
  -- What a caller may ask of the table, with the time of the call.
  pub data Call : Type 0 where
    create : NewMemory fl → Text → Call
    change : ℕ → MemoryUpdate fl → Text → Call
    delete : ℕ → Call
    link : ℕ → ℕ → String → Call
    -- a change of the message log, to the messages of these ids
    log : List ℕ → Call

  pub data Reply : Type 0 where
    memory : Option (MemoryRecord fl) → Reply
    deleted : Bool → Reply
    linked logged refused : Reply

  unfoldable pub created :
      MemoryDb fl → Option (MemoryRecord fl × MemoryDb fl) → Reply × MemoryDb fl
  created db none = (refused, db)
  created db (some (saved, after)) = (memory (some saved), after)

  unfoldable pub joined : MemoryDb fl → Option (MemoryDb fl) → Reply × MemoryDb fl
  joined db none = (refused, db)
  joined db (some after) = (linked, after)

  unfoldable pub call : Call → MemoryDb fl → Reply × MemoryDb fl
  unfolding created joined
  call (create a now) db = created db (create_memory fl a now db)
  call (change i u now) db = let r = update_memory fl i u now db in (memory r.0, r.1)
  call (delete i) db = let r = delete_memory fl i db in (deleted r.0, r.1)
  call (link i j relation) db = joined db (add_memory_link fl i j relation db)
  call (log messages) db = (logged, record db { messages = messages })

  unfoldable pub calls : List Call → MemoryDb fl → List Reply × MemoryDb fl
  calls [] db = ([], db)
  calls (c ∷ cs) db = let r = call c db in let rest = calls cs r.1 in (r.0 ∷ rest.0, rest.1)

  -- The abstract store: the memory that each id has, the last id that was given, and the messages.
  pub record MemoryMap : Type 0 where
    pub contents : ℕ → Option (MemoryRecord fl)
    pub last_id : ℕ
    pub messages : ℕ → Bool

  unfoldable pub view : MemoryDb fl → MemoryMap
  view db = record {
    contents = λ i. get_memory fl i db;
    last_id = db.last_id;
    messages = λ i. any (λ m. m == i) db.messages;
  }

  unfoldable pub assign :
      ℕ → Option (MemoryRecord fl) → (ℕ → Option (MemoryRecord fl)) → ℕ → Option (MemoryRecord fl)
  assign i o contents j = if i == j then o else contents j

  new_record : NewMemory fl → Text → ℕ → MemoryRecord fl
  new_record a now id = record {
    id = id;
    created_at = now;
    updated_at = now;
    type = a.type;
    content = a.content;
    tags = a.tags;
    importance = a.importance;
    confidence = a.confidence;
    expires_at = a.expires_at;
    source_message_id = a.source_message_id;
    metadata = a.metadata;
  }

  -- An update of an id that has no memory is no change.
  changed : ℕ → Option (MemoryRecord fl) → MemoryUpdate fl → Text → MemoryMap → Reply × MemoryMap
  unfolding assign
  changed i none u now m = (memory none, m)
  changed i (some old) u now m =
      let new = some (updated_memory fl u now old) in
      (memory new, record m { contents = assign i new m.contents })

  -- A source message, if one is given, is in the log.
  is_logged : Option ℕ → (ℕ → Bool) → Bool
  is_logged none messages = true
  is_logged (some i) messages = messages i

  source-logged :
      (source : Option ℕ) (messages : List ℕ)
      → is_logged source (λ i. any (λ m. m == i) messages) ≡ has_source source messages
  unfolding is_logged
  source-logged none messages = refl
  source-logged (some i) messages = refl

  unfoldable pub spec : Call → MemoryMap → Reply × MemoryMap
  unfolding assign new_record changed is_logged
  spec (create a now) m =
      let id = m.last_id + 1 in
      let new = some (new_record a now id) in
      if str_in a.type memory_types && is_logged a.source_message_id m.messages
      then (memory new, record m { contents = assign id new m.contents; last_id = id })
      else (refused, m)
  spec (log messages) m = (logged, record m { messages = λ i. any (λ k. k == i) messages })
  spec (change i u now) m = changed i (m.contents i) u now m
  spec (delete i) m =
      (deleted (is_some (m.contents i)), record m { contents = assign i none m.contents })
  spec (link i j relation) m =
      if i == j
      then (linked, m)
      else if is_some (m.contents i) && is_some (m.contents j)
      then (linked, m)
      else (refused, m)

  unfoldable pub specs : List Call → MemoryMap → List Reply × MemoryMap
  specs [] m = ([], m)
  specs (c ∷ cs) m = let r = spec c m in let rest = specs cs r.1 in (r.0 ∷ rest.0, rest.1)

  abbrev pub seen : Reply × MemoryDb fl → Reply × MemoryMap
  seen r = (r.0, view r.1)

  pub find-keep :
      (i j : ℕ) (rs : List (MemoryRecord fl))
      → find_memory fl j (keep (λ r. not (r.id == i)) rs)
        ≡ (if i == j then none else find_memory fl j rs)
  unfolding find_memory
  find-keep i j [] = ground arith
  find-keep i j (r ∷ rs) = ground (arith, find-keep i j rs)

  keep-shorter :
      (i : ℕ) (rs : List (MemoryRecord fl))
      → ltb (length (keep (λ r. not (r.id == i)) rs)) (length rs) ≡ is_some (find_memory fl i rs)
  unfolding find_memory
  keep-shorter i [] = refl
  keep-shorter i (r ∷ rs) =
      ground
        (arith, keep-shorter i rs, length-keep-le (λ (x : MemoryRecord fl). not (x.id == i)) rs)

  find-other :
      (i j : ℕ) (new : MemoryRecord fl) (rs : List (MemoryRecord fl))
      → (i == j) ≡ false
      → find_memory fl j (change_memory fl i (write_memory fl new) rs) ≡ find_memory fl j rs
  unfolding find_memory change_memory write_memory
  find-other i j new [] h = refl
  find-other i j new (r ∷ rs) h = ground (arith, find-other i j new rs h)

  find-changed :
      (i : ℕ) (new : MemoryRecord fl) (rs : List (MemoryRecord fl)) (old : MemoryRecord fl)
      → find_memory fl i rs ≡ some old
      → find_memory fl i (change_memory fl i (write_memory fl new) rs)
        ≡ some (write_memory fl new old)
  unfolding find_memory change_memory write_memory
  find-changed i new [] old h = ground arith
  find-changed i new (r ∷ rs) old h = ground (arith, find-changed i new rs old)

  contents-change :
      (i : ℕ) (u : MemoryUpdate fl) (now : Text) (rs : List (MemoryRecord fl))
      (old : MemoryRecord fl) (j : ℕ)
      → find_memory fl i rs ≡ some old
      → find_memory fl j (change_memory fl i (write_memory fl (updated_memory fl u now old)) rs)
        ≡ assign i (some (updated_memory fl u now old)) (λ k. find_memory fl k rs) j
  unfolding assign write_memory updated_memory
  contents-change i u now rs old j h = ground (
    arith,
    h,
    find-other i j (updated_memory fl u now old) rs,
    find-changed i (updated_memory fl u now old) rs old,
  )

  map_of : (ℕ → Option (MemoryRecord fl)) → ℕ → List ℕ → MemoryMap
  map_of contents last_id messages = record {
    contents = contents;
    last_id = last_id;
    messages = λ i. any (λ m. m == i) messages;
  }

  map_of-ext :
      {c d : ℕ → Option (MemoryRecord fl)} (n : ℕ) (ms : List ℕ)
      → ((j : ℕ) → c j ≡ d j)
      → map_of c n ms ≡ map_of d n ms
  map_of-ext n ms h = ap (λ (e : ℕ → Option (MemoryRecord fl)). map_of e n ms) (fun_ext h)

  contents-create :
      (r : MemoryRecord fl) (rs : List (MemoryRecord fl)) (j : ℕ)
      → find_memory fl j (r ∷ rs) ≡ assign r.id (some r) (λ k. find_memory fl k rs) j
  unfolding find_memory assign
  contents-create r rs j = refl

  seen-create :
      (a : NewMemory fl) (now : Text) (db : MemoryDb fl)
      → seen (call (create a now) db) ≡ spec (create a now) (view db)
  unfolding call spec created create_memory view get_memory new_record map_of
  seen-create a now db =
      elim (Bool-cases (str_in a.type memory_types && has_source a.source_message_id db.messages)) [
        | inl h ↦
            let new = new_record a now (db.last_id + 1) in
            rw (source-logged a.source_message_id db.messages, h)
              (ap (λ (m : MemoryMap). (memory (some new), m))
                (map_of-ext {c = λ j. find_memory fl j (new ∷ db.rows)}
                  {d = assign (db.last_id + 1) (some new) (λ j. find_memory fl j db.rows)}
                  (db.last_id + 1) db.messages (contents-create new db.rows)))
        | inr h ↦ rw (source-logged a.source_message_id db.messages, h) refl
      ]

  seen-found :
      (o : Option (MemoryRecord fl)) (i : ℕ) (u : MemoryUpdate fl) (now : Text) (db : MemoryDb fl)
      → find_memory fl i db.rows ≡ o
      → (let r = update_found fl o i u now db in (memory r.0, view r.1))
        ≡ changed i o u now (view db)
  unfolding update_found view changed get_memory map_of
  seen-found none i u now db h = refl
  seen-found (some old) i u now db h =
      let new = updated_memory fl u now old in
      ap (λ (m : MemoryMap). (memory (some new), m))
        (map_of-ext {c = λ j. find_memory fl j (change_memory fl i (write_memory fl new) db.rows)}
          {d = assign i (some new) (λ j. find_memory fl j db.rows)} db.last_id db.messages
          (λ j. contents-change i u now db.rows old j h))

  seen-change :
      (i : ℕ) (u : MemoryUpdate fl) (now : Text) (db : MemoryDb fl)
      → seen (call (change i u now) db) ≡ spec (change i u now) (view db)
  unfolding call spec update_memory view
  seen-change i u now db = seen-found (get_memory fl i db) i u now db (unfold get_memory in refl)

  seen-delete : (i : ℕ) (db : MemoryDb fl) → seen (call (delete i) db) ≡ spec (delete i) (view db)
  unfolding call spec delete_memory view get_memory map_of
  seen-delete i db = rw (keep-shorter i db.rows) (
      ap (λ (m : MemoryMap). (deleted (is_some (find_memory fl i db.rows)), m))
        (map_of-ext
          {c = λ j. find_memory fl j (keep (λ (r : MemoryRecord fl). not (r.id == i)) db.rows)}
          {d = assign i none (λ j. find_memory fl j db.rows)} db.last_id db.messages
          (λ j. unfold assign in find-keep i j db.rows)))

  seen-link :
      (i j : ℕ) (relation : String) (db : MemoryDb fl)
      → seen (call (link i j relation) db) ≡ spec (link i j relation) (view db)
  unfolding call spec joined add_memory_link view get_memory
  seen-link i j relation db = elim (Bool-cases (i == j)) [
    | inl h ↦ rw h refl
    | inr h ↦
        elim (Bool-cases
          (is_some (find_memory fl i db.rows) && is_some (find_memory fl j db.rows))) [
            | inl k ↦ rw (h, k) refl
            | inr k ↦ rw (h, k) refl
          ]
  ]

  -- A call answers as the abstract store does, and leaves what the abstract store leaves.
  pub call-refines : (c : Call) (db : MemoryDb fl) → seen (call c db) ≡ spec c (view db)
  call-refines (create a now) db = seen-create a now db
  call-refines (log messages) db = unfold call spec view get_memory in refl
  call-refines (change i u now) db = seen-change i u now db
  call-refines (delete i) db = seen-delete i db
  call-refines (link i j relation) db = seen-link i j relation db

  -- Any sequence of calls, from any table, with any changes of the message log in between, gets the
  -- replies that the abstract map of ids to memories gives, which refuses a memory of an unsupported
  -- type or with a source message that is not in the log, and leaves a table that reads as that map.
  pub calls-refines :
      (cs : List Call) (db : MemoryDb fl)
      → specs cs (view db) ≡ (let r = calls cs db in (r.0, view r.1))
  unfolding calls specs
  calls-refines [] db = refl
  calls-refines (c ∷ cs) db =
      let r = call c db in rw (sym (call-refines c db), calls-refines cs r.1) refl
