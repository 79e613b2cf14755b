-- ===== src/Store/WritePolicy/Growth.antt =====
-- backend/app/memory/write_policy.py: what a turn may change in the memories.
use cyber_companion.Base.{
  ℕ, suc, ◌+◌, ◌≤◌, ◌≡◌, refl, ◌∙◌, String, not, ◌&&◌, Option, none, some, List, [], ◌∷◌, arith,
  take, length, length-take, leb, str_in, if_keeps,
}
use cyber_companion.Base.Text.{Text}
use cyber_companion.Base.Float.{Float}
use cyber_companion.Records.{Json, has_source, MemoryRecord}
use cyber_companion.Store.Budget.{BudgetConfig}
use cyber_companion.Store.Tokens.{Lexer}
use cyber_companion.Store.Memories.{
  memory_types, MemoryDb, NewMemory, create_memory, find_memory, get_memory, MemoryUpdate,
  list_memories, updated_memory, write_memory, change_memory, update_found, update_memory,
}
use cyber_companion.Store.Candidates.{
  Patterns, MemoryWriteCandidate, min_write_confidence, extract_memory_candidates,
}
use cyber_companion.Store.WritePolicy.{
  Now, Written, find_similar, new_written, persist_found, persist_listed, and_then, one_signal,
  persist_candidate, written_more, persist_all, maybe_write_memories_from_turn,
  validate_signal_memory, write_signals, write_memories_from_signals, or_from_text, signal_items,
  record_turn_memories,
}
use cyber_companion.Store.Candidates.Count.{length-extract_memory_candidates}
use cyber_companion.Behavior.Rules.{Tools}
use cyber_companion.Behavior.Signals.{Converted}

module _ (fl : Float) where
  -- What no write of a memory changes: its type, the time of its creation and its source.
  abbrev pub origin : Option (MemoryRecord fl) → Option (String × Text × Option ℕ)
  origin none = none
  origin (some r) = some (r.type, r.created_at, r.source_message_id)

  -- The second table holds every memory of the first, and at most `n` more.
  record Grows (n : ℕ) (db db' : MemoryDb fl) : Type 0 where
    ids : db.last_id ≤ db'.last_id
    kept : (j : ℕ) → j ≤ db.last_id → origin (get_memory fl j db') ≡ origin (get_memory fl j db)
    rows : length db'.rows ≤ length db.rows + n
    links : db'.links ≡ db.links

  Grows-same : (n : ℕ) (db : MemoryDb fl) → Grows n db db
  Grows-same n db = record {
    ids = omega arith;
    kept = λ j h. refl;
    rows = omega arith;
    links = refl;
  }

  Grows-trans : {m n : ℕ} {a b c : MemoryDb fl} → Grows m a b → Grows n b c → Grows (m + n) a c
  Grows-trans {m = m} {n = n} g h = record {
    ids = omega (arith, g.ids, h.ids);
    kept = λ j le. h.kept j (omega (arith, g.ids, le)) ∙ g.kept j le;
    rows = omega (arith, g.rows, h.rows);
    links = h.links ∙ g.links;
  }

  Grows-more : {m n : ℕ} {a b : MemoryDb fl} → m ≤ n → Grows m a b → Grows n a b
  Grows-more le g = record {
    ids = g.ids;
    kept = g.kept;
    rows = omega (arith, g.rows, le);
    links = g.links;
  }

  -- The same of a step that may end in an exception, which then has written nothing.
  Fits {ℓ} : {A : Type ℓ} → MemoryDb fl → Option (A × MemoryDb fl) → Type 0
  Fits db none = Unit
  Fits db (some (a, db')) = Grows 1 db db'

  create-Fits :
      (a : NewMemory fl) (now : Text) (db : MemoryDb fl) → Fits db (create_memory fl a now db)
  unfolding create_memory Fits
  create-Fits a now db =
      if_keeps (Fits db) (str_in a.type memory_types && has_source a.source_message_id db.messages)
        (record {
          ids = omega arith;
          kept = λ j h. unfold get_memory find_memory in ground (arith, h);
          rows = omega arith;
          links = refl;
        })
        tt

  change-length :
      (i : ℕ) (f : MemoryRecord fl → MemoryRecord fl) (rs : List (MemoryRecord fl))
      → length (change_memory fl i f rs) ≡ length rs
  unfolding change_memory
  change-length i f [] = refl
  change-length i f (r ∷ rs) = ground (arith, change-length i f rs)

  change-origin :
      (i j : ℕ) (new : MemoryRecord fl) (rs : List (MemoryRecord fl))
      → origin (find_memory fl j (change_memory fl i (write_memory fl new) rs))
        ≡ origin (find_memory fl j rs)
  unfolding change_memory find_memory write_memory
  change-origin i j new [] = refl
  change-origin i j new (r ∷ rs) = ground (arith, change-origin i j new rs)

  update-Grows :
      (o : Option (MemoryRecord fl)) (i : ℕ) (u : MemoryUpdate fl) (now : Text) (db : MemoryDb fl)
      → Grows 1 db (update_found fl o i u now db).1
  unfolding update_found
  update-Grows none i u now db = Grows-same 1 db
  update-Grows (some old) i u now db =
      let new = updated_memory fl u now old in
      record {
        ids = omega arith;
        kept = λ j h. unfold get_memory in change-origin i j new db.rows;
        rows = omega (arith, change-length i (write_memory fl new) db.rows);
        links = refl;
      }

  new-Fits :
      (o : Option (MemoryRecord fl × MemoryDb fl)) (db : MemoryDb fl)
      → Fits db o
      → Fits db (new_written fl o)
  unfolding new_written Fits
  new-Fits none db h = tt
  new-Fits (some (saved, db')) db h = h

  found-Fits :
      (o : Option (MemoryRecord fl)) (c : MemoryWriteCandidate fl) (source : Option ℕ)
      (writer : String) (now : Now) (db : MemoryDb fl)
      → Fits db (persist_found fl o c source writer now db)
  unfolding persist_found
  found-Fits none c source writer now db =
      new-Fits (create_memory fl _ now.sql db) db (create-Fits _ now.sql db)
  found-Fits (some old) c source writer now db =
      unfold Fits update_memory in update-Grows (get_memory fl old.id db) old.id _ now.iso db

  listed-Fits :
      (o : Option (List (MemoryRecord fl))) (lexer : Lexer) (c : MemoryWriteCandidate fl)
      (source : Option ℕ) (writer : String) (now : Now) (db : MemoryDb fl)
      → Fits db (persist_listed fl o lexer c source writer now db)
  unfolding persist_listed
  listed-Fits none lexer c source writer now db = unfold Fits in tt
  listed-Fits (some listed) lexer c source writer now db =
      found-Fits (find_similar fl lexer c.content listed) c source writer now db

  persist-Fits :
      (lexer : Lexer) (c : MemoryWriteCandidate fl) (source : Option ℕ) (writer : String)
      (now : Now) (db : MemoryDb fl)
      → Fits db (persist_candidate fl lexer c source writer now db)
  unfolding persist_candidate
  persist-Fits lexer c source writer now db =
      listed-Fits (list_memories fl (some c.type) 50 db) lexer c source writer now db

  -- What a loop of at most `n` writes leaves: no more rows than it has written.
  Wrote : ℕ → MemoryDb fl → Written fl → Type 0
  Wrote n db (none, db') = Grows n db db'
  Wrote n db (some ms, db') = Grows (length ms) db db' × (length ms ≤ n)

  Wrote-nothing : (n : ℕ) (db : MemoryDb fl) → Wrote n db (some [], db)
  unfolding Wrote
  Wrote-nothing n db = (Grows-same 0 db, omega arith)

  Wrote-more : (n : ℕ) (db : MemoryDb fl) (w : Written fl) → Wrote n db w → Wrote (suc n) db w
  unfolding Wrote
  Wrote-more n db (none, db') h = Grows-more (omega arith) h
  Wrote-more n db (some ms, db') h = (h.0, omega (arith, h.1))

  more-Wrote :
      (n : ℕ) (m : Option (MemoryRecord fl)) (db db' : MemoryDb fl) (w : Written fl)
      → Grows 1 db db'
      → Wrote n db' w
      → Wrote (suc n) db (written_more fl m w)
  unfolding Wrote written_more
  more-Wrote n m db db' (none, db'') g h = Grows-more (omega arith) (Grows-trans g h)
  more-Wrote n m db db' (some ms, db'') g h =
      (Grows-more (omega arith) (Grows-trans g h.0), omega (arith, h.1))

  then-Wrote :
      (n : ℕ) (o : Option (Option (MemoryRecord fl) × MemoryDb fl)) (db : MemoryDb fl)
      (rest : MemoryDb fl → Written fl)
      → Fits db o
      → ((db' : MemoryDb fl) → Wrote n db' (rest db'))
      → Wrote (suc n) db (and_then fl o db rest)
  unfolding and_then
  then-Wrote n none db rest f h = unfold Wrote in Grows-same (suc n) db
  then-Wrote n (some (m, db')) db rest f h =
      more-Wrote n m db db' (rest db') (unfold Fits in f) (h db')

  all-Wrote :
      (lexer : Lexer) (cs : List (MemoryWriteCandidate fl)) (source : Option ℕ) (writer : String)
      (now : Now) (db : MemoryDb fl)
      → Wrote (length cs) db (persist_all fl lexer cs source writer now db)
  unfolding persist_all
  all-Wrote lexer [] source writer now db = Wrote-nothing 0 db
  all-Wrote lexer (c ∷ cs) source writer now db =
      then-Wrote (length cs) (persist_candidate fl lexer c source writer now db) db _
        (persist-Fits lexer c source writer now db)
        (λ db'. all-Wrote lexer cs source writer now db')

  at_most : {m n : ℕ} (db : MemoryDb fl) (w : Written fl) → m ≤ n → Wrote m db w → Wrote n db w
  unfolding Wrote
  at_most db (none, db') le h = Grows-more le h
  at_most db (some ms, db') le h = (h.0, omega (arith, h.1, le))

  text-Wrote :
      (tools : Tools) (patterns : Patterns) (config : BudgetConfig fl) (user_input : Text)
      (source : Option ℕ) (now : Now) (db : MemoryDb fl)
      → Wrote 5 db
          (maybe_write_memories_from_turn fl tools patterns config user_input source now db)
  unfolding maybe_write_memories_from_turn
  text-Wrote tools patterns config user_input source now db =
      let cs = extract_memory_candidates fl tools patterns user_input in
      if_keeps (Wrote 5 db) config.auto_memory_write
        (at_most db (persist_all fl tools.lexer cs source "rule_based" now db)
          (length-extract_memory_candidates fl tools patterns user_input)
          (all-Wrote tools.lexer cs source "rule_based" now db))
        (Wrote-nothing 5 db)

  module _ (to_float : Json fl → Converted fl.F) (to_str : Json fl → Text) where
    signal-Wrote :
        (n : ℕ) (o : Option (Option (MemoryWriteCandidate fl))) (lexer : Lexer) (source : Option ℕ)
        (now : Now) (db : MemoryDb fl) (rest : MemoryDb fl → Written fl)
        → ((db' : MemoryDb fl) → Wrote n db' (rest db'))
        → Wrote (suc n) db (one_signal fl to_float to_str o lexer source now db rest)
    unfolding one_signal
    signal-Wrote n none lexer source now db rest h = unfold Wrote in Grows-same (suc n) db
    signal-Wrote n (some none) lexer source now db rest h = Wrote-more n db (rest db) (h db)
    signal-Wrote n (some (some c)) lexer source now db rest h =
        if_keeps (Wrote (suc n) db) (fl.lt c.confidence (min_write_confidence fl))
          (Wrote-more n db (rest db) (h db))
          (then-Wrote n (persist_candidate fl lexer c source "llm" now db) db rest
            (persist-Fits lexer c source "llm" now db) h)

    signals-Wrote :
        (lexer : Lexer) (raws : List (Json fl)) (source : Option ℕ) (now : Now) (db : MemoryDb fl)
        → Wrote (length raws) db (write_signals fl to_float to_str lexer raws source now db)
    unfolding write_signals
    signals-Wrote lexer [] source now db = Wrote-nothing 0 db
    signals-Wrote lexer (raw ∷ raws) source now db =
        signal-Wrote (length raws) (validate_signal_memory fl to_float to_str raw) lexer source now
          db _ (λ db'. signals-Wrote lexer raws source now db')

    from_signals-Wrote :
        (lexer : Lexer) (config : BudgetConfig fl) (raws : List (Json fl)) (source : Option ℕ)
        (now : Now) (db : MemoryDb fl)
        → Wrote 5 db
            (write_memories_from_signals fl to_float to_str lexer config raws source now db)
    unfolding write_memories_from_signals
    from_signals-Wrote lexer config raws source now db =
        if_keeps (Wrote 5 db) config.auto_memory_write
          (at_most db (write_signals fl to_float to_str lexer (take 5 raws) source now db)
            (omega (arith, length-take 5 raws)) (signals-Wrote lexer (take 5 raws) source now db))
          (Wrote-nothing 5 db)

    Wrote-Grows : (db : MemoryDb fl) (w : Written fl) → Wrote 5 db w → Grows 5 db w.1
    unfolding Wrote
    Wrote-Grows db (none, db') h = h
    Wrote-Grows db (some ms, db') h = Grows-more h.1 h.0

    or-Grows :
        (db : MemoryDb fl) (w : Written fl) (otherwise : MemoryDb fl → Written fl)
        → Wrote 5 db w
        → ((db' : MemoryDb fl) → Wrote 5 db' (otherwise db'))
        → Grows 5 db (or_from_text fl to_float to_str w otherwise).1
    unfolding or_from_text Wrote
    or-Grows db (none, db') otherwise h k = h
    or-Grows db (some [], db') otherwise h k =
        Grows-trans h.0 (Wrote-Grows db' (otherwise db') (k db'))
    or-Grows db (some (m ∷ ms), db') otherwise h k = Grows-more h.1 h.0

    record-Grows :
        (tools : Tools) (patterns : Patterns) (config : BudgetConfig fl) (user_input : Text)
        (signals : Option (Json fl)) (source : Option ℕ) (now : Now) (db : MemoryDb fl)
        → Grows 5 db
            (record_turn_memories fl to_float to_str tools patterns config user_input signals source
              now db).1
    unfolding record_turn_memories
    record-Grows tools patterns config user_input signals source now db =
        let from_text =
          maybe_write_memories_from_turn fl tools patterns config user_input source now in
        let raws = signal_items fl to_float to_str signals in
        if_keeps (λ (w : Written fl). Grows 5 db w.1) (not config.auto_memory_write)
          (Grows-same 5 db)
          (if_keeps (λ (w : Written fl). Grows 5 db w.1)
            (config.llm_memory_extraction && leb 1 (length raws))
            (or-Grows db
              (write_memories_from_signals fl to_float to_str tools.lexer config raws source now db)
              from_text (from_signals-Wrote tools.lexer config raws source now db)
              (text-Wrote tools patterns config user_input source now))
            (Wrote-Grows db (from_text db)
              (text-Wrote tools patterns config user_input source now db)))

    -- Whatever the signals and the text, with an exception on the way or not: a turn removes no
    -- memory and no link, leaves the type, the creation time and the source message of every memory
    -- as they were, and adds at most five memories.
    pub record_turn_memories-keeps :
        (tools : Tools) (patterns : Patterns) (config : BudgetConfig fl) (user_input : Text)
        (signals : Option (Json fl)) (source : Option ℕ) (now : Now) (db : MemoryDb fl) (j : ℕ)
        → j ≤ db.last_id
        → let db' =
            (record_turn_memories fl to_float to_str tools patterns config user_input signals source
              now db).1 in
          (origin (get_memory fl j db') ≡ origin (get_memory fl j db))
          × (length db'.rows ≤ length db.rows + 5)
          × (db'.links ≡ db.links)
    record_turn_memories-keeps tools patterns config user_input signals source now db j h =
        let grows = record-Grows tools patterns config user_input signals source now db in
        (grows.kept j h, grows.rows, grows.links)
