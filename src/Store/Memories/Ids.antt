-- ===== src/Store/Memories/Ids.antt =====
-- backend/app/memory/_store_memories.py: ids under any sequence of calls.
use cyber_companion.Base.{
  ℕ, ◌+◌, ◌≤◌, ◌<◌, ◌≡◌, refl, String, Bool, false, not, ◌&&◌, Option, none, some, List, [], ◌∷◌,
  arith, keep, ◌==◌, All, str_in, if_keeps, is_some, Bool-cases, inl, inr,
}
use cyber_companion.Base.Text.{Text}
use cyber_companion.Base.Float.{Float}
use cyber_companion.Records.{has_source, MemoryRecord}
use cyber_companion.Store.Memories.{
  memory_types, MemoryDb, has_id, empty_memories, NewMemory, create_memory, get_memory,
  MemoryUpdate, updated_memory, write_memory, change_memory, update_found, update_memory,
  delete_memory, add_memory_link,
}
use cyber_companion.Store.Memories.View.{
  Call, create, change, delete, link, log, created, joined, call, calls,
}
use cyber_companion.Store.Retrieval.Selection.{Distinct, Distinct-keep}

module _ (fl : Float) where
  -- Every id was given, and none twice.
  record IdsOk (db : MemoryDb fl) : Type 0 where
    given : All (λ (m : MemoryRecord fl). m.id ≤ db.last_id) db.rows
    unrepeated : Distinct fl db.rows

  fresh :
      (n k : ℕ) (rs : List (MemoryRecord fl))
      → n < k
      → All (λ (m : MemoryRecord fl). m.id ≤ n) rs
      → has_id fl k rs ≡ false
  fresh n k [] lt h = refl
  fresh n k (r ∷ rs) lt h = ground (arith, lt, h.0, fresh n k rs lt h.1)

  raise :
      (n k : ℕ) (rs : List (MemoryRecord fl))
      → n ≤ k
      → All (λ (m : MemoryRecord fl). m.id ≤ n) rs
      → All (λ (m : MemoryRecord fl). m.id ≤ k) rs
  raise n k [] le h = tt
  raise n k (r ∷ rs) le h = (omega (arith, h.0), raise n k rs le h.1)

  All-keep :
      (n : ℕ) (p : MemoryRecord fl → Bool) (rs : List (MemoryRecord fl))
      → All (λ (m : MemoryRecord fl). m.id ≤ n) rs
      → All (λ (m : MemoryRecord fl). m.id ≤ n) (keep p rs)
  All-keep n p [] h = tt
  All-keep n p (r ∷ rs) h =
      if_keeps (All (λ (m : MemoryRecord fl). m.id ≤ n)) (p r) (h.0, All-keep n p rs h.1)
        (All-keep n p rs h.1)

  create-IdsOk :
      (a : NewMemory fl) (now : Text) (db : MemoryDb fl)
      → IdsOk db
      → IdsOk (call fl (create a now) db).1
  unfolding call created create_memory
  create-IdsOk a now db ok =
      elim (Bool-cases (str_in a.type memory_types && has_source a.source_message_id db.messages)) [
        | inl h ↦ rw h (record {
          given = (omega arith, raise db.last_id (db.last_id + 1) db.rows (omega arith) ok.given);
          unrepeated =
              (fresh db.last_id (db.last_id + 1) db.rows (omega arith) ok.given, ok.unrepeated);
        })
        | inr h ↦ rw h ok
      ]

  has-change :
      (i k : ℕ) (new : MemoryRecord fl) (rs : List (MemoryRecord fl))
      → has_id fl k (change_memory fl i (write_memory fl new) rs) ≡ has_id fl k rs
  unfolding change_memory write_memory
  has-change i k new [] = refl
  has-change i k new (r ∷ rs) = ground (arith, has-change i k new rs)

  given-change :
      (i n : ℕ) (new : MemoryRecord fl) (rs : List (MemoryRecord fl))
      → All (λ (m : MemoryRecord fl). m.id ≤ n) rs
      → All (λ (m : MemoryRecord fl). m.id ≤ n) (change_memory fl i (write_memory fl new) rs)
  unfolding change_memory write_memory
  given-change i n new [] h = tt
  given-change i n new (r ∷ rs) h =
      if_keeps (All (λ (m : MemoryRecord fl). m.id ≤ n)) (r.id == i)
        (h.0, given-change i n new rs h.1) (h.0, given-change i n new rs h.1)

  Distinct-change :
      (i : ℕ) (new : MemoryRecord fl) (rs : List (MemoryRecord fl))
      → Distinct fl rs
      → Distinct fl (change_memory fl i (write_memory fl new) rs)
  unfolding change_memory write_memory
  Distinct-change i new [] d = tt
  Distinct-change i new (r ∷ rs) d =
      let rest : Distinct fl (r ∷ change_memory fl i (write_memory fl new) rs) =
        (rw (has-change i r.id new rs) d.0, Distinct-change i new rs d.1) in
      if_keeps (Distinct fl) (r.id == i) rest rest

  found-IdsOk :
      (o : Option (MemoryRecord fl)) (i : ℕ) (u : MemoryUpdate fl) (now : Text) (db : MemoryDb fl)
      → IdsOk db
      → IdsOk (update_found fl o i u now db).1
  unfolding update_found
  found-IdsOk none i u now db ok = ok
  found-IdsOk (some old) i u now db ok = record {
    given = given-change i db.last_id (updated_memory fl u now old) db.rows ok.given;
    unrepeated = Distinct-change i (updated_memory fl u now old) db.rows ok.unrepeated;
  }

  delete-IdsOk : (i : ℕ) (db : MemoryDb fl) → IdsOk db → IdsOk (delete_memory fl i db).1
  unfolding delete_memory
  delete-IdsOk i db ok = record {
    given = All-keep db.last_id (λ r. not (r.id == i)) db.rows ok.given;
    unrepeated = Distinct-keep fl (λ r. not (r.id == i)) db.rows ok.unrepeated;
  }

  link-IdsOk :
      (i j : ℕ) (relation : String) (db : MemoryDb fl)
      → IdsOk db
      → IdsOk (joined fl db (add_memory_link fl i j relation db)).1
  unfolding joined add_memory_link
  link-IdsOk i j relation db ok = elim (Bool-cases (i == j)) [
    | inl h ↦ rw h ok
    | inr h ↦ elim (Bool-cases (is_some (get_memory fl i db) && is_some (get_memory fl j db))) [
      | inl k ↦ rw (h, k) (record { given = ok.given; unrepeated = ok.unrepeated })
      | inr k ↦ rw (h, k) ok
    ]
  ]

  call-IdsOk : (c : Call fl) (db : MemoryDb fl) → IdsOk db → IdsOk (call fl c db).1
  unfolding call update_memory
  call-IdsOk (create a now) db ok = unfold call in create-IdsOk a now db ok
  call-IdsOk (change i u now) db ok = found-IdsOk (get_memory fl i db) i u now db ok
  call-IdsOk (delete i) db ok = delete-IdsOk i db ok
  call-IdsOk (log messages) db ok = record { given = ok.given; unrepeated = ok.unrepeated }
  call-IdsOk (link i j relation) db ok = link-IdsOk i j relation db ok

  calls-IdsOk : (cs : List (Call fl)) (db : MemoryDb fl) → IdsOk db → IdsOk (calls fl cs db).1
  unfolding calls
  calls-IdsOk [] db ok = ok
  calls-IdsOk (c ∷ cs) db ok = calls-IdsOk cs (call fl c db).1 (call-IdsOk c db ok)

  -- Calls on an empty table never leave two memories with one id.
  pub calls-Distinct : (cs : List (Call fl)) → Distinct fl (calls fl cs (empty_memories fl)).1.rows
  calls-Distinct cs =
      (calls-IdsOk cs (empty_memories fl) (record { given = tt; unrepeated = tt })).unrepeated
