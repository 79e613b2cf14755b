-- ===== src/Store/Memories/Links.antt =====
-- backend/app/memory/_store_memories.py: the links between memories, under any sequence of calls.
use cyber_companion.Base.{
  ℕ, ◌≡◌, refl, String, Bool, true, false, not, ◌&&◌, ◌||◌, Option, none, some, List, [], ◌∷◌, ◌++◌,
  map, arith, keep, any, ◌==◌, str_in, is_some, if_cases, Bool-cases, inl, inr,
}
use cyber_companion.Base.Text.{Text}
use cyber_companion.Base.Float.{Float}
use cyber_companion.Records.{has_source, MemoryRecord}
use cyber_companion.Store.Memories.{
  memory_types, LinkRow, joins, touches, insert_link, MemoryDb, empty_memories, NewMemory,
  create_memory, find_memory, get_memory, MemoryUpdate, updated_memory, write_memory, change_memory,
  update_found, update_memory, delete_memory, add_memory_link, get_linked_memory_ids,
}
use cyber_companion.Store.Memories.View.{
  Call, create, change, delete, link, log, created, joined, call, calls, find-keep,
}

-- `j in get_linked_memory_ids(i)`
unfoldable pub names : ℕ → List ℕ → Bool
names j ids = any (λ k. k == j) ids

abbrev joined_by : ℕ → ℕ → List LinkRow → Bool
joined_by i j links = any (joins i j) links

any-append :
    (i j : ℕ) (ls ks : List LinkRow)
    → joined_by i j (ls ++ ks) ≡ (joined_by i j ls || joined_by i j ks)
any-append i j [] ks = refl
any-append i j (l ∷ ls) ks = ground (arith, any-append i j ls ks)

joined-same :
    {a b i j : ℕ} (ls : List LinkRow) → a ≡ i → b ≡ j → joined_by a b ls ≡ joined_by i j ls
joined-same ls p q = rw (p, q) refl

joined-insert :
    (a b i j : ℕ) (relation : String) (ls : List LinkRow)
    → joined_by i j (insert_link a b relation ls) ≡ (joined_by i j ls || (a == i && b == j))
unfolding insert_link
joined-insert a b i j relation ls =
    let new : LinkRow = record { memory_id = a; related_memory_id = b; relation = relation } in
    if_cases (λ after. joined_by i j after ≡ (joined_by i j ls || (a == i && b == j)))
      (joined_by a b ls) (λ h. ground (arith, h, joined-same {a = a} {b = b} {i = i} {j = j} ls))
      (λ h. ground (arith, any-append i j ls (new ∷ [])))

joined-keep :
    (k i j : ℕ) (ls : List LinkRow)
    → joined_by i j (keep (λ l. not (touches k l)) ls)
      ≡ (joined_by i j ls && not (i == k) && not (j == k))
joined-keep k i j [] = refl
joined-keep k i j (l ∷ ls) = ground (arith, joined-keep k i j ls)

names-joined :
    (i j : ℕ) (ls : List LinkRow)
    → names j
        (map (λ (l : LinkRow). l.related_memory_id) (keep (λ (l : LinkRow). l.memory_id == i) ls))
      ≡ joined_by i j ls
unfolding names
names-joined i j [] = refl
names-joined i j (l ∷ ls) = ground (arith, names-joined i j ls)

module _ (fl : Float) where
  -- Links go both ways, no memory is linked to itself, and both ends are memories.
  record LinksOk (db : MemoryDb fl) : Type 0 where
    symmetric : (i j : ℕ) → joined_by i j db.links ≡ joined_by j i db.links
    loopless : (i : ℕ) → joined_by i i db.links ≡ false
    live : (i j : ℕ) → joined_by i j db.links ≡ true → is_some (find_memory fl i db.rows) ≡ true

  empty-LinksOk : LinksOk (empty_memories fl)
  empty-LinksOk = record {
    symmetric = λ i j. refl;
    loopless = λ i. refl;
    live = λ i j h. ground (arith, h);
  }

  create-LinksOk :
      (a : NewMemory fl) (now : Text) (db : MemoryDb fl)
      → LinksOk db
      → LinksOk (call fl (create a now) db).1
  unfolding call created create_memory
  create-LinksOk a now db ok =
      elim (Bool-cases (str_in a.type memory_types && has_source a.source_message_id db.messages)) [
        | inl h ↦ rw h (record {
          symmetric = ok.symmetric;
          loopless = ok.loopless;
          live = λ i j k. unfold find_memory in ground (arith, ok.live i j k);
        })
        | inr h ↦ rw h ok
      ]

  same_ids :
      (i j : ℕ) (new : MemoryRecord fl) (rs : List (MemoryRecord fl))
      → is_some (find_memory fl j (change_memory fl i (write_memory fl new) rs))
        ≡ is_some (find_memory fl j rs)
  unfolding find_memory change_memory write_memory
  same_ids i j new [] = refl
  same_ids i j new (r ∷ rs) = ground (arith, same_ids i j new rs)

  found-LinksOk :
      (o : Option (MemoryRecord fl)) (i : ℕ) (u : MemoryUpdate fl) (now : Text) (db : MemoryDb fl)
      → LinksOk db
      → LinksOk (update_found fl o i u now db).1
  unfolding update_found
  found-LinksOk none i u now db ok = ok
  found-LinksOk (some old) i u now db ok = record {
    symmetric = ok.symmetric;
    loopless = ok.loopless;
    live = λ k j h. rw (same_ids i k (updated_memory fl u now old) db.rows) (ok.live k j h);
  }

  delete-LinksOk : (i : ℕ) (db : MemoryDb fl) → LinksOk db → LinksOk (delete_memory fl i db).1
  unfolding delete_memory
  delete-LinksOk i db ok = record {
    symmetric = λ k j.
        rw (joined-keep i k j db.links, joined-keep i j k db.links, ok.symmetric k j)
          (ground arith);
    loopless = λ k. rw (joined-keep i k k db.links, ok.loopless k) refl;
    live = λ k j h.
        rw (find-keep fl i k db.rows) (ground (arith, joined-keep i k j db.links, ok.live k j));
  }

  both-LinksOk :
      (a b : ℕ) (relation : String) (db : MemoryDb fl)
      → (a == b) ≡ false
      → is_some (find_memory fl a db.rows) && is_some (find_memory fl b db.rows) ≡ true
      → LinksOk db
      → LinksOk (record db { links = insert_link b a relation (insert_link a b relation db.links) })
  both-LinksOk a b relation db distinct known ok =
      let once = insert_link a b relation db.links in
      let after : (i j : ℕ)
          → joined_by i j (insert_link b a relation once)
            ≡ ((joined_by i j db.links || (a == i && b == j)) || (b == i && a == j)) =
        λ i j.
          rw (joined-insert b a i j relation once, joined-insert a b i j relation db.links) refl in
      record {
        symmetric = λ i j. rw (after i j, after j i, ok.symmetric i j) (ground arith);
        loopless = λ i. rw (after i i, ok.loopless i) (ground (arith, distinct));
        live = λ i j h. ends i j (after i j) h;
      }
    where
      ends :
          (i j : ℕ) {linked : Bool}
          → linked ≡ ((joined_by i j db.links || (a == i && b == j)) || (b == i && a == j))
          → linked ≡ true
          → is_some (find_memory fl i db.rows) ≡ true
      ends i j e h = ground (arith, known, ok.live i j, e, h, at a i, at b i)
        where
          at : (k l : ℕ) → k ≡ l → find_memory fl k db.rows ≡ find_memory fl l db.rows
          at k l e = rw e refl

  link-LinksOk :
      (i j : ℕ) (relation : String) (db : MemoryDb fl)
      → LinksOk db
      → LinksOk (joined fl db (add_memory_link fl i j relation db)).1
  unfolding joined add_memory_link get_memory
  link-LinksOk i j relation db ok = elim (Bool-cases (i == j)) [
    | inl h ↦ rw h ok
    | inr h ↦
        elim (Bool-cases
          (is_some (find_memory fl i db.rows) && is_some (find_memory fl j db.rows))) [
            | inl k ↦ rw (h, k) (both-LinksOk i j relation db h k ok)
            | inr k ↦ rw (h, k) ok
          ]
  ]

  call-LinksOk : (c : Call fl) (db : MemoryDb fl) → LinksOk db → LinksOk (call fl c db).1
  unfolding call update_memory
  call-LinksOk (create a now) db ok = unfold call in create-LinksOk a now db ok
  call-LinksOk (change i u now) db ok = found-LinksOk (get_memory fl i db) i u now db ok
  call-LinksOk (delete i) db ok = delete-LinksOk i db ok
  call-LinksOk (log messages) db ok = record {
    symmetric = ok.symmetric;
    loopless = ok.loopless;
    live = ok.live;
  }
  call-LinksOk (link i j relation) db ok = link-LinksOk i j relation db ok

  calls-LinksOk : (cs : List (Call fl)) (db : MemoryDb fl) → LinksOk db → LinksOk (calls fl cs db).1
  unfolding calls
  calls-LinksOk [] db ok = ok
  calls-LinksOk (c ∷ cs) db ok = calls-LinksOk cs (call fl c db).1 (call-LinksOk c db ok)

  linked-names :
      (i j : ℕ) (db : MemoryDb fl)
      → names j (get_linked_memory_ids fl i db) ≡ joined_by i j db.links
  unfolding get_linked_memory_ids
  linked-names i j db = names-joined i j db.links

  -- After any sequence of calls on an empty table: a memory is listed among the links of another
  -- exactly if the other is among its own, never among its own links, and only if both are there.
  pub calls-links :
      (cs : List (Call fl)) (i j : ℕ)
      → let db = (calls fl cs (empty_memories fl)).1 in
        (names j (get_linked_memory_ids fl i db) ≡ names i (get_linked_memory_ids fl j db))
        × (names i (get_linked_memory_ids fl i db) ≡ false)
        × (names j (get_linked_memory_ids fl i db) ≡ (
            names j (get_linked_memory_ids fl i db)
            && is_some (get_memory fl i db)
            && is_some (get_memory fl j db)))
  calls-links cs i j =
      let db = (calls fl cs (empty_memories fl)).1 in
      let ok = calls-LinksOk cs (empty_memories fl) empty-LinksOk in
      rw (linked-names i j db, linked-names j i db, linked-names i i db)
        (
          ok.symmetric i j,
          ok.loopless i,
          unfold get_memory in ground (arith, ok.live i j, ok.live j i, ok.symmetric i j),
        )
