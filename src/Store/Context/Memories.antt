-- ===== src/Store/Context/Memories.antt =====
-- backend/app/memory/context_builder.py: the memories of a turn.
use cyber_companion.Base.{
  ℕ, ◌+◌, ◌/◌, ◌≤◌, max, ◌≡◌, refl, subst, ap, true, false, not, ◌||◌, Option, none, some, List, [],
  ◌∷◌, ◌++◌, arith, some-injective, keep, take, length, length-append, length-take, append_assoc,
  append-nil, ◌==◌, leb, All, All-append, All-take, if_keeps, if_cases, ==_iff,
}
use cyber_companion.Base.Text.{Text}
use cyber_companion.Base.Float.{Float}
use cyber_companion.Records.{MemoryRecord}
use cyber_companion.Store.Tokens.{Lexer}
use cyber_companion.Store.Memories.{
  MemoryDb, has_id, find_memory, get_memory, insert_memory, ordered_memories, list_memories, newer,
  get_linked_memory_ids,
}
use cyber_companion.Store.Retrieval.{Stamp, is_expired, insert_ranked, rank_memories, ranks_below}
use cyber_companion.Store.Retrieval.Selection.{
  Distinct, has-append, Distinct-keep, Distinct-take, Distinct-snoc, Distinct-ordered,
  Distinct-rank,
}
use cyber_companion.Store.Context.{
  active_memories, follow, follow_all, link_extra_cap, select_memories,
}

module _ (fl : Float) where
  -- Sorting and filtering keep what holds of every memory.
  module _ (P : MemoryRecord fl → Type 0) where
    All-insert_memory :
        (m : MemoryRecord fl) (ys : List (MemoryRecord fl))
        → P m
        → All P ys
        → All P (insert_memory fl m ys)
    unfolding insert_memory
    All-insert_memory m [] hm h = (hm, tt)
    All-insert_memory m (y ∷ ys) hm h =
        if_keeps (All P) (newer fl m y) (hm, h) (h.0, All-insert_memory m ys hm h.1)

    All-ordered : (xs : List (MemoryRecord fl)) → All P xs → All P (ordered_memories fl xs)
    unfolding ordered_memories
    All-ordered [] h = tt
    All-ordered (x ∷ xs) h = All-insert_memory x (ordered_memories fl xs) h.0 (All-ordered xs h.1)

    All-insert_ranked :
        (lexer : Lexer) (query : Text) (m : MemoryRecord fl) (ys : List (MemoryRecord fl))
        → P m
        → All P ys
        → All P (insert_ranked fl lexer query m ys)
    unfolding insert_ranked
    All-insert_ranked lexer query m [] hm h = (hm, tt)
    All-insert_ranked lexer query m (y ∷ ys) hm h =
        if_keeps (All P) (ranks_below fl lexer query m y)
          (h.0, All-insert_ranked lexer query m ys hm h.1) (hm, h)

    All-rank :
        (lexer : Lexer) (query : Text) (xs : List (MemoryRecord fl))
        → All P xs
        → All P (rank_memories fl lexer xs query)
    unfolding rank_memories
    All-rank lexer query [] h = tt
    All-rank lexer query (x ∷ xs) h =
        All-insert_ranked lexer query x (rank_memories fl lexer xs query) h.0
          (All-rank lexer query xs h.1)

    -- A memory that is found is one of the list, and has the id.
    found-All :
        (i : ℕ) (xs : List (MemoryRecord fl)) (m : MemoryRecord fl)
        → All P xs
        → find_memory fl i xs ≡ some m
        → P m × (m.id ≡ i)
    unfolding find_memory
    found-All i [] m h = λ e. absurd (ground (arith, e))
    found-All i (x ∷ xs) m h =
        if_cases (λ o. o ≡ some m → P m × (m.id ≡ i)) (x.id == i)
          (λ same e.
            subst (λ r. P r × (r.id ≡ i)) (some-injective x m e) (h.0, (==_iff x.id i).0 same))
          (λ other. found-All i xs m h.1)

  -- In a table without repeated ids, every row is what its id finds.
  Reads : List (MemoryRecord fl) → MemoryRecord fl → Type 0
  Reads rows m = find_memory fl m.id rows ≡ some m

  All-map :
      (P Q : MemoryRecord fl → Type 0) (xs : List (MemoryRecord fl))
      → ((m : MemoryRecord fl) → P m → Q m)
      → All P xs
      → All Q xs
  All-map P Q [] f h = tt
  All-map P Q (x ∷ xs) f h = (f x h.0, All-map P Q xs f h.1)

  find-has :
      (i : ℕ) (rs : List (MemoryRecord fl)) (m : MemoryRecord fl)
      → find_memory fl i rs ≡ some m
      → has_id fl i rs ≡ true
  unfolding find_memory
  find-has i [] m h = ground (arith, h)
  find-has i (r ∷ rs) m h = ground (arith, h, find-has i rs m)

  same-id : {i j : ℕ} (rs : List (MemoryRecord fl)) → i ≡ j → has_id fl i rs ≡ has_id fl j rs
  same-id rs e = ap (λ k. has_id fl k rs) e

  rows-Reads : (rows : List (MemoryRecord fl)) → Distinct fl rows → All (Reads rows) rows
  unfolding Reads
  rows-Reads [] d = tt
  rows-Reads (r ∷ rs) d = (
    unfold find_memory in ground arith,
    All-map (Reads rs) (Reads (r ∷ rs)) rs
        (λ m h.
          unfold Reads find_memory in
          ground (arith, h, d.0, find-has m.id rs m, same-id {i = r.id} {j = m.id} rs))
        (rows-Reads rs d.1),
  )

  module _ (from_iso : Text → Stamp) (now_iso : Text) (db : MemoryDb fl) where
    -- A memory that has not expired, as the store holds it.
    abbrev Live : MemoryRecord fl → Type 0
    Live m = (is_expired fl from_iso m now_iso ≡ false) × (get_memory fl m.id db ≡ some m)

    keep-Live :
        (xs : List (MemoryRecord fl))
        → All (Reads db.rows) xs
        → All Live (keep (λ m. not (is_expired fl from_iso m now_iso)) xs)
    unfolding Reads
    keep-Live [] h = tt
    keep-Live (x ∷ xs) h =
        if_cases (All Live) (not (is_expired fl from_iso x now_iso))
          (λ fresh. ((ground (arith, fresh), unfold get_memory in h.0), keep-Live xs h.1))
          (λ stale. keep-Live xs h.1)

    active-Live : Distinct fl db.rows → All Live (active_memories fl from_iso now_iso db)
    unfolding active_memories list_memories Reads
    active-Live d =
        let rows = ordered_memories fl db.rows in
        keep-Live (take 200 rows) (
          All-take (Reads db.rows) 200 rows
            (All-ordered (Reads db.rows) db.rows (rows-Reads db.rows d)))

    active-Distinct : Distinct fl db.rows → Distinct fl (active_memories fl from_iso now_iso db)
    unfolding active_memories list_memories
    active-Distinct d =
        let rows = ordered_memories fl db.rows in
        Distinct-keep fl (λ m. not (is_expired fl from_iso m now_iso)) (take 200 rows)
          (Distinct-take fl 200 rows (Distinct-ordered fl db.rows d))

    module _ (active selected : List (MemoryRecord fl)) (cap : ℕ) (live : All Live active) where
      -- What the loops over the links keep of the memories they have added.
      abbrev Added : List (MemoryRecord fl) → Type 0
      Added extra = All Live extra × Distinct fl (selected ++ extra) × (length extra ≤ cap)

      add :
          (i : ℕ) (extra : List (MemoryRecord fl)) (o : Option (MemoryRecord fl))
          → find_memory fl i active ≡ o
          → length extra + 1 ≤ cap
          → (has_id fl i selected || has_id fl i extra) ≡ false
          → Added extra
          → Added (elim o [ none ↦ extra | some m ↦ extra ++ m ∷ [] ])
      add i extra none e room new ok = ok
      add i extra (some m) e room new ok =
          let (m_live, m_id) = found-All Live i active m live e in
          (
            All-append Live extra (m ∷ []) ok.0 (m_live, tt),
            subst (Distinct fl) (append_assoc selected extra (m ∷ [])) (
                Distinct-snoc fl m (selected ++ extra) ok.1
                  (rw (m_id, has-append fl i selected extra) new)),
            omega (arith, length-append extra (m ∷ [])),
          )

      follow-Added :
          (ids : List ℕ) (extra : List (MemoryRecord fl))
          → Added extra
          → Added (follow fl cap active selected ids extra)
      unfolding follow
      follow-Added [] extra ok = ok
      follow-Added (i ∷ ids) extra ok =
          if_cases Added (leb cap (length extra)) (λ full. ok)
            (λ room. follow-Added ids _ (
              if_cases Added (has_id fl i selected || has_id fl i extra) (λ old. ok)
                (λ new. add i extra (find_memory fl i active) refl (ground (arith, room)) new ok)))

      follow_all-Added :
          (ms extra : List (MemoryRecord fl))
          → Added extra
          → Added (follow_all fl cap db active selected ms extra)
      unfolding follow_all
      follow_all-Added [] extra ok = ok
      follow_all-Added (m ∷ ms) extra ok =
          if_cases Added (leb cap (length extra)) (λ full. ok)
            (λ room.
              follow_all-Added ms
                (follow fl cap active selected (get_linked_memory_ids fl m.id db) extra)
                (follow-Added (get_linked_memory_ids fl m.id db) extra ok))

  -- From a table without repeated ids, the memories of a turn are as the store holds them, none has
  -- expired, none is repeated, and there are at most the maximum and the cap on linked ones.
  pub select_memories-Live :
      (lexer : Lexer) (from_iso : Text → Stamp) (now_iso user_input : Text) (most : ℕ)
      (db : MemoryDb fl)
      → Distinct fl db.rows
      → let selected = select_memories fl lexer from_iso now_iso user_input most db in
        All
          (λ (m : MemoryRecord fl).
            (is_expired fl from_iso m now_iso ≡ false) × (get_memory fl m.id db ≡ some m))
          selected
        × Distinct fl selected
        × (length selected ≤ most + max 2 (most / 2))
  unfolding select_memories
  select_memories-Live lexer from_iso now_iso user_input most db d =
      let active = active_memories fl from_iso now_iso db in
      let live = active-Live from_iso now_iso db d in
      let ranked = rank_memories fl lexer active user_input in
      let top = take most ranked in
      let P = Live from_iso now_iso db in
      let top_live = All-take P most ranked (All-rank P lexer user_input active live) in
      let top_distinct =
        Distinct-take fl most ranked
          (Distinct-rank fl lexer user_input active (active-Distinct from_iso now_iso db d)) in
      let cap = link_extra_cap most in
      let extra = follow_all fl cap db active top top [] in
      let added =
        follow_all-Added from_iso now_iso db active top cap live top []
          (tt, rw (append-nil top) top_distinct, omega arith) in
      (
        All-append P top extra top_live added.0,
        added.1,
        omega (arith, length-append top extra, length-take most ranked, added.2),
      )
