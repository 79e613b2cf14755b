-- ===== src/Store/Retrieval/Selection.antt =====
-- backend/app/memory/retrieval.py and the queries of _store_memories.py: sorting, filtering and
-- cutting a list of memories makes no memory up and repeats none.
use cyber_companion.Base.{
  ℕ, zero, suc, ◌≡◌, refl, Bool, false, ◌||◌, List, [], ◌∷◌, ◌++◌, arith, keep, take, ◌==◌,
  if_keeps,
}
use cyber_companion.Base.Text.{Text}
use cyber_companion.Base.Float.{Float}
use cyber_companion.Records.{MemoryRecord}
use cyber_companion.Store.Tokens.{Lexer}
use cyber_companion.Store.Memories.{has_id, newer, insert_memory, ordered_memories}
use cyber_companion.Store.Retrieval.{ranks_below, insert_ranked, rank_memories}

module _ (fl : Float) where
  -- No two memories have the same id.
  abbrev pub Distinct : List (MemoryRecord fl) → Type 0
  Distinct [] = Unit
  Distinct (m ∷ ms) = (has_id fl m.id ms ≡ false) × Distinct ms

  pub has-append :
      (i : ℕ) (xs ys : List (MemoryRecord fl))
      → has_id fl i (xs ++ ys) ≡ (has_id fl i xs || has_id fl i ys)
  has-append i [] ys = refl
  has-append i (x ∷ xs) ys = ground (arith, has-append i xs ys)

  has-keep :
      (i : ℕ) (p : MemoryRecord fl → Bool) (xs : List (MemoryRecord fl))
      → has_id fl i xs ≡ false
      → has_id fl i (keep p xs) ≡ false
  has-keep i p [] h = refl
  has-keep i p (x ∷ xs) h = ground (arith, h, has-keep i p xs)

  has-take :
      (i n : ℕ) (xs : List (MemoryRecord fl))
      → has_id fl i xs ≡ false
      → has_id fl i (take n xs) ≡ false
  has-take i zero xs h = refl
  has-take i (suc n) [] h = refl
  has-take i (suc n) (x ∷ xs) h = ground (arith, h, has-take i n xs)

  pub Distinct-keep :
      (p : MemoryRecord fl → Bool) (xs : List (MemoryRecord fl))
      → Distinct xs
      → Distinct (keep p xs)
  Distinct-keep p [] d = tt
  Distinct-keep p (x ∷ xs) d =
      if_keeps Distinct (p x) (has-keep x.id p xs d.0, Distinct-keep p xs d.1)
        (Distinct-keep p xs d.1)

  pub Distinct-take : (n : ℕ) (xs : List (MemoryRecord fl)) → Distinct xs → Distinct (take n xs)
  Distinct-take zero xs d = tt
  Distinct-take (suc n) [] d = tt
  Distinct-take (suc n) (x ∷ xs) d = (has-take x.id n xs d.0, Distinct-take n xs d.1)

  pub Distinct-snoc :
      (m : MemoryRecord fl) (xs : List (MemoryRecord fl))
      → Distinct xs
      → has_id fl m.id xs ≡ false
      → Distinct (xs ++ m ∷ [])
  Distinct-snoc m [] d h = (refl, tt)
  Distinct-snoc m (x ∷ xs) d h = (
    ground (arith, h, d.0, has-append x.id xs (m ∷ [])),
    Distinct-snoc m xs d.1 (ground (arith, h)),
  )

  -- The two insertion sorts.
  has-insert_memory :
      (i : ℕ) (m : MemoryRecord fl) (xs : List (MemoryRecord fl))
      → has_id fl i (insert_memory fl m xs) ≡ (m.id == i || has_id fl i xs)
  unfolding insert_memory
  has-insert_memory i m [] = refl
  has-insert_memory i m (x ∷ xs) = ground (arith, has-insert_memory i m xs)

  has-insert_ranked :
      (i : ℕ) (lexer : Lexer) (query : Text) (m : MemoryRecord fl) (xs : List (MemoryRecord fl))
      → has_id fl i (insert_ranked fl lexer query m xs) ≡ (m.id == i || has_id fl i xs)
  unfolding insert_ranked
  has-insert_ranked i lexer query m [] = refl
  has-insert_ranked i lexer query m (x ∷ xs) = ground (arith, has-insert_ranked i lexer query m xs)

  pub has-ordered :
      (i : ℕ) (xs : List (MemoryRecord fl)) → has_id fl i (ordered_memories fl xs) ≡ has_id fl i xs
  unfolding ordered_memories
  has-ordered i [] = refl
  has-ordered i (x ∷ xs) =
      ground (arith, has-ordered i xs, has-insert_memory i x (ordered_memories fl xs))

  has-rank :
      (i : ℕ) (lexer : Lexer) (query : Text) (xs : List (MemoryRecord fl))
      → has_id fl i (rank_memories fl lexer xs query) ≡ has_id fl i xs
  unfolding rank_memories
  has-rank i lexer query [] = refl
  has-rank i lexer query (x ∷ xs) = ground (
    arith,
    has-rank i lexer query xs,
    has-insert_ranked i lexer query x (rank_memories fl lexer xs query),
  )

  Distinct-insert_memory :
      (m : MemoryRecord fl) (xs : List (MemoryRecord fl))
      → has_id fl m.id xs ≡ false
      → Distinct xs
      → Distinct (insert_memory fl m xs)
  unfolding insert_memory
  Distinct-insert_memory m [] h d = (refl, tt)
  Distinct-insert_memory m (x ∷ xs) h d =
      if_keeps Distinct (newer fl m x) (h, d)
        (
          ground (arith, h, d.0, has-insert_memory x.id m xs),
          Distinct-insert_memory m xs (ground (arith, h)) d.1,
        )

  Distinct-insert_ranked :
      (lexer : Lexer) (query : Text) (m : MemoryRecord fl) (xs : List (MemoryRecord fl))
      → has_id fl m.id xs ≡ false
      → Distinct xs
      → Distinct (insert_ranked fl lexer query m xs)
  unfolding insert_ranked
  Distinct-insert_ranked lexer query m [] h d = (refl, tt)
  Distinct-insert_ranked lexer query m (x ∷ xs) h d =
      if_keeps Distinct (ranks_below fl lexer query m x)
        (
          ground (arith, h, d.0, has-insert_ranked x.id lexer query m xs),
          Distinct-insert_ranked lexer query m xs (ground (arith, h)) d.1,
        )
        (h, d)

  pub Distinct-ordered :
      (xs : List (MemoryRecord fl)) → Distinct xs → Distinct (ordered_memories fl xs)
  unfolding ordered_memories
  Distinct-ordered [] d = tt
  Distinct-ordered (x ∷ xs) d =
      Distinct-insert_memory x (ordered_memories fl xs) (rw (has-ordered x.id xs) d.0)
        (Distinct-ordered xs d.1)

  pub Distinct-rank :
      (lexer : Lexer) (query : Text) (xs : List (MemoryRecord fl))
      → Distinct xs
      → Distinct (rank_memories fl lexer xs query)
  unfolding rank_memories
  Distinct-rank lexer query [] d = tt
  Distinct-rank lexer query (x ∷ xs) d =
      Distinct-insert_ranked lexer query x (rank_memories fl lexer xs query)
        (rw (has-rank x.id lexer query xs) d.0) (Distinct-rank lexer query xs d.1)
