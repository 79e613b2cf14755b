-- ===== src/Store/Retrieval.antt =====
-- backend/app/memory/retrieval.py: what a query makes of the memories: their expiry, their score and
-- their order. `datetime.fromisoformat` is a parameter. A stored float is not NaN: SQLite keeps a NaN
-- as NULL, which the columns refuse.
pub mod Selection
use cyber_companion.Base.{
  ℕ, String, Bool, true, false, not, ◌&&◌, ◌||◌, Option, none, some, List, [], ◌∷◌, ◌++◌, map, keep,
  any, ◌==◌, str_eq, str_in, if◌then◌else◌,
}
use cyber_companion.Base.Text.{Text, codes, strip, is_empty, text_in, text_lt, contains}
use cyber_companion.Base.Int.{ℤ, leb_ℤ}
use cyber_companion.Base.Float.{Float}
use cyber_companion.Records.{MemoryRecord}
use cyber_companion.Store.Tokens.{Lexer, tokenize}

-- What `datetime.fromisoformat` makes of a text: no timestamp, one without a zone, or one with a
-- zone; in microseconds, of the clock reading or of the time in UTC.
pub data Stamp : Type 0 where
  no_stamp : Stamp
  unzoned : ℤ → Stamp
  zoned : ℤ → Stamp

-- `value.replace("Z", "+00:00")`
zulus : Text → Text
zulus [] = []
zulus (c ∷ s) = let rest = zulus s in if c == 90 then codes "+00:00" ++ rest else c ∷ rest

-- A timestamp without a zone is one in UTC.
as_utc : Stamp → Option ℤ
as_utc no_stamp = none
as_utc (unzoned t) = some t
as_utc (zoned t) = some t

unfoldable pub parse_iso_timestamp : (Text → Stamp) → Text → Option ℤ
unfolding zulus as_utc strip is_empty
parse_iso_timestamp from_iso value =
    if is_empty (strip value) then none else as_utc (from_iso (zulus value))

past : Option ℤ → Option ℤ → Bool
past (some expires_at) (some now) = leb_ℤ expires_at now
past _ _ = false

-- dict and set displays of the module
abbrev pub type_keywords : List (String × List Text)
type_keywords =
    (
      "job_progress",
      map codes ("job" ∷ "resume" ∷ "cv" ∷ "offer" ∷ "interview" ∷ "求职" ∷ "简历" ∷ "面试" ∷ "投递" ∷ []),
    )
    ∷ ("project", map codes ("project" ∷ "side" ∷ "build" ∷ "项目" ∷ "开发" ∷ "prototype" ∷ []))
    ∷ ("reminder", map codes ("remind" ∷ "remember" ∷ "提醒" ∷ "记得" ∷ "别忘" ∷ []))
    ∷ ("stable_profile", map codes ("who" ∷ "about" ∷ "profile" ∷ "背景" ∷ "介绍" ∷ []))
    ∷ ("behavior_preference", map codes ("prefer" ∷ "style" ∷ "习惯" ∷ "偏好" ∷ "说话" ∷ []))
    ∷ ("relationship_state", map codes ("trust" ∷ "关系" ∷ "信任" ∷ []))
    ∷ ("recent_event", map codes ("today" ∷ "yesterday" ∷ "今天" ∷ "昨天" ∷ "刚刚" ∷ []))
    ∷ ("emotion_state", map codes ("feel" ∷ "mood" ∷ "情绪" ∷ "心情" ∷ "焦虑" ∷ []))
    ∷ []

-- The types of which some keyword is among the tokens.
unfoldable pub boosted_by : List Text → List (String × List Text) → List String
unfolding text_in
boosted_by query_tokens [] = []
boosted_by query_tokens ((memory_type, keywords) ∷ rest) =
    let boosted = boosted_by query_tokens rest in
    if any (λ k. text_in k query_tokens) keywords then memory_type ∷ boosted else boosted

unfoldable pub boosted_memory_types : Lexer → Text → List String
unfolding boosted_by tokenize
boosted_memory_types lexer query = boosted_by (tokenize lexer query) type_keywords

-- The elements of a set, each once.
unfoldable pub distinct : List Text → List Text
unfolding text_in
distinct [] = []
distinct (t ∷ ts) = let rest = distinct ts in if text_in t rest then rest else t ∷ rest

module _ (fl : Float) where
  open fl use {F, dec, plus, times, lt, round}

  unfoldable pub is_expired : (Text → Stamp) → MemoryRecord fl → Text → Bool
  unfolding past parse_iso_timestamp
  is_expired from_iso memory now_iso = elim memory.expires_at [
    | none ↦ false
    | some t ↦ past (parse_iso_timestamp from_iso t) (parse_iso_timestamp from_iso now_iso)
  ]

  -- `for x in xs: if p(x): score += d`
  unfoldable pub add_each : (Text → Bool) → F → List Text → F → F
  add_each p d [] score = score
  add_each p d (x ∷ xs) score = add_each p d xs (if p x then plus score d else score)

  unfoldable pub score_memory : Lexer → MemoryRecord fl → Text → F
  unfolding boosted_memory_types distinct add_each tokenize text_in contains
  score_memory lexer memory query =
      let query_tokens = distinct (tokenize lexer query) in
      let content_lower = lexer.lower memory.content in
      let base = times memory.importance memory.confidence in
      let boosted =
        if str_in memory.type (boosted_memory_types lexer query)
        then plus base (dec 75 2)
        else base in
      let lasting =
        if str_in memory.type ("stable_profile" ∷ "relationship_state" ∷ [])
        then plus boosted (dec 2 1)
        else boosted in
      let tagged =
        add_each (λ tag. text_in (lexer.lower tag) query_tokens) (dec 35 2) memory.tags lasting in
      round 4 (add_each (λ token. contains content_lower token) (dec 15 2) query_tokens tagged)

  -- `a < b` on the keys (score, importance, updated_at).
  unfoldable pub ranks_below : Lexer → Text → MemoryRecord fl → MemoryRecord fl → Bool
  unfolding score_memory text_lt
  ranks_below lexer query a b =
      let sa = score_memory lexer a query in
      let sb = score_memory lexer b query in
      lt sa sb
      || (not (lt sb sa)
          && (lt a.importance b.importance
              || (not (lt b.importance a.importance) && text_lt a.updated_at b.updated_at)))

  -- A sort in reverse that keeps the order of equal keys.
  unfoldable pub insert_ranked :
      Lexer → Text → MemoryRecord fl → List (MemoryRecord fl) → List (MemoryRecord fl)
  insert_ranked lexer query m [] = m ∷ []
  insert_ranked lexer query m (n ∷ ns) =
      let rest = insert_ranked lexer query m ns in
      if ranks_below lexer query m n then n ∷ rest else m ∷ n ∷ ns

  unfoldable pub rank_memories : Lexer → List (MemoryRecord fl) → Text → List (MemoryRecord fl)
  rank_memories lexer [] query = []
  rank_memories lexer (m ∷ ms) query = insert_ranked lexer query m (rank_memories lexer ms query)
