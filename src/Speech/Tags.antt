-- ===== src/Speech/Tags.antt =====
-- backend/app/tts/expression_tagger.py: the tags in a text, and the guards that repair them.
pub mod Scan
pub mod Wording
pub mod Retag
pub mod Sentence
use cyber_companion.Base.{
  ℕ, zero, suc, ◌+◌, Bool, true, false, not, ◌&&◌, ◌||◌, Option, none, some, List, [], ◌∷◌, ◌++◌,
  leb, ◌==◌, if◌then◌else◌, any, keep, length, reverse,
}
use cyber_companion.Base.Text.{
  Text, codes, is_space, lstrip, rstrip, strip, is_empty, text_eq, text_in,
}
use cyber_companion.Store.Context.Prompt.{ChatMessage}

-- A text cut at the matches of _TAG_RE: its tags, each by what stands between the brackets, and the
-- characters between them.
pub data Piece : Type 0 where
  char : ℕ → Piece
  tag : Text → Piece

abbrev pub in_tag : ℕ → Option (Text × List Piece) → Option (Text × List Piece)
in_tag c none = none
in_tag c (some (inner, rest)) = some (c ∷ inner, rest)

abbrev pub opened : ℕ → List Piece → Option (Text × List Piece) → List Piece
opened c rest none = char c ∷ rest
opened c rest (some (inner, after)) = tag inner ∷ after

-- The pieces of a text, and, for a text behind an open bracket, what it holds up to the first `]` with
-- the pieces after that.
unfoldable pub scan : Text → List Piece × Option (Text × List Piece)
scan [] = ([], none)
scan (c ∷ s) =
    let later = scan s in
    (
      if c == 91 then opened c later.0 later.1 else char c ∷ later.0,
      if c == 93 then some ([], later.0) else in_tag c later.1,
    )

unfoldable pub pieces : Text → List Piece
unfolding scan
pieces s = (scan s).0

unfoldable pub written : List Piece → Text
written [] = []
written (char c ∷ ps) = c ∷ written ps
written (tag inner ∷ ps) = 91 ∷ (inner ++ 93 ∷ written ps)

-- `_TAG_RE.sub("", text)`, on the pieces of the text.
unfoldable pub words : List Piece → Text
words [] = []
words (char c ∷ ps) = c ∷ words ps
words (tag inner ∷ ps) = words ps

-- `_WHITESPACE_RE.sub("", text)`
unfoldable pub squeeze : Text → Text
unfolding is_space
squeeze s = keep (λ c. not (is_space c)) s

unfoldable pub has_taggable_content : Text → Bool
has_taggable_content s =
    any
      (λ c.
        (leb 48 c && leb c 57)
        || (leb 65 c && leb c 90)
        || (leb 97 c && leb c 122)
        || (leb 0x3040 c && leb c 0x30ff)
        || (leb 0x4e00 c && leb c 0x9fff))
      s

unfoldable pub preserves_original_wording : Text → Text → Bool
unfolding text_eq squeeze words pieces
preserves_original_wording original tagged =
    text_eq (squeeze original) (squeeze (words (pieces tagged)))

-- A tag with nothing to speak after it. The scan of `tagged[match.end():]` is that of the rest.
unfoldable pub dangles : List Piece → Bool
unfolding words has_taggable_content
dangles [] = false
dangles (char c ∷ ps) = dangles ps
dangles (tag inner ∷ ps) = not (has_taggable_content (words ps)) || dangles ps

unfoldable pub without_dangling : List Piece → List Piece
unfolding words has_taggable_content
without_dangling [] = []
without_dangling (char c ∷ ps) = char c ∷ without_dangling ps
without_dangling (tag inner ∷ ps) =
    let rest = without_dangling ps in
    if has_taggable_content (words ps) then tag inner ∷ rest else rest

unfoldable pub strip_dangling_trailing_tags : Text → Text
unfolding dangles without_dangling pieces written rstrip
strip_dangling_trailing_tags tagged =
    if dangles (pieces tagged) then rstrip (written (without_dangling (pieces tagged))) else tagged

-- `_WHITESPACE_RE.sub(" ", text)`
unfoldable pub collapse : Text → Text
unfolding is_space
collapse [] = []
collapse (c ∷ []) = if is_space c then 32 ∷ [] else c ∷ []
collapse (c ∷ d ∷ s) =
    let rest = collapse (d ∷ s) in
    if is_space c then (if is_space d then rest else 32 ∷ rest) else c ∷ rest

abbrev pub put_tag : Text → List Piece → List Piece
put_tag [] ps = ps
put_tag (c ∷ inner) ps = tag (c ∷ inner) ∷ ps

unfoldable pub well_formed_tags : List Piece → List Piece
unfolding collapse strip
well_formed_tags [] = []
well_formed_tags (char c ∷ ps) = char c ∷ well_formed_tags ps
well_formed_tags (tag inner ∷ ps) = put_tag (strip (collapse inner)) (well_formed_tags ps)

unfoldable pub normalize_malformed_tags : Text → Text
unfolding well_formed_tags pieces written
normalize_malformed_tags tagged = written (well_formed_tags (pieces tagged))

abbrev pub break_tag_inners : List Text
break_tag_inners = codes "break" ∷ codes "long-break" ∷ []

abbrev pub max_break_tags_per_call : ℕ
max_break_tags_per_call = 1

-- `text[:1] in _PAUSE_PUNCTUATION`
unfoldable pub pauses : Text → Bool
pauses [] = false
pauses (c ∷ s) = any (λ p. c == p) (codes "。！？，、；：…—~,.!?;:\n")

-- The loop over the pause tags, after the text `before`, which stands reversed, and `kept` of them.
unfoldable pub spaced_breaks : Text → ℕ → List Piece → List Piece
unfolding pauses lstrip written text_in
spaced_breaks before kept [] = []
spaced_breaks before kept (char c ∷ ps) = char c ∷ spaced_breaks (c ∷ before) kept ps
spaced_breaks before kept (tag inner ∷ ps) =
    let passed = 93 ∷ (reverse inner ++ 91 ∷ before) in
    let dropped = spaced_breaks passed kept ps in
    let stays = spaced_breaks passed (kept + 1) ps in
    let redundant = pauses (lstrip before) || pauses (lstrip (written ps)) in
    if not (text_in inner break_tag_inners)
    then tag inner ∷ dropped
    else if redundant || leb max_break_tags_per_call kept
    then dropped
    else tag inner ∷ stays

unfoldable pub normalize_break_tags : Text → Text
unfolding spaced_breaks pieces written
normalize_break_tags tagged = written (spaced_breaks [] 0 (pieces tagged))

unfoldable pub normalize_tag_placement : Text → Text
unfolding normalize_break_tags normalize_malformed_tags
normalize_tag_placement tagged = normalize_break_tags (normalize_malformed_tags tagged)

-- The templates of the prompt, and the reply of the provider, `none` for any exception, are parameters.
module _ (instruction : Text) (prior_template : Text → Text)
    (complete : List ChatMessage → ℕ → Option Text) where
  prior_messages : Text → List ChatMessage
  unfolding is_empty
  prior_messages prior =
      if is_empty prior then [] else record { role = "system"; content = prior_template prior } ∷ []

  -- The reply of the provider to the stripped sentence, with the tokens that an echo takes.
  unfoldable pub reply_to : Text → Text → Option Text
  unfolding prior_messages strip
  reply_to stripped prior_context =
      complete
        (record { role = "system"; content = instruction }
          ∷ (prior_messages (strip prior_context)
              ++ record { role = "user"; content = stripped } ∷ []))
        (length stripped + 256)

  -- What is made of the reply of the provider to the stripped sentence.
  unfoldable pub guarded_reply : Text → Text → Option Text → Text
  unfolding strip is_empty preserves_original_wording strip_dangling_trailing_tags
      normalize_tag_placement
  guarded_reply sentence stripped none = sentence
  guarded_reply sentence stripped (some content) =
      let tagged = strip content in
      if is_empty tagged
      then sentence
      else if preserves_original_wording stripped tagged
      then normalize_tag_placement (strip_dangling_trailing_tags tagged)
      else sentence

  unfoldable pub apply_expression_tags_to_sentence : Text → Text → Text
  unfolding guarded_reply reply_to has_taggable_content strip is_empty
  apply_expression_tags_to_sentence sentence prior_context =
      let stripped = strip sentence in
      if is_empty stripped
      then sentence
      else if has_taggable_content stripped
      then guarded_reply sentence stripped (reply_to stripped prior_context)
      else sentence
