-- ===== src/Speech/Tags/Retag.antt =====
-- backend/app/tts/expression_tagger.py: every guard drops tags and repairs tags, and nothing else.
use cyber_companion.Base.{
  ℕ, ◌+◌, ◌≡◌, refl, sym, ap, ◌∙◌, true, false, false≢true, not, ◌||◌, List, [], ◌∷◌, ◌++◌, arith,
  leb, if_keeps, reverse, reverse-cons,
}
use cyber_companion.Base.Text.{Text, lstrip, rstrip, strip, text_in}
use cyber_companion.Speech.Tags.{
  Piece, char, tag, pieces, written, words, squeeze, has_taggable_content, dangles,
  without_dangling, strip_dangling_trailing_tags, collapse, put_tag, well_formed_tags,
  normalize_malformed_tags, break_tag_inners, max_break_tags_per_call, pauses, spaced_breaks,
  normalize_break_tags, normalize_tag_placement,
}
use cyber_companion.Speech.Tags.Scan.{has_close, well, pieces-well, pieces-written}
use cyber_companion.Speech.Tags.Wording.{heard, heard-rstrip}

-- The second list is the first with tags dropped, and others put in place of tags.
data Retagged : List Piece → List Piece → Type 0 where
  done : Retagged [] []
  same : {ps qs : List Piece} (c : ℕ) → Retagged ps qs → Retagged (char c ∷ ps) (char c ∷ qs)
  dropped : {ps qs : List Piece} (t : Text) → Retagged ps qs → Retagged (tag t ∷ ps) qs
  changed :
      {ps qs : List Piece} (t u : Text)
      → has_close u ≡ false
      → Retagged ps qs
      → Retagged (tag t ∷ ps) (tag u ∷ qs)

close-append : (s t : Text) → has_close (s ++ t) ≡ (has_close s || has_close t)
close-append [] t = refl
close-append (c ∷ s) t = ground (arith, close-append s t)

words-Retagged : {ps qs : List Piece} → Retagged ps qs → words qs ≡ words ps
unfolding words
words-Retagged done = refl
words-Retagged (same c r) = ap (λ s. c ∷ s) (words-Retagged r)
words-Retagged (dropped t r) = words-Retagged r
words-Retagged (changed t u h r) = words-Retagged r

close-tag : (t s : Text) → has_close (91 ∷ (t ++ 93 ∷ s)) ≡ true
close-tag t s = ground (arith, close-append t (93 ∷ s))

close-Retagged :
    {ps qs : List Piece}
    → Retagged ps qs
    → has_close (written ps) ≡ false
    → has_close (written qs) ≡ false
unfolding written
close-Retagged done h = h
close-Retagged (same c r) h = ground (arith, h, close-Retagged r)
close-Retagged (dropped {ps} t r) h = absurd (false≢true (sym h ∙ close-tag t (written ps)))
close-Retagged (changed {ps} t u k r) h = absurd (false≢true (sym h ∙ close-tag t (written ps)))

well-Retagged : {ps qs : List Piece} → Retagged ps qs → well ps ≡ true → well qs ≡ true
well-Retagged done h = h
well-Retagged (same c r) h = ground (arith, h, well-Retagged r, close-Retagged r)
well-Retagged (dropped t r) h = well-Retagged r (ground (arith, h))
well-Retagged (changed t u k r) h = ground (arith, h, k, well-Retagged r)

heard-Retagged :
    (s : Text) (qs : List Piece) → Retagged (pieces s) qs → heard (written qs) ≡ heard s
unfolding heard
heard-Retagged s qs r =
    ap (λ ps. squeeze (words ps)) (pieces-written qs (well-Retagged r (pieces-well s)))
    ∙ ap squeeze (words-Retagged r)

-- What a tag holds has no `]`, and neither has what it is repaired to.
close-lstrip : (s : Text) → has_close s ≡ false → has_close (lstrip s) ≡ false
unfolding lstrip
close-lstrip [] h = h
close-lstrip (c ∷ s) h = ground (arith, h, close-lstrip s)

close-reverse : (s : Text) → has_close s ≡ false → has_close (reverse s) ≡ false
close-reverse [] h = h
close-reverse (c ∷ s) h =
    rw (reverse-cons c s, close-append (reverse s) (c ∷ [])) (ground (arith, h, close-reverse s))

close-strip : (s : Text) → has_close s ≡ false → has_close (strip s) ≡ false
unfolding strip rstrip
close-strip s h =
    close-reverse (lstrip (reverse (lstrip s)))
      (close-lstrip (reverse (lstrip s)) (close-reverse (lstrip s) (close-lstrip s h)))

close-collapse : (s : Text) → has_close s ≡ false → has_close (collapse s) ≡ false
unfolding collapse
close-collapse [] h = h
close-collapse (c ∷ []) h = ground (arith, h)
close-collapse (c ∷ d ∷ s) h = ground (arith, h, close-collapse (d ∷ s))

dangling-Retagged : (ps : List Piece) → well ps ≡ true → Retagged ps (without_dangling ps)
unfolding without_dangling
dangling-Retagged [] h = done
dangling-Retagged (char c ∷ ps) h = same c (dangling-Retagged ps (ground (arith, h)))
dangling-Retagged (tag t ∷ ps) h =
    let rest = dangling-Retagged ps (ground (arith, h)) in
    if_keeps (Retagged (tag t ∷ ps)) (has_taggable_content (words ps))
      (changed t t (ground (arith, h)) rest) (dropped t rest)

put-Retagged :
    (t u : Text) {ps qs : List Piece}
    → has_close u ≡ false
    → Retagged ps qs
    → Retagged (tag t ∷ ps) (put_tag u qs)
put-Retagged t [] h r = dropped t r
put-Retagged t (c ∷ u) h r = changed t (c ∷ u) h r

malformed-Retagged : (ps : List Piece) → well ps ≡ true → Retagged ps (well_formed_tags ps)
unfolding well_formed_tags
malformed-Retagged [] h = done
malformed-Retagged (char c ∷ ps) h = same c (malformed-Retagged ps (ground (arith, h)))
malformed-Retagged (tag t ∷ ps) h =
    put-Retagged t (strip (collapse t))
      (close-strip (collapse t) (close-collapse t (ground (arith, h))))
      (malformed-Retagged ps (ground (arith, h)))

breaks-Retagged :
    (before : Text) (kept : ℕ) (ps : List Piece)
    → well ps ≡ true
    → Retagged ps (spaced_breaks before kept ps)
unfolding spaced_breaks
breaks-Retagged before kept [] h = done
breaks-Retagged before kept (char c ∷ ps) h =
    same c (breaks-Retagged (c ∷ before) kept ps (ground (arith, h)))
breaks-Retagged before kept (tag t ∷ ps) h =
    let ok : well ps ≡ true = ground (arith, h) in
    let closed : has_close t ≡ false = ground (arith, h) in
    let passed = 93 ∷ (reverse t ++ 91 ∷ before) in
    let P = Retagged (tag t ∷ ps) in
    if_keeps P (not (text_in t break_tag_inners))
      (changed t t closed (breaks-Retagged passed kept ps ok))
      (if_keeps P
        ((pauses (lstrip before) || pauses (lstrip (written ps)))
          || leb max_break_tags_per_call kept)
        (dropped t (breaks-Retagged passed kept ps ok))
        (changed t t closed (breaks-Retagged passed (kept + 1) ps ok)))

pub heard-dangling : (s : Text) → heard (strip_dangling_trailing_tags s) ≡ heard s
unfolding strip_dangling_trailing_tags
heard-dangling s =
    let qs = without_dangling (pieces s) in
    if_keeps (λ t. heard t ≡ heard s) (dangles (pieces s))
      (heard-rstrip (written qs)
        ∙ heard-Retagged s qs (dangling-Retagged (pieces s) (pieces-well s)))
      refl

-- The guards that repair and space the tags change nothing that is spoken.
pub heard-placement : (s : Text) → heard (normalize_tag_placement s) ≡ heard s
unfolding normalize_tag_placement normalize_break_tags normalize_malformed_tags
heard-placement s =
    let qs = well_formed_tags (pieces s) in
    heard-Retagged (written qs) (spaced_breaks [] 0 (pieces (written qs)))
      (breaks-Retagged [] 0 (pieces (written qs)) (pieces-well (written qs)))
    ∙ heard-Retagged s qs (malformed-Retagged (pieces s) (pieces-well s))
