-- ===== src/Speech/Sentences.antt =====
-- backend/app/tts/expression_tagger.py: a reply cut into sentences, the guard against repeated tags,
-- and the tagging of a whole reply by sentences in backend/app/soul/runtime.py.
pub mod Cuts
use cyber_companion.Base.{
  ℕ, ◌+◌, Bool, true, false, not, ◌&&◌, Option, none, some, List, [], ◌∷◌, ◌++◌, leb, ◌==◌,
  if◌then◌else◌, any, length, reverse,
}
use cyber_companion.Base.Text.{Text, codes, strip, is_empty, text_eq, text_in, join}
use cyber_companion.Speech.Tags.{Piece, char, tag, pieces, written, break_tag_inners}

-- SENTENCE_TERMINATORS
unfoldable pub terminates : ℕ → Bool
terminates c = any (λ t. c == t) (codes "。！？!?\n.")

unfoldable pub starts_terminated : Text → Bool
unfolding terminates
starts_terminated [] = false
starts_terminated (c ∷ s) = terminates c

-- A character before the first sentence, or before the remainder.
abbrev pub put_first : ℕ → List Text × Text → List Text × Text
put_first c ([], remainder) = ([], c ∷ remainder)
put_first c (sentence ∷ sentences, remainder) = ((c ∷ sentence) ∷ sentences, remainder)

-- The complete sentences, each with its whole run of terminators, and what follows the last run.
unfoldable pub split_complete_sentences : Text → List Text × Text
unfolding terminates starts_terminated
split_complete_sentences [] = ([], [])
split_complete_sentences (c ∷ s) =
    let later = split_complete_sentences s in
    if terminates c && not (starts_terminated s)
    then ((c ∷ []) ∷ later.0, later.1)
    else put_first c later

-- The sentences of a text, with a remainder that is not blank.
unfoldable pub all_sentences : Text → List Text
unfolding split_complete_sentences strip is_empty
all_sentences text =
    let cut = split_complete_sentences text in
    if is_empty (strip cut.1) then cut.0 else cut.0 ++ cut.1 ∷ []

-- The loop over the reversed sentences.
unfoldable pub most_recent : ℕ → ℕ → List Text → List Text
most_recent char_cap total [] = []
most_recent char_cap total (sentence ∷ earlier) =
    let more = most_recent char_cap (total + length sentence) earlier in
    if leb char_cap (total + length sentence) then sentence ∷ [] else sentence ∷ more

unfoldable pub build_prior_context : List Text → ℕ → Text
unfolding most_recent join
build_prior_context spoken_sentences char_cap =
    let joined = join [] spoken_sentences in
    if leb (length joined) char_cap
    then joined
    else join [] (reverse (most_recent char_cap 0 (reverse spoken_sentences)))

abbrev pub sound_effect_tag_inners : List Text
sound_effect_tag_inners =
    codes "laughing"
    ∷ codes "chuckling"
    ∷ codes "sobbing"
    ∷ codes "crying loudly"
    ∷ codes "sighing"
    ∷ codes "groaning"
    ∷ codes "moaning"
    ∷ codes "panting"
    ∷ codes "gasping"
    ∷ codes "yawning"
    ∷ codes "snoring"
    ∷ codes "娇喘"
    ∷ codes "呻吟"
    ∷ []

abbrev pub dedup_exempt_tag_inners : List Text
dedup_exempt_tag_inners = sound_effect_tag_inners ++ break_tag_inners

-- The first tag of a sentence that is not exempt, and the sentence without it.
unfoldable pub leading_tag : List Piece → Option Text
unfolding text_in
leading_tag [] = none
leading_tag (char c ∷ ps) = leading_tag ps
leading_tag (tag inner ∷ ps) =
    let later = leading_tag ps in
    if text_in inner dedup_exempt_tag_inners then later else some inner

unfoldable pub without_leading : List Piece → List Piece
unfolding text_in
without_leading [] = []
without_leading (char c ∷ ps) = char c ∷ without_leading ps
without_leading (tag inner ∷ ps) =
    let rest = without_leading ps in
    if text_in inner dedup_exempt_tag_inners then tag inner ∷ rest else ps

-- `inner == prev_leading`
abbrev pub is_previous : Text → Option Text → Bool
is_previous inner none = false
is_previous inner (some prev_leading) = text_eq inner prev_leading

unfoldable pub suppressed : Option Text → List Text → List Text
unfolding leading_tag without_leading pieces written text_eq
suppressed prev_leading [] = []
suppressed prev_leading (sentence ∷ sentences) = elim (leading_tag (pieces sentence)) [
  | none ↦ sentence ∷ suppressed none sentences
  | some inner ↦
      let repeated =
        written (without_leading (pieces sentence)) ∷ suppressed prev_leading sentences in
      let fresh = sentence ∷ suppressed (some inner) sentences in
      if is_previous inner prev_leading then repeated else fresh
]

unfoldable pub suppress_repeated_leading_tags : Text → Text
unfolding all_sentences suppressed join
suppress_repeated_leading_tags tagged =
    if leb (length (all_sentences tagged)) 1
    then tagged
    else join [] (suppressed none (all_sentences tagged))

-- The tagger of a sentence, after the text that comes before it, is a parameter here; the threads that
-- run it only wait for a provider.
module _ (apply_to_sentence : Text → Text → Text) where
  abbrev tagger_prior_context_char_cap : ℕ
  tagger_prior_context_char_cap = 800

  -- The sentences, after those that were tagged before them.
  unfoldable pub tagged_after : List Text → List Text → List Text
  unfolding build_prior_context
  tagged_after spoken_sentences [] = []
  tagged_after spoken_sentences (sentence ∷ sentences) =
      apply_to_sentence sentence
        (build_prior_context spoken_sentences tagger_prior_context_char_cap)
      ∷ tagged_after (spoken_sentences ++ sentence ∷ []) sentences

  tagged_sentences : Text → List Text → Text
  unfolding tagged_after suppress_repeated_leading_tags join
  tagged_sentences text [] = text
  tagged_sentences text (sentence ∷ []) = apply_to_sentence sentence []
  tagged_sentences text (sentence ∷ next ∷ sentences) =
      suppress_repeated_leading_tags (join [] (tagged_after [] (sentence ∷ next ∷ sentences)))

  unfoldable pub tag_reply_by_sentence : Text → Text
  unfolding tagged_sentences all_sentences strip is_empty
  tag_reply_by_sentence text =
      if is_empty (strip text) then text else tagged_sentences text (all_sentences text)
