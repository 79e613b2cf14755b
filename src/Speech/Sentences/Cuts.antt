-- ===== src/Speech/Sentences/Cuts.antt =====
-- backend/app/tts/expression_tagger.py: cutting a text into sentences loses nothing.
use cyber_companion.Base.{
  ℕ, ◌≡◌, refl, sym, ap, ◌∙◌, Bool, true, false, not, ◌&&◌, ◌||◌, ◌==◌, subst, fun_ext, List, [],
  ◌∷◌, ◌++◌, arith, any, if◌then◌else◌, if_cases,
}
use cyber_companion.Base.Text.{Text, join}
use cyber_companion.Speech.Sentences.{
  terminates, starts_terminated, put_first, split_complete_sentences,
}

-- The characters that end a sentence: 。！？ and their ASCII forms, and the line feed. The ellipsis is
-- none of them.
unfoldable pub is_end : ℕ → Bool
is_end c = c == 0x3002 || c == 0xff01 || c == 0xff1f || c == 33 || c == 63 || c == 10 || c == 46

module _ (ends : ℕ → Bool) where
  -- A sentence: characters that end none, then a run of characters that end one.
  unfoldable pub all_end : Text → Bool
  all_end [] = true
  all_end (c ∷ s) = ends c && all_end s

  unfoldable pub is_sentence : Text → Bool
  unfolding all_end
  is_sentence [] = false
  is_sentence (c ∷ s) = if ends c then all_end s else is_sentence s

  unfoldable pub are_sentences : List Text → Bool
  unfolding is_sentence
  are_sentences [] = true
  are_sentences (s ∷ ss) = is_sentence s && are_sentences ss

  -- A text that begins with a character that ends none.
  unfoldable pub begins : Text → Bool
  begins [] = false
  begins (c ∷ s) = not (ends c)

  unfoldable pub all_begin : List Text → Bool
  unfolding begins
  all_begin [] = true
  all_begin (s ∷ ss) = begins s && all_begin ss

  -- No run is cut: a sentence that follows another begins with a character that ends none.
  unfoldable pub runs_are_whole : List Text → Bool
  unfolding all_begin
  runs_are_whole [] = true
  runs_are_whole (s ∷ ss) = all_begin ss

terminates-is_end : (c : ℕ) → terminates c ≡ is_end c
unfolding terminates is_end
terminates-is_end c = ground arith

join-put_first :
    (c : ℕ) (ss : List Text) (r : Text)
    → (let cut = put_first c (ss, r) in join [] cut.0 ++ cut.1) ≡ c ∷ (join [] ss ++ r)
unfolding join
join-put_first c [] r = refl
join-put_first c (x ∷ []) r = refl
join-put_first c (x ∷ y ∷ ys) r = refl

join-single :
    (c : ℕ) (ss : List Text) (r : Text) → join [] ((c ∷ []) ∷ ss) ++ r ≡ c ∷ (join [] ss ++ r)
unfolding join
join-single c [] r = refl
join-single c (x ∷ xs) r = refl

starts-none : (r : Text) → any terminates r ≡ false → starts_terminated r ≡ false
unfolding starts_terminated
starts-none [] h = refl
starts-none (c ∷ r) h = ground (arith, h)

starts-join :
    (d : ℕ) (x : Text) (xs : List Text) (r : Text)
    → starts_terminated (join [] ((d ∷ x) ∷ xs) ++ r) ≡ terminates d
unfolding join starts_terminated
starts-join d x [] r = refl
starts-join d x (y ∷ ys) r = refl

longer_sentence :
    (c d : ℕ) (x : Text)
    → (terminates c && not (terminates d)) ≡ false
    → is_sentence terminates (d ∷ x) ≡ true
    → is_sentence terminates (c ∷ d ∷ x) ≡ true
unfolding is_sentence all_end
longer_sentence c d x h k = ground (arith, h, k)

-- What is kept of the sentences and of what remains.
Cut : List Text → Text → Type 0
Cut ss r =
    (are_sentences terminates ss ≡ true)
    × (runs_are_whole terminates ss ≡ true)
    × (any terminates r ≡ false)

put_first-Cut :
    (c : ℕ) (ss : List Text) (r : Text)
    → Cut ss r
    → (terminates c && not (starts_terminated (join [] ss ++ r))) ≡ false
    → let cut = put_first c (ss, r) in Cut cut.0 cut.1
unfolding Cut are_sentences runs_are_whole
put_first-Cut c [] r (h, whole, k) e =
    let start : starts_terminated (join [] [] ++ r) ≡ false = unfold join in starts-none r k in
    (refl, refl, ground (arith, k, e, start))
put_first-Cut c ([] ∷ xs) r (h, whole, k) e = absurd (unfold is_sentence in ground (arith, h))
put_first-Cut c ((d ∷ x) ∷ xs) r (h, whole, k) e =
    let no_break : (terminates c && not (terminates d)) ≡ false =
      rw (sym (starts-join d x xs r)) e in
    (ground (arith, h, longer_sentence c d x no_break), whole, k)

all_begin-Cut :
    (ss : List Text) (r : Text)
    → Cut ss r
    → starts_terminated (join [] ss ++ r) ≡ false
    → all_begin terminates ss ≡ true
unfolding Cut are_sentences runs_are_whole all_begin begins
all_begin-Cut [] r h e = refl
all_begin-Cut ([] ∷ xs) r (h, whole, k) e = absurd (unfold is_sentence in ground (arith, h))
all_begin-Cut ((d ∷ x) ∷ xs) r (h, whole, k) e =
    let plain : terminates d ≡ false = rw (sym (starts-join d x xs r)) e in
    ground (arith, plain, whole)

single-Cut :
    (c : ℕ) (ss : List Text) (r : Text)
    → Cut ss r
    → (terminates c && not (starts_terminated (join [] ss ++ r))) ≡ true
    → Cut ((c ∷ []) ∷ ss) r
unfolding Cut are_sentences is_sentence all_end runs_are_whole
single-Cut c ss r (h, whole, k) e =
    (ground (arith, h, e), all_begin-Cut ss r (h, whole, k) (ground (arith, e)), k)

split-Cut :
    (s : Text)
    → let cut = split_complete_sentences s in (join [] cut.0 ++ cut.1 ≡ s) × Cut cut.0 cut.1
unfolding split_complete_sentences
split-Cut [] = (unfold join in refl, unfold Cut are_sentences runs_are_whole in (refl, refl, refl))
split-Cut (c ∷ s) =
    let later = split_complete_sentences s in
    let (whole, cut) = split-Cut s in
    if_cases (λ (cut : List Text × Text). (join [] cut.0 ++ cut.1 ≡ c ∷ s) × Cut cut.0 cut.1)
      (terminates c && not (starts_terminated s))
      (λ last. (
        join-single c later.0 later.1 ∙ ap (λ t. c ∷ t) whole,
        single-Cut c later.0 later.1 cut (rw whole last),
      ))
      (λ more. (
        join-put_first c later.0 later.1 ∙ ap (λ t. c ∷ t) whole,
        put_first-Cut c later.0 later.1 cut (rw whole more),
      ))

-- The sentences of a text and what remains are the text, in order. A sentence is characters that end
-- none and then a run, not empty, of characters that do, and no run is cut: every sentence after the
-- first begins with a character that ends none. Nothing ends a sentence in the remainder. The
-- characters that end one are 。！？!?. and the line feed.
pub split_complete_sentences-cuts :
    (s : Text)
    → let cut = split_complete_sentences s in
      (join [] cut.0 ++ cut.1 ≡ s)
      × (are_sentences is_end cut.0 ≡ true)
      × (runs_are_whole is_end cut.0 ≡ true)
      × (any is_end cut.1 ≡ false)
unfolding Cut
split_complete_sentences-cuts s =
    let cut = split_complete_sentences s in
    let (whole, kept) = split-Cut s in
    subst
      (λ (ends : ℕ → Bool).
        (join [] cut.0 ++ cut.1 ≡ s)
        × (are_sentences ends cut.0 ≡ true)
        × (runs_are_whole ends cut.0 ≡ true)
        × (any ends cut.1 ≡ false))
      (fun_ext terminates-is_end) (whole, kept.0, kept.1, kept.2)
