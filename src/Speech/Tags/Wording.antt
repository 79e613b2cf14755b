-- ===== src/Speech/Tags/Wording.antt =====
-- backend/app/tts/expression_tagger.py: the guards of tags change no word of a text.
use cyber_companion.Base.{
  ℕ, ◌≡◌, refl, sym, ap, ◌∙◌, Bool, true, false, Option, none, some, List, [], ◌∷◌, ◌++◌, arith,
  ◌==◌, if_cases, reverse, reverse-cons, reverse-reverse, append-nil, if◌then◌else◌,
}
use cyber_companion.Base.Text.{Text, is_space, lstrip, rstrip, strip}
use cyber_companion.Speech.Tags.{Piece, char, tag, in_tag, opened, scan, pieces, words, squeeze}

-- What is heard of a text: neither its tags nor its white space.
unfoldable pub heard : Text → Text
unfolding squeeze words pieces
heard s = squeeze (words (pieces s))

squeeze-append : (s t : Text) → squeeze (s ++ t) ≡ squeeze s ++ squeeze t
unfolding squeeze
squeeze-append [] t = refl
squeeze-append (c ∷ s) t = ground (arith, squeeze-append s t)

squeeze-space : (c : ℕ) (s : Text) → is_space c ≡ true → squeeze (c ∷ s) ≡ squeeze s
unfolding squeeze
squeeze-space c s h = ground (arith, h)

-- White space at the end of a text is a piece of its own.
after_space : ℕ → Option (Text × List Piece) → Option (Text × List Piece)
after_space c none = none
after_space c (some (inner, rest)) = some (inner, rest ++ char c ∷ [])

opened-snoc :
    (c d : ℕ) (b : Bool) (ps : List Piece) (o : Option (Text × List Piece))
    → (if b then opened d (ps ++ char c ∷ []) (after_space c o) else char d ∷ (ps ++ char c ∷ []))
      ≡ (if b then opened d ps o else char d ∷ ps) ++ char c ∷ []
unfolding after_space
opened-snoc c d true ps none = refl
opened-snoc c d true ps (some (inner, rest)) = refl
opened-snoc c d false ps o = refl

in_tag-snoc :
    (c d : ℕ) (b : Bool) (ps : List Piece) (o : Option (Text × List Piece))
    → (if b then some ([], ps ++ char c ∷ []) else in_tag d (after_space c o))
      ≡ after_space c (if b then some ([], ps) else in_tag d o)
unfolding after_space
in_tag-snoc c d true ps o = refl
in_tag-snoc c d false ps none = refl
in_tag-snoc c d false ps (some (inner, rest)) = refl

no_bracket : (c : ℕ) → is_space c ≡ true → ((c == 91) ≡ false) × ((c == 93) ≡ false)
unfolding is_space
no_bracket c h = (ground (arith, h), ground (arith, h))

scan-snoc :
    (s : Text) (c : ℕ)
    → is_space c ≡ true
    → scan (s ++ c ∷ []) ≡ ((scan s).0 ++ char c ∷ [], after_space c (scan s).1)
unfolding scan
scan-snoc [] c h = let (left, right) = no_bracket c h in unfold after_space in rw (left, right) refl
scan-snoc (d ∷ s) c h =
    rw
      (
        scan-snoc s c h,
        opened-snoc c d (d == 91) (scan s).0 (scan s).1,
        in_tag-snoc c d (d == 93) (scan s).0 (scan s).1,
      )
      refl

words-snoc : (ps : List Piece) (c : ℕ) → words (ps ++ char c ∷ []) ≡ words ps ++ c ∷ []
unfolding words
words-snoc [] c = refl
words-snoc (char d ∷ ps) c = ap (λ s. d ∷ s) (words-snoc ps c)
words-snoc (tag inner ∷ ps) c = words-snoc ps c

heard-snoc : (s : Text) (c : ℕ) → is_space c ≡ true → heard (s ++ c ∷ []) ≡ heard s
unfolding heard pieces squeeze
heard-snoc s c h =
    let inner = words (scan s).0 in
    let last : squeeze (c ∷ []) ≡ [] = squeeze-space c [] h in
    ap (λ (r : List Piece × Option (Text × List Piece)). squeeze (words r.0)) (scan-snoc s c h)
    ∙ (ap squeeze (words-snoc (scan s).0 c)
        ∙ (squeeze-append inner (c ∷ [])
            ∙ (ap (λ t. squeeze inner ++ t) last ∙ append-nil (squeeze inner))))

heard-reverse : (s : Text) → heard (reverse (lstrip s)) ≡ heard (reverse s)
unfolding lstrip
heard-reverse [] = refl
heard-reverse (c ∷ s) =
    if_cases (λ t. heard (reverse t) ≡ heard (reverse (c ∷ s))) (is_space c)
      (λ space. rw (reverse-cons c s, heard-snoc (reverse s) c space) (heard-reverse s))
      (λ other. refl)

pub heard-rstrip : (s : Text) → heard (rstrip s) ≡ heard s
unfolding rstrip
heard-rstrip s = heard-reverse (reverse s) ∙ ap heard (reverse-reverse s)

squeeze-reverse : (s : Text) → squeeze (reverse (lstrip s)) ≡ squeeze (reverse s)
unfolding lstrip squeeze
squeeze-reverse [] = refl
squeeze-reverse (c ∷ s) =
    if_cases (λ t. squeeze (reverse t) ≡ squeeze (reverse (c ∷ s))) (is_space c)
      (λ space.
        rw (reverse-cons c s, squeeze-append (reverse s) (c ∷ []), squeeze-space c [] space)
          (squeeze-reverse s ∙ sym (append-nil (squeeze (reverse s)))))
      (λ other. refl)

squeeze-lstrip : (s : Text) → squeeze (lstrip s) ≡ squeeze s
unfolding lstrip
squeeze-lstrip [] = refl
squeeze-lstrip (c ∷ s) =
    if_cases (λ t. squeeze t ≡ squeeze (c ∷ s)) (is_space c)
      (λ space. squeeze-lstrip s ∙ sym (squeeze-space c s space)) (λ other. refl)

pub squeeze-strip : (s : Text) → squeeze (strip s) ≡ squeeze s
unfolding strip rstrip
squeeze-strip s =
    squeeze-reverse (reverse (lstrip s))
    ∙ (ap squeeze (reverse-reverse (lstrip s)) ∙ squeeze-lstrip s)
