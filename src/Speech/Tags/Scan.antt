-- ===== src/Speech/Tags/Scan.antt =====
-- backend/app/tts/expression_tagger.py: cutting a text at its tags and writing it again.
use cyber_companion.Base.{
  ℕ, ◌≡◌, refl, sym, ap, Bool, true, false, not, ◌&&◌, Option, none, some, List, [], ◌∷◌, ◌++◌,
  arith, any, ◌==◌, ==_iff, if_cases,
}
use cyber_companion.Base.Text.{Text}
use cyber_companion.Speech.Tags.{Piece, char, tag, in_tag, opened, scan, pieces, written}

abbrev pub has_close : Text → Bool
has_close s = any (λ c. c == 93) s

-- Pieces that read back from what they write: no tag holds a `]`, and none follows a lone `[`.
abbrev pub well : List Piece → Bool
well [] = true
well (char c ∷ ps) = not (c == 91 && has_close (written ps)) && well ps
well (tag inner ∷ ps) = not (has_close inner) && well ps

-- What the scan holds of a text behind an open bracket.
abbrev Inside : Text → Option (Text × List Piece) → Type 0
Inside s none = has_close s ≡ false
Inside s (some (inner, rest)) =
    (s ≡ inner ++ 93 ∷ written rest) × (has_close inner ≡ false) × (well rest ≡ true)

abbrev Outside : Text → List Piece → Type 0
Outside s ps = (written ps ≡ s) × (well ps ≡ true)

opened-Outside :
    (s : Text) (ps : List Piece) (o : Option (Text × List Piece))
    → Outside s ps
    → Inside s o
    → Outside (91 ∷ s) (opened 91 ps o)
unfolding written
opened-Outside s ps none (p, w) i =
    let later : has_close (written ps) ≡ false = rw p i in
    (ap (λ t. 91 ∷ t) p, ground (arith, later, w))
opened-Outside s ps (some (inner, rest)) (p, w) (e, closed, v) =
    (ap (λ t. 91 ∷ t) (sym e), ground (arith, closed, v))

in_tag-Inside :
    (c : ℕ) (s : Text) (o : Option (Text × List Piece))
    → (c == 93) ≡ false
    → Inside s o
    → Inside (c ∷ s) (in_tag c o)
in_tag-Inside c s none other i = ground (arith, other, i)
in_tag-Inside c s (some (inner, rest)) other (e, closed, v) =
    (ap (λ t. c ∷ t) e, ground (arith, other, closed), v)

scan-ok : (s : Text) → Outside s (scan s).0 × Inside s (scan s).1
unfolding scan written
scan-ok [] = ((refl, refl), refl)
scan-ok (c ∷ s) =
    let (out, ins) = scan-ok s in
    (
      if_cases (Outside (c ∷ s)) (c == 91)
          (λ bracket. rw ((==_iff c 91).0 bracket) (opened-Outside s (scan s).0 (scan s).1 out ins))
          (λ other. (ap (λ t. c ∷ t) out.0, ground (arith, other, out.1))),
      if_cases (Inside (c ∷ s)) (c == 93)
          (λ close. (rw ((==_iff c 93).0 close) (ap (λ t. 93 ∷ t) (sym out.0)), refl, out.1))
          (λ other. in_tag-Inside c s (scan s).1 other ins),
    )

pub pieces-well : (s : Text) → well (pieces s) ≡ true
unfolding pieces
pieces-well s = (scan-ok s).0.1

pub written-pieces : (s : Text) → written (pieces s) ≡ s
unfolding pieces
written-pieces s = (scan-ok s).0.0

scan-none : (s : Text) → has_close s ≡ false → (scan s).1 ≡ none
unfolding scan
scan-none [] h = refl
scan-none (c ∷ s) h = ground (arith, h, scan-none s)

scan-inside :
    (inner s : Text)
    → has_close inner ≡ false
    → (scan (inner ++ 93 ∷ s)).1 ≡ some (inner, (scan s).0)
unfolding scan
scan-inside [] s h = refl
scan-inside (c ∷ inner) s h = rw (scan-inside inner s (ground (arith, h))) (ground (arith, h))

pub pieces-written : (ps : List Piece) → well ps ≡ true → pieces (written ps) ≡ ps
unfolding pieces scan written
pieces-written [] h = refl
pieces-written (char c ∷ ps) h =
    let later = pieces-written ps (ground (arith, h)) in
    if_cases (λ qs. qs ≡ char c ∷ ps) (c == 91)
      (λ bracket.
        rw (scan-none (written ps) (ground (arith, h, bracket))) (ap (λ qs. char c ∷ qs) later))
      (λ other. ap (λ qs. char c ∷ qs) later)
pieces-written (tag inner ∷ ps) h =
    rw (scan-inside inner (written ps) (ground (arith, h)))
      (ap (λ qs. tag inner ∷ qs) (pieces-written ps (ground (arith, h))))
