-- ===== src/Behavior/Parser/Chunks.antt =====
-- backend/app/behavior/parser.py: a stream shows the same text however it is cut into chunks.
use cyber_companion.Base.{
  ℕ, ◌+◌, ◌-◌, ◌≤◌, ◌<◌, ◌≡◌, refl, ap, sym, ◌∙◌, subst, Bool, true, false, not, inl, inr, Option,
  none, some, List, [], ◌∷◌, ◌++◌, arith, leb, ltb, length, length-append, length-take, take,
  take-append-drop, drop, is_some, if_cases, Bool-cases, length-drop, append-nil, append_assoc,
}
use cyber_companion.Base.Text.{Text, codes, starts_with, find}
use cyber_companion.Behavior.Parser.{
  sentinel_head, signals_sentinel, leaked_reminder_marker, split_sentinel, rfind, closes,
  sentinel_here, cut_at, held, let_out, strip_leaked_provider_reminder,
  strip_trailing_sentinel_fragment, StreamFilter, fresh_filter, release, fed, feed, flush, shown,
}
use cyber_companion.Behavior.Parser.Stream.{
  no_angle, find-prefix, find-suffix, split-prefix, split-append, split-no_angle, shift,
}

abbrev concat : List Text → Text
concat [] = []
concat (c ∷ cs) = c ++ concat cs

-- A text without a leaked reminder.
abbrev unleaked : Text → Bool
unleaked s = not (is_some (find s leaked_reminder_marker))

-- Of two ways to cut a text, the shorter beginning is the beginning of the longer one.
cut :
    (a b c d : Text)
    → a ++ b ≡ c ++ d
    → length a ≤ length c
    → (y : Text) × ((c ≡ a ++ y) × (b ≡ y ++ d))
cut [] b c d e h = (c, (refl, e))
cut (x ∷ a) b [] d e h = absurd (omega (arith, h))
cut (x ∷ a) b (z ∷ c) d e h =
    let (y, (p, q)) = cut a b c d (ground (arith, e)) (omega (arith, h)) in
    (y, (ground (arith, p, e), q))

-- Stripping a leaked reminder does nothing where there is none.
strip-unleaked : (s : Text) → unleaked s ≡ true → strip_leaked_provider_reminder s ≡ s
unfolding strip_leaked_provider_reminder
strip-unleaked s h = whole (find s leaked_reminder_marker) h
  where
    whole : (o : Option ℕ) → not (is_some o) ≡ true → cut_at s o ≡ s
    whole none h = unfold cut_at in refl
    whole (some i) h = absurd (ground (arith, h))

-- The branch that lets text out, where none of it is a leaked reminder: nothing is lost.
release-out :
    (buf : Text)
    → unleaked (take (length buf - 18) buf) ≡ true
    → release buf ≡ (take (length buf - 18) buf, held (drop (length buf - 18) buf))
unfolding release
release-out buf h =
    if_cases (λ r. r ≡ (take (length buf - 18) buf, held (drop (length buf - 18) buf)))
      (ltb 18 (length buf))
      (λ long. whole (find (take (length buf - 18) buf) leaked_reminder_marker) h)
      (λ short. short-out (length buf - 18) (ground (arith, short)))
  where
    whole :
        {out kept : Text} (o : Option ℕ)
        → not (is_some o) ≡ true
        → let_out out kept o ≡ (out, held kept)
    whole none h = unfold let_out in refl
    whole (some i) h = absurd (ground (arith, h))

    short-out :
        (n : ℕ)
        → n ≡ 0
        → ◌≡◌ {A = Text × StreamFilter} ([], held buf) (take n buf, held (drop n buf))
    short-out n e = rw e refl

module _ (is_word : ℕ → Bool) where
  done-shown : (cs : List Text) → shown is_word (record { buf = []; done = true }) cs ≡ []
  unfolding shown feed flush
  done-shown [] = refl
  done-shown (c ∷ cs) = done-shown cs

  -- A chunk that completes no sentinel, with nothing leaked in what is let out.
  fed-out :
      (buf chunk : Text)
      → split_sentinel is_word (buf ++ chunk) ≡ none
      → unleaked (take (length (buf ++ chunk) - 18) (buf ++ chunk)) ≡ true
      → let whole = buf ++ chunk in
        feed is_word chunk (held buf)
        ≡ (take (length whole - 18) whole, held (drop (length whole - 18) whole))
  unfolding feed fed
  fed-out buf chunk h k = rw h (release-out (buf ++ chunk) k)

  some-false : {A : Type 0} (o : Option A) → is_some o ≡ false → o ≡ none
  some-false none h = refl
  some-false (some a) h = absurd (ground (arith, h))

  angle-prefix : (a b : Text) → no_angle (a ++ b) ≡ true → no_angle a ≡ true
  angle-prefix [] b h = refl
  angle-prefix (c ∷ a) b h = ground (arith, h, angle-prefix a b)

  angle-suffix : (a b : Text) → no_angle (a ++ b) ≡ true → no_angle b ≡ true
  angle-suffix [] b h = h
  angle-suffix (c ∷ a) b h = ground (arith, h, angle-suffix a b)

  unleaked-prefix : (a b : Text) → unleaked (a ++ b) ≡ true → unleaked a ≡ true
  unleaked-prefix a b h = ground (arith, h, find-prefix a b leaked_reminder_marker)

  unleaked-suffix : (a b : Text) → unleaked (a ++ b) ≡ true → unleaked b ≡ true
  unleaked-suffix a b h = ground (arith, h, find-suffix a b leaked_reminder_marker)

  rfind-no_angle : (s : Text) → no_angle s ≡ true → rfind s sentinel_head ≡ none
  unfolding rfind starts_with
  rfind-no_angle [] h = refl
  rfind-no_angle (c ∷ s) h = rw (rfind-no_angle s (ground (arith, h))) (ground (arith, h))

  -- The text that a chunk lets out, before what is held and what is still to come.
  cut-total :
      (n : ℕ) (buf c rest : Text)
      → buf ++ (c ++ rest) ≡ take n (buf ++ c) ++ (drop n (buf ++ c) ++ rest)
  cut-total n buf c rest =
      sym (append_assoc buf c rest)
      ∙ (ap (λ w. w ++ rest) (sym (take-append-drop n (buf ++ c)))
          ∙ append_assoc (take n (buf ++ c)) (drop n (buf ++ c)) rest)

  flush-plain : (s : Text) → no_angle s ≡ true → unleaked s ≡ true → flush (held s) ≡ s
  unfolding flush strip_trailing_sentinel_fragment
  flush-plain s h k = rw (rfind-no_angle s h) (unfold cut_at in strip-unleaked s k)

  -- A plain reply, in chunks, from what is held on.
  plain-shown :
      (cs : List Text) (buf : Text)
      → no_angle (buf ++ concat cs) ≡ true
      → unleaked (buf ++ concat cs) ≡ true
      → shown is_word (held buf) cs ≡ buf ++ concat cs
  unfolding shown
  plain-shown [] buf h k =
      flush-plain buf (angle-prefix buf [] h) (unleaked-prefix buf [] k) ∙ sym (append-nil buf)
  plain-shown (c ∷ cs) buf h k =
      let whole = buf ++ c in
      let n = length whole - 18 in
      let rest = concat cs in
      let kept = drop n whole in
      let e = cut-total n buf c rest in
      let angle = subst (λ t. no_angle t ≡ true) e h in
      let leak = subst (λ t. unleaked t ≡ true) e k in
      let none_yet = split-no_angle is_word whole (
        angle-prefix whole rest
          (subst (λ t. no_angle t ≡ true) (sym (append_assoc buf c rest)) h)) in
      rw (fed-out buf c none_yet (unleaked-prefix (take n whole) (kept ++ rest) leak)) (
        ap (λ t. take n whole ++ t)
          (plain-shown cs kept (angle-suffix (take n whole) (kept ++ rest) angle)
            (unleaked-suffix (take n whole) (kept ++ rest) leak))
        ∙ sym e)

  -- A plain reply, without `<` and without a leaked reminder, is shown whole, however the stream
  -- cuts it into chunks.
  pub shown-plain :
      (cs : List Text)
      → no_angle (concat cs) ≡ true
      → unleaked (concat cs) ≡ true
      → shown is_word fresh_filter cs ≡ concat cs
  shown-plain cs h k = plain-shown cs [] h k

  -- The class `\w` has the capital letters and not `>`.
  pub record Word : Type 0 where
    pub capital : (c : ℕ) → 65 ≤ c → c ≤ 90 → is_word c ≡ true
    pub angle : is_word 62 ≡ false

  module _ (word : Word) where
    -- All of the sentinel but its last character.
    abbrev body : Text
    body = codes "<<<BOXI_SIGNALS>>"

    capitals :
        (is_word 65 ≡ true)
        × (is_word 71 ≡ true)
        × (is_word 73 ≡ true)
        × (is_word 76 ≡ true)
        × (is_word 78 ≡ true)
        × (is_word 83 ≡ true)
    capitals = (
      word.capital 65 (omega arith) (omega arith),
      word.capital 71 (omega arith) (omega arith),
      word.capital 73 (omega arith) (omega arith),
      word.capital 76 (omega arith) (omega arith),
      word.capital 78 (omega arith) (omega arith),
      word.capital 83 (omega arith) (omega arith),
    )

    split-mark : (y : Text) → split_sentinel is_word (signals_sentinel ++ y) ≡ some ([], y)
    unfolding split_sentinel sentinel_here closes starts_with
    split-mark y = let (a, g, i, l, n, s) = capitals in rw (word.angle, a, g, i, l, n, s) refl

    split-body : split_sentinel is_word body ≡ none
    unfolding split_sentinel sentinel_here closes starts_with
    split-body = let (a, g, i, l, n, s) = capitals in rw (word.angle, a, g, i, l, n, s) refl

    -- The chunk that completes the sentinel ends the stream.
    feed-mark :
        (buf c u y : Text)
        → buf ++ c ≡ (u ++ signals_sentinel) ++ y
        → no_angle u ≡ true
        → unleaked u ≡ true
        → feed is_word c (held buf) ≡ (u, (record { buf = []; done = true }))
    unfolding feed fed shift
    feed-mark buf c u y e h k =
        rw
          (
            e,
            append_assoc u signals_sentinel y,
            split-append is_word u (signals_sentinel ++ y) h,
            split-mark y,
            append-nil u,
            strip-unleaked u k,
          )
          refl

    -- Before that, no sentinel is found.
    split-before :
        (whole u y : Text)
        → u ++ body ≡ whole ++ y
        → no_angle u ≡ true
        → split_sentinel is_word whole ≡ none
    unfolding shift
    split-before whole u y e h =
        some-false (split_sentinel is_word whole) (
          split-prefix is_word whole y (rw (sym e, split-append is_word u body h, split-body) refl))

    marked-shown :
        (cs : List Text) (buf u trailer : Text)
        → buf ++ concat cs ≡ u ++ (signals_sentinel ++ trailer)
        → length buf < length u + 18
        → no_angle u ≡ true
        → unleaked u ≡ true
        → shown is_word (held buf) cs ≡ u
    unfolding shown
    marked-shown [] buf u trailer e lt h k = absurd (
        omega (
          arith,
          ap (λ t. length t) e,
          length-append buf [],
          length-append u (signals_sentinel ++ trailer),
          lt,
        ))
    marked-shown (c ∷ cs) buf u trailer e lt h k =
        let whole = buf ++ c in
        let rest = concat cs in
        elim (Bool-cases (leb (length u + 18) (length whole))) [
          | inl complete ↦
              let (y, (p, q)) =
                cut (u ++ signals_sentinel) trailer whole rest
                  (append_assoc u signals_sentinel trailer
                    ∙ (sym e ∙ sym (append_assoc buf c rest)))
                  (ground (arith, complete, length-append u signals_sentinel)) in
              rw (feed-mark buf c u y p h k, done-shown cs, append-nil u) refl
          | inr partial ↦
              let (y, (p, q)) =
                cut whole rest (u ++ body) (62 ∷ trailer)
                  (append_assoc buf c rest ∙ (e ∙ sym (append_assoc u body (62 ∷ trailer))))
                  (ground (arith, partial, length-append u body)) in
              let n = length whole - 18 in
              let out = take n whole in
              let kept = drop n whole in
              let (u', (r, s)) =
                cut out (kept ++ rest) u (signals_sentinel ++ trailer)
                  (sym (cut-total n buf c rest) ∙ e)
                  (ground (arith, partial, length-take n whole)) in
              let u_unleaked = subst (λ t. unleaked t ≡ true) r k in
              let u_angle = subst (λ t. no_angle t ≡ true) r h in
              rw (fed-out buf c (split-before whole u y p h) (unleaked-prefix out u' u_unleaked)) (
                ap (λ t. out ++ t)
                  (marked-shown cs kept u' trailer s
                    (ground (
                      arith,
                      partial,
                      length-drop n whole,
                      length-take n whole,
                      ap (λ t. length t) r,
                      length-append out u',
                    ))
                    (angle-suffix out u' u_angle) (unleaked-suffix out u' u_unleaked))
                ∙ sym r)
        ]

    -- A reply without `<` and without a leaked reminder, its sentinel and whatever follows: the
    -- stream shows the reply and no character of the rest, however it is cut into chunks.
    pub shown-marked :
        (cs : List Text) (reply trailer : Text)
        → concat cs ≡ reply ++ (signals_sentinel ++ trailer)
        → no_angle reply ≡ true
        → unleaked reply ≡ true
        → shown is_word fresh_filter cs ≡ reply
    shown-marked cs reply trailer e h k = marked-shown cs [] reply trailer e (omega arith) h k
