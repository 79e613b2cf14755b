-- ===== src/Behavior/Parser/Stream.antt =====
-- backend/app/behavior/parser.py: searching the pieces of a text.
use cyber_companion.Base.{
  ℕ, zero, suc, ◌≤◌, ◌≡◌, refl, sym, subst, Bool, true, false, not, ◌||◌, Option, none, some, [],
  ◌∷◌, ◌++◌, arith, any, ◌==◌, length, drop, is_some, if_cases,
}
use cyber_companion.Base.Text.{Text, starts_with, find}
use cyber_companion.Behavior.Parser.{
  sentinel_head, sentinel_tail, put_before, or_later, closes, sentinel_here, split_sentinel,
}

-- A text without `<`.
abbrev pub no_angle : Text → Bool
no_angle s = not (any (λ c. c == 60) s)

-- What stands at the head of a text stands at the head of a longer one.
starts-append : (s t p : Text) → starts_with s p ≡ true → starts_with (s ++ t) p ≡ true
unfolding starts_with
starts-append s t [] h = ground arith
starts-append [] t (p ∷ ps) h = ground (arith, h)
starts-append (c ∷ s) t (p ∷ ps) h = ground (arith, h, starts-append s t ps)

found-at_head : (s p : Text) → starts_with s p ≡ true → is_some (find s p) ≡ true
unfolding find
found-at_head [] p h = ground (arith, h)
found-at_head (c ∷ s) p h = ground (arith, h)

starts-length : (s p : Text) → starts_with s p ≡ true → length p ≤ length s
unfolding starts_with
starts-length s [] h = omega arith
starts-length [] (p ∷ ps) h = ground (arith, h)
starts-length (c ∷ s) (p ∷ ps) h = ground (arith, h, starts-length s ps)

drop-append_long : (n : ℕ) (s t : Text) → n ≤ length s → drop n (s ++ t) ≡ drop n s ++ t
drop-append_long zero s t h = refl
drop-append_long (suc n) [] t h = absurd (omega (arith, h))
drop-append_long (suc n) (c ∷ s) t h = drop-append_long n s t (omega (arith, h))

-- What is not in a text is neither in its beginning nor in its end.
pub find-prefix : (s t p : Text) → is_some (find (s ++ t) p) ≡ false → is_some (find s p) ≡ false
unfolding find
find-prefix [] t p h = ground (arith, h, found-at_head t p, starts-append [] t p)
find-prefix (c ∷ s) t p h = ground (arith, h, starts-append (c ∷ s) t p, find-prefix s t p)

pub find-suffix : (s t p : Text) → is_some (find (s ++ t) p) ≡ false → is_some (find t p) ≡ false
unfolding find
find-suffix [] t p h = h
find-suffix (c ∷ s) t p h = ground (arith, h, find-suffix s t p)

module _ (is_word : ℕ → Bool) where
  closes-append :
      (n : ℕ) (s t : Text)
      → is_some (closes is_word n s) ≡ true
      → is_some (closes is_word n (s ++ t)) ≡ true
  unfolding closes
  closes-append n [] t h = ground (arith, h)
  closes-append n (c ∷ s) t h =
      ground (arith, h, closes-append (suc n) s t, starts-append (c ∷ s) t sentinel_tail)

  here-append :
      (s t : Text)
      → is_some (sentinel_here is_word s) ≡ true
      → is_some (sentinel_here is_word (s ++ t)) ≡ true
  unfolding sentinel_here
  here-append s t =
      if_cases (λ o. is_some o ≡ true → is_some (sentinel_here is_word (s ++ t)) ≡ true)
        (starts_with s sentinel_head) {x = closes is_word 0 (drop 8 s)} {y = none}
        (λ head h.
          rw
            (
              starts-append s t sentinel_head head,
              drop-append_long 8 s t (omega (arith, starts-length s sentinel_head head)),
            )
            (closes-append 0 (drop 8 s) t h))
        (λ head h. ground (arith, h))

  some-or_later :
      (o : Option Text) (c : ℕ) (later : Option (Text × Text))
      → is_some (or_later o (put_before c later)) ≡ (is_some o || is_some later)
  some-or_later none c none = refl
  some-or_later none c (some later) = refl
  some-or_later (some after) c later = refl

  -- A sentinel stays one when more text comes.
  pub split-prefix :
      (s t : Text)
      → is_some (split_sentinel is_word (s ++ t)) ≡ false
      → is_some (split_sentinel is_word s) ≡ false
  unfolding split_sentinel
  split-prefix [] t h = refl
  split-prefix (c ∷ s) t h =
      rw (some-or_later (sentinel_here is_word (c ∷ s)) c (split_sentinel is_word s)) (
        ground (
          arith,
          split-prefix s t,
          here-append (c ∷ s) t,
          subst (λ b. b ≡ false)
              (some-or_later (sentinel_here is_word (c ∷ s ++ t)) c
                (split_sentinel is_word (s ++ t)))
              h,
        ))

  -- No sentinel begins in a text without `<`.
  unfoldable pub shift : Text → Option (Text × Text) → Option (Text × Text)
  shift u none = none
  shift u (some (before, after)) = some (u ++ before, after)

  shift-nil : (o : Option (Text × Text)) → shift [] o ≡ o
  unfolding shift
  shift-nil none = refl
  shift-nil (some (before, after)) = refl

  shift-cons :
      (c : ℕ) (u : Text) (o : Option (Text × Text)) → put_before c (shift u o) ≡ shift (c ∷ u) o
  unfolding shift
  shift-cons c u none = refl
  shift-cons c u (some (before, after)) = refl

  here-angle : (c : ℕ) (s : Text) → (c == 60) ≡ false → sentinel_here is_word (c ∷ s) ≡ none
  unfolding sentinel_here starts_with
  here-angle c s h = rw h refl

  pub split-append :
      (u w : Text)
      → no_angle u ≡ true
      → split_sentinel is_word (u ++ w) ≡ shift u (split_sentinel is_word w)
  unfolding split_sentinel
  split-append [] w h = sym (shift-nil (split_sentinel is_word w))
  split-append (c ∷ u) w h =
      rw (here-angle c (u ++ w) (ground (arith, h)), split-append u w (ground (arith, h)))
        (shift-cons c u (split_sentinel is_word w))

  pub split-no_angle : (u : Text) → no_angle u ≡ true → split_sentinel is_word u ≡ none
  unfolding split_sentinel
  split-no_angle [] h = refl
  split-no_angle (c ∷ u) h =
      rw (here-angle c u (ground (arith, h)), split-no_angle u (ground (arith, h))) refl
