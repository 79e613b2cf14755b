-- ===== src/Base/Text.antt =====
-- Python texts as lists of code points, with the string methods that the program uses.
use Prim.Native.Nat.{ℕ, zero, suc, ◌+◌, ◌-◌, ◌*◌, ◌/◌, ◌%◌, ◌<◌, ◌≤◌}
use Prim.Native.Char.{code}
use Prim.Native.String.{String}
use mathlib.Core.Path.{◌≡◌, refl, ◌∙◌}
use mathlib.Core.Bool.{Bool, true, false, ◌&&◌, ◌||◌}
use mathlib.Core.List.{List, [], ◌∷◌, ◌++◌, reverse, reverse-cons}
use mathlib.Core.Option.{Option, none, some}
use mathlib.Core.Logic.{◌↔◌}
use native.Mathlib.Omega.{arith}
use cyber_companion.Base.Lists.{length, length-append}
use cyber_companion.Base.Tests.{leb, ltb, ◌==◌, if◌then◌else◌}

abbrev pub Text : Type 0
Text = List ℕ

abbrev pub codes : String → Text
codes String.[] = []
codes (String.◌∷◌ c s) = code c ∷ codes s

-- The code points that `str.isspace` accepts.
unfoldable pub is_space : ℕ → Bool
is_space c =
    (leb 9 c && leb c 13)
    || (leb 28 c && leb c 32)
    || c == 0x85
    || c == 0xa0
    || c == 0x1680
    || (leb 0x2000 c && leb c 0x200a)
    || c == 0x2028
    || c == 0x2029
    || c == 0x202f
    || c == 0x205f
    || c == 0x3000

unfoldable pub lstrip : Text → Text
unfolding is_space
lstrip [] = []
lstrip (c ∷ s) = let rest = lstrip s in if is_space c then rest else c ∷ s

unfoldable pub rstrip : Text → Text
unfolding lstrip
rstrip s = reverse (lstrip (reverse s))

unfoldable pub strip : Text → Text
unfolding lstrip rstrip
strip s = rstrip (lstrip s)

unfoldable pub text_eq : Text → Text → Bool
text_eq [] [] = true
text_eq [] (d ∷ t) = false
text_eq (c ∷ s) [] = false
text_eq (c ∷ s) (d ∷ t) = c == d && text_eq s t

unfoldable pub text_in : Text → List Text → Bool
unfolding text_eq
text_in s [] = false
text_in s (t ∷ ts) = text_eq s t || text_in s ts

unfoldable pub starts_with : Text → Text → Bool
starts_with s [] = true
starts_with [] (p ∷ ps) = false
starts_with (c ∷ s) (p ∷ ps) = c == p && starts_with s ps

-- `s.find(t)`: the first index, `none` for -1.
unfoldable pub find : Text → Text → Option ℕ
unfolding starts_with
find [] t = if starts_with [] t then some 0 else none
find (c ∷ s) t =
    let later : Option ℕ = elim (find s t) [ none ↦ none | some i ↦ some (suc i) ] in
    if starts_with (c ∷ s) t then some 0 else later

-- `t in s`
unfoldable pub contains : Text → Text → Bool
unfolding find
contains s t = elim (find s t) [ none ↦ false | some i ↦ true ]

-- Python's `s < t` on texts.
unfoldable pub text_lt : Text → Text → Bool
text_lt s [] = false
text_lt [] (d ∷ t) = true
text_lt (c ∷ s) (d ∷ t) = ltb c d || (c == d && text_lt s t)

unfoldable pub is_empty : Text → Bool
is_empty [] = true
is_empty (c ∷ s) = false

-- `sep.join(parts)`
unfoldable pub join : Text → List Text → Text
join sep [] = []
join sep (s ∷ []) = s
join sep (s ∷ t ∷ rest) = s ++ (sep ++ join sep (t ∷ rest))

-- Stripping makes no text longer.
pub length-lstrip : (s : Text) → length (lstrip s) ≤ length s
unfolding lstrip
length-lstrip [] = omega arith
length-lstrip (c ∷ s) = ground (arith, length-lstrip s)

pub length-reverse : (s : Text) → length (reverse s) ≡ length s
length-reverse [] = refl
length-reverse (c ∷ s) =
    rw (reverse-cons c s, length-append (reverse s) (c ∷ [])) (omega (arith, length-reverse s))

pub length-rstrip : (s : Text) → length (rstrip s) ≤ length s
unfolding rstrip
length-rstrip s =
    omega (arith, length-reverse (lstrip (reverse s)), length-lstrip (reverse s), length-reverse s)

pub length-strip : (s : Text) → length (strip s) ≤ length s
unfolding strip
length-strip s = omega (arith, length-rstrip (lstrip s), length-lstrip s)

pub text_eq→eq : (s t : Text) → text_eq s t ≡ true → s ≡ t
unfolding text_eq
text_eq→eq [] [] h = refl
text_eq→eq [] (d ∷ t) h = cc
text_eq→eq (c ∷ s) [] h = cc
text_eq→eq (c ∷ s) (d ∷ t) h = ground (arith, text_eq→eq s t)

pub text_eq_refl : (s : Text) → text_eq s s ≡ true
unfolding text_eq
text_eq_refl [] = refl
text_eq_refl (c ∷ s) = ground (arith, text_eq_refl s)

pub text_eq_iff : (s t : Text) → (text_eq s t ≡ true) ↔ (s ≡ t)
text_eq_iff s t = (text_eq→eq s t, λ e. rw e (text_eq_refl t))

-- `str(n)` and `int(s)` for numbers that are not negative; `none` is the ValueError.
show_digits : ℕ → ℕ → Text
show_digits zero n = []
show_digits (suc f) n =
    let front = show_digits f (n / 10) in
    if ltb n 10 then (48 + n) ∷ [] else front ++ (48 + n % 10) ∷ []

unfoldable pub show : ℕ → Text
unfolding show_digits
show n = show_digits (suc n) n

parse_digits : ℕ → Text → Option ℕ
parse_digits n [] = some n
parse_digits n (c ∷ s) = if leb 48 c && leb c 57 then parse_digits (n * 10 + (c - 48)) s else none

unfoldable pub parse_int : Text → Option ℕ
unfolding parse_digits
parse_int [] = none
parse_int (c ∷ s) = parse_digits 0 (c ∷ s)

parse_digits-append :
    (n v d : ℕ) (s : Text)
    → parse_digits n s ≡ some v
    → d < 10
    → parse_digits n (s ++ (48 + d) ∷ []) ≡ some (v * 10 + d)
unfolding parse_digits
parse_digits-append n v d [] h k = ground arith
parse_digits-append n v d (c ∷ s) h k =
    ground (arith, parse_digits-append (n * 10 + (c - 48)) v d s)

parse-show_digits : (f n : ℕ) → n < f → parse_digits 0 (show_digits f n) ≡ some n
unfolding parse_digits show_digits
parse-show_digits zero n h = absurd (omega arith)
parse-show_digits (suc f) n h = ground (
  arith,
  parse-show_digits f (n / 10),
  parse_digits-append 0 (n / 10) (n % 10) (show_digits f (n / 10)),
)

is_empty-snoc : (s : Text) (c : ℕ) → is_empty (s ++ c ∷ []) ≡ false
unfolding is_empty
is_empty-snoc [] c = refl
is_empty-snoc (d ∷ s) c = refl

is_empty-show_digits : (f n : ℕ) → is_empty (show_digits (suc f) n) ≡ false
unfolding show_digits is_empty
is_empty-show_digits f n = ground (arith, is_empty-snoc (show_digits f (n / 10)) (48 + n % 10))

parse_int-digits : (s : Text) → is_empty s ≡ false → parse_int s ≡ parse_digits 0 s
unfolding parse_int is_empty
parse_int-digits [] h = cc
parse_int-digits (c ∷ s) h = refl

pub parse_int-show : (n : ℕ) → parse_int (show n) ≡ some n
unfolding show
parse_int-show n =
    parse_int-digits (show_digits (suc n) n) (is_empty-show_digits n n)
    ∙ parse-show_digits (suc n) n (omega arith)
