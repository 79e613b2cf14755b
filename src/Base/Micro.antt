-- ===== src/Base/Micro.antt =====
-- A model of the float interface, for tests and witnesses: integers that count millionths.
use cyber_companion.Base.{ℕ, ◌+◌, ◌*◌, ◌/◌, ◌^◌, ◌≡◌, refl, true, arith, ◌==◌, if◌then◌else◌}
use cyber_companion.Base.Int.{ℤ, pos, negsuc, ◌+ℤ◌, ◌-ℤ◌, ltb_ℤ, leb_ℤ, sub_ℕ}
use cyber_companion.Base.Float.{Float}

-- The product of two numbers of millionths, cut toward zero.
abbrev pub mul : ℤ → ℤ → ℤ
mul (pos a) (pos b) = pos (a * b / 1_000_000)
mul (pos a) (negsuc b) = sub_ℕ 0 (a * (b + 1) / 1_000_000)
mul (negsuc a) (pos b) = sub_ℕ 0 ((a + 1) * b / 1_000_000)
mul (negsuc a) (negsuc b) = pos ((a + 1) * (b + 1) / 1_000_000)

abbrev pub div : ℤ → ℤ → ℤ
div (pos a) (pos b) = pos (a * 1_000_000 / b)
div (pos a) (negsuc b) = sub_ℕ 0 (a * 1_000_000 / (b + 1))
div (negsuc a) (pos b) = sub_ℕ 0 ((a + 1) * 1_000_000 / b)
div (negsuc a) (negsuc b) = pos ((a + 1) * 1_000_000 / (b + 1))

-- The nearest multiple of `g`, half up.
abbrev pub grid : ℕ → ℕ → ℕ
grid g n = (n + g / 2) / g * g

-- Three and four digits are rounded; no other number of digits is asked for.
abbrev pub round_at : ℕ → ℤ → ℤ
round_at k (pos n) =
    if k == 3 then pos (grid 1000 n) else if k == 4 then pos (grid 100 n) else pos n
round_at k (negsuc n) =
    if k == 3
    then sub_ℕ 0 (grid 1000 (n + 1))
    else if k == 4
    then sub_ℕ 0 (grid 100 (n + 1))
    else negsuc n

abbrev pub decimal : ℕ → ℕ → ℤ
decimal n k = pos (n * 1_000_000 / 10 ^ k)

pub micro_plus_nonneg :
    (a b : ℤ) → leb_ℤ (pos 0) a ≡ true → leb_ℤ (pos 0) b ≡ true → leb_ℤ (pos 0) (a +ℤ b) ≡ true
unfolding ◌+ℤ◌
micro_plus_nonneg a b h k = ground arith

pub micro_times_nonneg :
    (a b : ℤ) → leb_ℤ (pos 0) a ≡ true → leb_ℤ (pos 0) b ≡ true → leb_ℤ (pos 0) (mul a b) ≡ true
micro_times_nonneg (pos a) (pos b) h k = ground arith
micro_times_nonneg (pos a) (negsuc b) h k = ground arith
micro_times_nonneg (negsuc a) (pos b) h k = ground arith
micro_times_nonneg (negsuc a) (negsuc b) h k = ground arith

pub micro_minus_nonneg : (a b : ℤ) → leb_ℤ b a ≡ true → leb_ℤ (pos 0) (a -ℤ b) ≡ true
unfolding ◌-ℤ◌
micro_minus_nonneg a b h = ground arith

pub micro_minus_le_one :
    (a b : ℤ)
    → leb_ℤ a (decimal 1 0) ≡ true
    → leb_ℤ (pos 0) b ≡ true
    → leb_ℤ (a -ℤ b) (decimal 1 0) ≡ true
unfolding ◌-ℤ◌
micro_minus_le_one a b h k = ground arith

pub micro_round_nonneg :
    (k : ℕ) (a : ℤ) → leb_ℤ (pos 0) a ≡ true → leb_ℤ (pos 0) (round_at k a) ≡ true
micro_round_nonneg k (pos n) h = ground arith
micro_round_nonneg k (negsuc n) h = ground arith

pub micro_round_le_one :
    (k : ℕ) (a : ℤ) → leb_ℤ a (decimal 1 0) ≡ true → leb_ℤ (round_at k a) (decimal 1 0) ≡ true
micro_round_le_one k (pos n) h = ground arith
micro_round_le_one k (negsuc n) h = ground arith

pub le_of_lt_lem : (a b : ℤ) → ltb_ℤ a b ≡ true → leb_ℤ a b ≡ true
le_of_lt_lem a b h = ground arith

pub decimal_nonneg : (n k : ℕ) → leb_ℤ (pos 0) (decimal n k) ≡ true
decimal_nonneg n k = ground arith

abbrev pub micro : Float
micro = record {
  F = ℤ;
  dec = decimal;
  plus = ◌+ℤ◌;
  minus = ◌-ℤ◌;
  times = mul;
  over = div;
  lt = ltb_ℤ;
  le = leb_ℤ;
  round = round_at;
  le_of_lt = le_of_lt_lem;
  dec_nonneg = decimal_nonneg;
  one_le_one = refl;
  zero_le_one = refl;
  plus_nonneg = micro_plus_nonneg;
  times_nonneg =
      λ n k b small low high. micro_times_nonneg (decimal n k) b (decimal_nonneg n k) low;
  minus_nonneg = λ a b low le_ab high. micro_minus_nonneg a b le_ab;
  minus_le_one = micro_minus_le_one;
  round_nonneg = micro_round_nonneg;
  round_le_one = micro_round_le_one;
}
