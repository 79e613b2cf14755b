-- ===== src/Base/Float.antt =====
-- Python's floats, as an interface: the program's decisions rest on comparisons, and on how the
-- operations move within the unit interval. The laws are those of IEEE 754 doubles. None of them
-- says that the order is total: a comparison with NaN is false.
use mathlib.Core.Path.{◌≡◌}
use mathlib.Core.Bool.{Bool, true}
use mathlib.Core.Logic.{inl, inr}
use Prim.Native.Nat.{ℕ, ◌^◌, ◌<◌}
use cyber_companion.Base.Tests.{if◌then◌else◌, Bool-cases}

pub record Float : Type 1 where
  pub F : Type 0
  -- the literal n / 10 ^ k
  pub dec : ℕ → ℕ → F
  pub plus : F → F → F
  pub minus : F → F → F
  pub times : F → F → F
  pub over : F → F → F
  pub lt : F → F → Bool
  pub le : F → F → Bool
  -- round(x, k)
  pub round : ℕ → F → F
  pub le_of_lt : (a b : F) → lt a b ≡ true → le a b ≡ true
  pub dec_nonneg : (n k : ℕ) → le (dec 0 0) (dec n k) ≡ true
  pub one_le_one : le (dec 1 0) (dec 1 0) ≡ true
  pub zero_le_one : le (dec 0 0) (dec 1 0) ≡ true
  pub plus_nonneg :
      (a b : F) → le (dec 0 0) a ≡ true → le (dec 0 0) b ≡ true → le (dec 0 0) (plus a b) ≡ true
  -- Bounded, so that no infinity meets a zero or another infinity.
  pub times_nonneg :
      (n k : ℕ) (b : F)
      → n < 2 ^ 53
      → le (dec 0 0) b ≡ true
      → le b (dec 1 0) ≡ true
      → le (dec 0 0) (times (dec n k) b) ≡ true
  pub minus_nonneg :
      (a b : F)
      → le (dec 0 0) b ≡ true
      → le b a ≡ true
      → le a (dec 1 0) ≡ true
      → le (dec 0 0) (minus a b) ≡ true
  pub minus_le_one :
      (a b : F) → le a (dec 1 0) ≡ true → le (dec 0 0) b ≡ true → le (minus a b) (dec 1 0) ≡ true
  pub round_nonneg : (k : ℕ) (a : F) → le (dec 0 0) a ≡ true → le (dec 0 0) (round k a) ≡ true
  pub round_le_one : (k : ℕ) (a : F) → le a (dec 1 0) ≡ true → le (round k a) (dec 1 0) ≡ true

module _ (fl : Float) where
  open fl use {F, dec, plus, minus, lt, le, round, le_of_lt, dec_nonneg, one_le_one, zero_le_one}

  -- Python's two-argument `max` and `min` return the first argument unless the second beats it.
  unfoldable pub max_f : F → F → F
  max_f a b = if lt a b then b else a

  unfoldable pub min_f : F → F → F
  min_f a b = if lt b a then b else a

  -- `max(0.0, min(1.0, value))`
  unfoldable pub clamp01 : F → F
  clamp01 value = max_f (dec 0 0) (min_f (dec 1 0) value)

  pub record InUnit (v : F) : Type 0 where
    pub low : le (dec 0 0) v ≡ true
    pub high : le v (dec 1 0) ≡ true

  pub min_f-le-one : (v : F) → le (min_f (dec 1 0) v) (dec 1 0) ≡ true
  unfolding min_f
  min_f-le-one v = elim (Bool-cases (lt v (dec 1 0))) [
    | inl h ↦ rw h (le_of_lt v (dec 1 0) h)
    | inr h ↦ rw h one_le_one
  ]

  pub min_f-nonneg : (v : F) → le (dec 0 0) v ≡ true → le (dec 0 0) (min_f (dec 1 0) v) ≡ true
  unfolding min_f
  min_f-nonneg v p = elim (Bool-cases (lt v (dec 1 0))) [
    | inl h ↦ rw h p
    | inr h ↦ rw h zero_le_one
  ]

  pub max_f-nonneg : (v : F) → le (dec 0 0) (max_f (dec 0 0) v) ≡ true
  unfolding max_f
  max_f-nonneg v = elim (Bool-cases (lt (dec 0 0) v)) [
    | inl h ↦ rw h (le_of_lt (dec 0 0) v h)
    | inr h ↦ rw h (dec_nonneg 0 0)
  ]

  pub max_f-le-one : (v : F) → le v (dec 1 0) ≡ true → le (max_f (dec 0 0) v) (dec 1 0) ≡ true
  unfolding max_f
  max_f-le-one v p = elim (Bool-cases (lt (dec 0 0) v)) [
    | inl h ↦ rw h p
    | inr h ↦ rw h zero_le_one
  ]

  -- Whatever the value, NaN included, the clamped one lies in the unit interval.
  pub clamp01-InUnit : (v : F) → InUnit (clamp01 v)
  unfolding clamp01
  clamp01-InUnit v = record {
    low = max_f-nonneg (min_f (dec 1 0) v);
    high = max_f-le-one (min_f (dec 1 0) v) (min_f-le-one v);
  }

  pub round-InUnit : (k : ℕ) (v : F) → InUnit v → InUnit (round k v)
  round-InUnit k v h = record { low = fl.round_nonneg k v h.low; high = fl.round_le_one k v h.high }

  -- `min(1.0, v + d)` for a nonnegative `d`
  pub raise-InUnit :
      (v d : F) → InUnit v → le (dec 0 0) d ≡ true → InUnit (min_f (dec 1 0) (plus v d))
  raise-InUnit v d h p = record {
    low = min_f-nonneg (plus v d) (fl.plus_nonneg v d h.low p);
    high = min_f-le-one (plus v d);
  }

  -- `max(0.0, v - d)` for a nonnegative `d`
  pub lower-InUnit :
      (v d : F) → InUnit v → le (dec 0 0) d ≡ true → InUnit (max_f (dec 0 0) (minus v d))
  lower-InUnit v d h p = record {
    low = max_f-nonneg (minus v d);
    high = max_f-le-one (minus v d) (fl.minus_le_one v d h.high p);
  }
