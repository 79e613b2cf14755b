-- ===== src/Store/Context/Packing.antt =====
-- backend/app/memory/context_builder.py: what fits into the token budget.
use cyber_companion.Base.{
  ℕ, suc, ◌+◌, ◌*◌, ◌≤◌, ◌<◌, ◌≡◌, refl, ap, Bool, List, [], ◌∷◌, ◌++◌, arith, length,
  length-append, length-take, take, ltb, leb, ◌==◌, ◌||◌, if_cases,
}
use cyber_companion.Base.Text.{Text, rstrip, length-rstrip}
use cyber_companion.Store.Cost.{estimate_token_count, sum_tokens, estimate_token_count-le}
use cyber_companion.Store.Context.Prompt.{
  truncation_suffix, truncate_user_input_for_provider, pack_from, pack_sections,
}

-- What the loop returns, from `used` tokens on.
abbrev Packed : ℕ → ℕ → List Text → List Text × Bool → Type 0
Packed used most sections r =
    (r.0 ≡ take (length r.0) sections)
    × (used + sum_tokens r.0 ≤ most)
    × (r.1 ≡ ltb (length r.0) (length sections))
    × (r.1 ≡ ltb most (used + sum_tokens (take (suc (length r.0)) sections)))

pack_from-Packed :
    (used most : ℕ) (sections : List Text)
    → used ≤ most
    → Packed used most sections (pack_from used most sections)
unfolding pack_from
pack_from-Packed used most [] h = (refl, omega (arith, h), refl, ground (arith, h))
pack_from-Packed used most (s ∷ ss) h =
    let used' = used + estimate_token_count s in
    let rest = pack_from-Packed used' most ss in
    if_cases (Packed used most (s ∷ ss)) (ltb most used')
      (λ over. (refl, omega (arith, h), ground arith, ground (arith, over)))
      (λ fits.
        let (prefix, total, stops, next) = rest (ground (arith, fits)) in
        (ap (◌∷◌ s) prefix, omega (arith, total), ground (arith, stops), ground (arith, next)))

-- The sections that are packed are the longest prefix that fits: they are a prefix, within the limit,
-- and the packing is marked as cut exactly if a section is left out, exactly if one more would pass
-- the limit.
pub pack_sections-longest :
    (sections : List Text) (most : ℕ)
    → let (packed, truncated) = pack_sections sections most in
      (packed ≡ take (length packed) sections)
      × (sum_tokens packed ≤ most)
      × (truncated ≡ ltb (length packed) (length sections))
      × (truncated ≡ ltb most (sum_tokens (take (suc (length packed)) sections)))
unfolding pack_sections
pack_sections-longest sections most =
    let (prefix, total, stops, next) = pack_from-Packed 0 most sections (omega arith) in
    (prefix, omega (arith, total), stops, ground (arith, next))

-- With a positive limit, the model is given at most five tokens of the user's text above it,
-- by the estimate of the program.
pub truncate_user_input-bound :
    (user_input : Text) (most : ℕ)
    → 0 < most
    → estimate_token_count (truncate_user_input_for_provider user_input most) ≤ most + 5
unfolding truncate_user_input_for_provider
truncate_user_input-bound s most h =
    if_cases (λ t. estimate_token_count t ≤ most + 5)
      (most == 0 || leb (estimate_token_count s) most) (λ short. ground (arith, short))
      (λ long.
        let clipped = rstrip (take (most * 3) s) in
        omega (
          arith,
          estimate_token_count-le (clipped ++ truncation_suffix),
          length-append clipped truncation_suffix,
          length-rstrip (take (most * 3) s),
          length-take (most * 3) s,
        ))
