-- ===== src/Store/Meta/Overlap.antt =====
-- backend/app/memory/_store_meta.py: two claims of the reflection that overlap. The connection opens a
-- transaction at the first INSERT only, so another thread may write after the two SELECTs of a claim
-- and before its INSERTs.
use cyber_companion.Base.{
  ℕ, ◌≡◌, Bool, true, false, Option, none, some, if◌then◌else◌, arith, Option-cases, inl, inr, ◌∙◌,
}
use cyber_companion.Base.Text.{Text}
use cyber_companion.Store.Meta.{
  MetaTable, select, turns_key, reflecting_key, stored_turns, granted, claim_write, claimed,
  claim_reflection,
}

-- A claim that has read and not yet written: its threshold, the counter (`none` is the ValueError of
-- `int`) and the lock.
pub record Claim : Type 0 where
  pub threshold : ℕ
  pub turns : Option ℕ
  pub reflecting : Option Text

-- The SELECTs of `claim_reflection`.
unfoldable pub begin_claim : ℕ → MetaTable → Claim
unfolding stored_turns
begin_claim threshold t = record {
  threshold = threshold;
  turns = stored_turns (select turns_key t);
  reflecting = select reflecting_key t;
}

-- The rest of it, on the table as it is by then.
unfoldable pub end_claim : Claim → MetaTable → Option (Bool × MetaTable)
end_claim c t = elim c.turns [
  | none ↦ none
  | some turns ↦
      if granted c.threshold turns c.reflecting then some (true, claim_write t) else some (false, t)
]

-- The other thread's claim lies wholly between the SELECTs and the INSERTs of a claim.
unfoldable pub overlapping :
    ℕ → ℕ → MetaTable → Option (Bool × MetaTable) × Option (Bool × MetaTable)
unfolding begin_claim end_claim
overlapping a b t =
    let first = begin_claim a t in
    let between = claim_reflection b t in
    (between, end_claim first (elim between [ none ↦ t | some r ↦ r.1 ]))

-- What a claim that nothing interrupts amounts to.
halves : (a : ℕ) (t : MetaTable) → end_claim (begin_claim a t) t ≡ claim_reflection a t
unfolding begin_claim end_claim claim_reflection claimed
halves a t = elim (Option-cases (stored_turns (select turns_key t))) [
  | inl broken ↦ rw broken
  | inr (n, read) ↦ rw read
]

-- The writes do not depend on when the claim read.
end_claim-granted :
    (c : Claim) (t u : MetaTable) {t' : MetaTable}
    → end_claim c t ≡ some (true, t')
    → end_claim c u ≡ some (true, claim_write u)
unfolding end_claim
end_claim-granted c t u h = elim (Option-cases c.turns) [
  | inl broken ↦ ground (arith, broken)
  | inr (n, read) ↦ ground (arith, read)
]

-- If each of two claims alone would be granted, then both are granted when one runs between the
-- SELECTs and the INSERTs of the other: no release stands between the two grants.
pub overlapping_granted :
    (a b : ℕ) (t : MetaTable) {t' t'' : MetaTable}
    → claim_reflection a t ≡ some (true, t')
    → claim_reflection b t ≡ some (true, t'')
    → overlapping a b t ≡ (some (true, t''), some (true, claim_write t''))
unfolding overlapping
overlapping_granted a b t {t' = t'} {t'' = t''} ha hb =
    let again = end_claim-granted (begin_claim a t) t t'' (halves a t ∙ ha) in rw (hb, again)
