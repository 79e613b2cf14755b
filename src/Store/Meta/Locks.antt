-- ===== src/Store/Meta/Locks.antt =====
-- backend/app/memory/_store_meta.py: the locks under sequences of calls that do not overlap, whichever
-- threads make them.
use cyber_companion.Base.{
  ℕ, zero, suc, ◌+◌, ◌≡◌, refl, ap, ◌∙◌, Bool, true, false, not, ◌&&◌, List, [], ◌∷◌, Option, none,
  some, arith, leb, if◌then◌else◌, ◌⊎◌, inr, ◌≤◌, or_default,
}
use cyber_companion.Base.Text.{Text, codes, text_eq, text_eq_refl, show, parse_int, parse_int-show}
use cyber_companion.Store.Meta.{
  MetaTable, select, upsert, select-upsert, turns_key, reflecting_key, stored_turns, noted,
  note_llm_turn, claimed, claim_reflection, release_reflection, turn_analyzing_key, held,
  claim_turn_analysis, release_turn_analysis,
}

-- One call of one thread.
pub data Call : Type 0 where
  note : Call
  claim : ℕ → Call
  release : Call
  claim_turn : Text → Call
  release_turn : Text → Call

-- The table after a call, and whether the call claimed the reflection. A ValueError of `int` ends
-- the call and writes nothing.
after_note : MetaTable → Option (ℕ × MetaTable) → Bool × MetaTable
after_note t none = (false, t)
after_note t (some (n, t')) = (false, t')

after_claim : MetaTable → Option (Bool × MetaTable) → Bool × MetaTable
after_claim t none = (false, t)
after_claim t (some r) = r

pub step : Call → MetaTable → Bool × MetaTable
unfolding after_note after_claim
step note t = after_note t (note_llm_turn t)
step (claim threshold) t = after_claim t (claim_reflection threshold t)
step release t = (false, release_reflection t)
step (claim_turn room) t = (false, (claim_turn_analysis room t).1)
step (release_turn room) t = (false, release_turn_analysis room t)

-- How many claims of the reflection a sequence of calls is granted.
pub grants : List Call → MetaTable → ℕ
grants [] t = 0
grants (c ∷ cs) t = (if (step c t).0 then 1 else 0) + grants cs (step c t).1

is_release : Call → Bool
is_release release = true
is_release _ = false

pub releases : List Call → ℕ
releases [] = 0
releases (c ∷ cs) = (if is_release c then 1 else 0) + releases cs

pub reflecting : MetaTable → Bool
reflecting t = held (select reflecting_key t)

-- the keys never collide
reflecting_ne_turns : text_eq turns_key reflecting_key ≡ false
unfolding text_eq
reflecting_ne_turns = refl

reflecting_ne_room : (room : Text) → text_eq (turn_analyzing_key room) reflecting_key ≡ false
unfolding text_eq turn_analyzing_key
reflecting_ne_room room = refl

noted-grant : (o : Option ℕ) (t : MetaTable) → (after_note t (noted o t)).0 ≡ false
unfolding noted after_note
noted-grant none t = refl
noted-grant (some n) t = refl

noted-reflecting :
    (o : Option ℕ) (t : MetaTable) → reflecting (after_note t (noted o t)).1 ≡ reflecting t
unfolding reflecting noted after_note
noted-reflecting none t = refl
noted-reflecting (some n) t =
    rw (select-upsert turns_key reflecting_key (show (n + 1)) t, reflecting_ne_turns)

claim_turn-reflecting :
    (room : Text) (t : MetaTable) → reflecting (claim_turn_analysis room t).1 ≡ reflecting t
unfolding reflecting claim_turn_analysis
claim_turn-reflecting room t = ground (
  arith,
  select-upsert (turn_analyzing_key room) reflecting_key (codes "1") t,
  reflecting_ne_room room,
)

release_turn-reflecting :
    (room : Text) (t : MetaTable) → reflecting (release_turn_analysis room t) ≡ reflecting t
unfolding reflecting release_turn_analysis
release_turn-reflecting room t =
    rw (
      select-upsert (turn_analyzing_key room) reflecting_key (codes "0") t,
      reflecting_ne_room room,
    )

held_one : held (some (codes "1")) ≡ true
unfolding held text_eq
held_one = refl

-- A claim sees the lock as free exactly when it is.
free_as_seen : (o : Option Text) → text_eq (or_default o (codes "0")) (codes "1") ≡ held o
unfolding held text_eq
free_as_seen none = refl
free_as_seen (some v) = refl

-- A grant needs the lock free and takes it; a refusal changes nothing.
claimed-reflecting :
    (threshold : ℕ) (o : Option ℕ) (t : MetaTable)
    → let r = after_claim t (claimed threshold o t) in
      ((r.0 ≡ true) × (reflecting t ≡ false) × (reflecting r.1 ≡ true))
      ⊎ ((r.0 ≡ false) × (r.1 ≡ t))
unfolding reflecting claimed after_claim
claimed-reflecting threshold none t = inr (refl, refl)
claimed-reflecting threshold (some n) t = ground (
  arith,
  free_as_seen (select reflecting_key t),
  select-upsert turns_key reflecting_key (codes "0") (upsert reflecting_key (codes "1") t),
  select-upsert reflecting_key reflecting_key (codes "1") t,
  reflecting_ne_turns,
  text_eq_refl reflecting_key,
  held_one,
)

-- Over any sequence of calls that do not overlap, from any table: the claims of the reflection that are granted are at
-- most one more than the releases, and at most as many as the releases if the lock is held at first.
pub grants-le-releases :
    (cs : List Call) (t : MetaTable) → grants cs t ≤ releases cs + (if reflecting t then 0 else 1)
unfolding grants releases step is_release note_llm_turn claim_reflection
grants-le-releases [] t = omega arith
grants-le-releases (note ∷ cs) t =
    let o = stored_turns (select turns_key t) in
    ground (
      arith,
      noted-grant o t,
      noted-reflecting o t,
      grants-le-releases cs (after_note t (noted o t)).1,
    )
grants-le-releases (claim threshold ∷ cs) t =
    let o = stored_turns (select turns_key t) in
    ground (
      arith,
      claimed-reflecting threshold o t,
      grants-le-releases cs (after_claim t (claimed threshold o t)).1,
    )
grants-le-releases (release ∷ cs) t = ground (arith, grants-le-releases cs (release_reflection t))
grants-le-releases (claim_turn room ∷ cs) t =
    ground
      (arith, claim_turn-reflecting room t, grants-le-releases cs (claim_turn_analysis room t).1)
grants-le-releases (release_turn room ∷ cs) t =
    ground
      (arith, release_turn-reflecting room t, grants-le-releases cs (release_turn_analysis room t))

-- A number of turns noted in a row.
pub note_turns : ℕ → MetaTable → MetaTable
note_turns zero t = t
note_turns (suc n) t = (after_note (note_turns n t) (note_llm_turn (note_turns n t))).1

stored_none : stored_turns none ≡ some 0
unfolding stored_turns
stored_none = refl

stored_zero : stored_turns (some (codes "0")) ≡ some 0
unfolding stored_turns parse_int
stored_zero = refl

stored-noted :
    (n : ℕ) (t : MetaTable)
    → stored_turns (select turns_key (after_note t (noted (some n) t)).1) ≡ some (suc n)
unfolding noted after_note stored_turns
stored-noted n t =
    rw
      (
        select-upsert turns_key turns_key (show (n + 1)) t,
        text_eq_refl turns_key,
        parse_int-show (n + 1),
      )
      (ap some (omega arith))

stored-claimed :
    (threshold n : ℕ) (t : MetaTable)
    → let r = after_claim t (claimed threshold (some n) t) in
      (r.0 ≡ (not (reflecting t) && leb threshold n))
      × (r.0 ≡ true → stored_turns (select turns_key r.1) ≡ some 0)
unfolding reflecting claimed after_claim
stored-claimed threshold n t = (
  ground (arith, free_as_seen (select reflecting_key t)),
  λ h. ground (
    arith,
    select-upsert turns_key turns_key (codes "0") (upsert reflecting_key (codes "1") t),
    text_eq_refl turns_key,
    stored_zero,
  ),
)

counted :
    (n : ℕ) (t : MetaTable)
    → select turns_key t ≡ none
    → (stored_turns (select turns_key (note_turns n t)) ≡ some n)
      × (reflecting (note_turns n t) ≡ reflecting t)
unfolding note_turns note_llm_turn
counted zero t h = (rw h stored_none, refl)
counted (suc n) t h =
    let ih = counted n t h in
    rw (note_turns, note_llm_turn, ih.0)
      (stored-noted n (note_turns n t), noted-reflecting (some n) (note_turns n t) ∙ ih.1)

-- From a table without a counter, after `n` noted turns: a claim is granted exactly if the lock is
-- free and the threshold is at most `n`, and a granted claim sets the counter back to 0.
pub claim_after_turns :
    (n threshold : ℕ) (t : MetaTable)
    → select turns_key t ≡ none
    → let r = step (claim threshold) (note_turns n t) in
      (r.0 ≡ (not (reflecting t) && leb threshold n))
      × (r.0 ≡ true → stored_turns (select turns_key r.1) ≡ some 0)
unfolding step claim_reflection
claim_after_turns n threshold t h =
    let seen = counted n t h in
    rw (step, claim_reflection, seen.0, ← seen.1) (stored-claimed threshold n (note_turns n t))
