-- ===== src/Store/Meta.antt =====
-- backend/app/memory/_store_meta.py: the key and value table, the turn counter and the two locks.
-- Each method runs in one SQLite transaction, so a method is one step.
pub mod Locks
pub mod Overlap
use cyber_companion.Base.{
  ℕ, ◌+◌, ◌≡◌, refl, Bool, true, false, not, ◌&&◌, List, [], ◌∷◌, ◌++◌, Option, none, some, arith,
  leb, if◌then◌else◌, or_default,
}
use cyber_companion.Base.Text.{Text, codes, strip, text_eq, text_eq_iff, show, parse_int}

abbrev pub MetaTable : Type 0
MetaTable = List (Text × Text)

-- `SELECT value FROM schema_meta WHERE key = ?`
unfoldable pub select : Text → MetaTable → Option Text
select k [] = none
select k ((j, v) ∷ t) = if text_eq j k then some v else select k t

-- `INSERT ... ON CONFLICT(key) DO UPDATE SET value = excluded.value`
unfoldable pub upsert : Text → Text → MetaTable → MetaTable
upsert k v [] = (k, v) ∷ []
upsert k v ((j, w) ∷ t) = if text_eq j k then (k, v) ∷ t else (j, w) ∷ upsert k v t

pub select-upsert :
    (k j v : Text) (t : MetaTable)
    → select j (upsert k v t) ≡ (if text_eq k j then some v else select j t)
unfolding select upsert
select-upsert k j v [] = refl
select-upsert k j v ((i, w) ∷ t) =
    ground (arith, text_eq_iff k j, text_eq_iff i k, text_eq_iff i j, select-upsert k j v t)

abbrev pub turns_key : Text
turns_key = codes "turns_since_reflection"

abbrev pub reflecting_key : Text
reflecting_key = codes "reflecting"

unfoldable pub get_meta : Text → Option Text → MetaTable → Option Text
get_meta key default t = elim (select key t) [ none ↦ default | some v ↦ some v ]

unfoldable pub set_meta : Text → Text → MetaTable → MetaTable
set_meta key value t = upsert key value t

-- `int(row["value"]) if row else 0`; the outer `none` is the ValueError. The program writes digits
-- only, so the signs and spaces that `int` takes too are left out.
unfoldable pub stored_turns : Option Text → Option ℕ
stored_turns none = some 0
stored_turns (some v) = parse_int v

-- The rest of each method, once the counter is read.
unfoldable pub noted : Option ℕ → MetaTable → Option (ℕ × MetaTable)
noted none t = none
noted (some current) t = some (current + 1, upsert turns_key (show (current + 1)) t)

unfoldable pub note_llm_turn : MetaTable → Option (ℕ × MetaTable)
unfolding noted stored_turns
note_llm_turn t = noted (stored_turns (select turns_key t)) t

-- What a claim makes of the counter and of the lock that it has read.
abbrev pub granted : ℕ → ℕ → Option Text → Bool
granted threshold turns seen =
    let reflecting = or_default seen (codes "0") in
    not (text_eq reflecting (codes "1")) && leb threshold turns

-- The two writes of a granted claim.
abbrev pub claim_write : MetaTable → MetaTable
claim_write t = upsert turns_key (codes "0") (upsert reflecting_key (codes "1") t)

unfoldable pub claimed : ℕ → Option ℕ → MetaTable → Option (Bool × MetaTable)
claimed threshold none t = none
claimed threshold (some turns) t =
    if granted threshold turns (select reflecting_key t)
    then some (true, claim_write t)
    else some (false, t)

unfoldable pub claim_reflection : ℕ → MetaTable → Option (Bool × MetaTable)
unfolding claimed stored_turns
claim_reflection threshold t = claimed threshold (stored_turns (select turns_key t)) t

unfoldable pub release_reflection : MetaTable → MetaTable
unfolding set_meta
release_reflection t = set_meta reflecting_key (codes "0") t

unfoldable pub turn_analyzing_key : Text → Text
turn_analyzing_key room_id = codes "turn_analyzing:" ++ strip room_id

held : Option Text → Bool
held none = false
held (some v) = text_eq v (codes "1")

unfoldable pub claim_turn_analysis : Text → MetaTable → Bool × MetaTable
unfolding held
claim_turn_analysis room_id t =
    let key = turn_analyzing_key room_id in
    if held (select key t) then (false, t) else (true, upsert key (codes "1") t)

unfoldable pub release_turn_analysis : Text → MetaTable → MetaTable
unfolding set_meta
release_turn_analysis room_id t = set_meta (turn_analyzing_key room_id) (codes "0") t
