-- ===== src/Store/Loops/Listing.antt =====
-- backend/app/memory/_store_loops.py: the query of the agenda. SQLite's `julianday` is a parameter, and
-- a limit is not negative.
use cyber_companion.Base.{
  ℕ, String, Bool, true, false, not, ◌&&◌, Option, none, some, List, [], ◌∷◌, keep, take, ltb, ◌==◌,
  str_eq, str_in, if◌then◌else◌,
}
use cyber_companion.Base.Text.{Text}
use cyber_companion.Base.Float.{Float}
use cyber_companion.Store.Loops.{
  open_loop_statuses, Parsed, bad_timestamp, unsupported_status, Outcome, done, refused,
  normalize_aware_timestamp, OpenLoopRecord, LoopTable,
}

module _ (fl : Float) where
  open fl use {F, lt, le}

  -- `ORDER BY (julianday(due_at) IS NULL), julianday(due_at) ASC, ...`, with the rest as the tie.
  earlier : Option F → Option F → Bool → Bool
  earlier none none tie = tie
  earlier none (some e) tie = false
  earlier (some d) none tie = true
  earlier (some d) (some e) tie = if lt d e then true else if lt e d then false else tie

  -- `julianday` of a column that may be NULL.
  day_of : (Text → Option F) → Option Text → Option F
  day_of julianday none = none
  day_of julianday (some t) = julianday t

  comes_first : (Text → Option F) → OpenLoopRecord fl → OpenLoopRecord fl → Bool
  unfolding earlier day_of
  comes_first julianday a b = earlier (day_of julianday a.due_at) (day_of julianday b.due_at) (
      if lt b.priority a.priority
      then true
      else if lt a.priority b.priority
      then false
      else ltb a.id b.id)

  unfoldable pub insert_loop :
      (Text → Option F) → OpenLoopRecord fl → List (OpenLoopRecord fl) → List (OpenLoopRecord fl)
  unfolding comes_first
  insert_loop julianday a [] = a ∷ []
  insert_loop julianday a (b ∷ bs) =
      let rest = insert_loop julianday a bs in
      if comes_first julianday a b then a ∷ b ∷ bs else b ∷ rest

  unfoldable pub ordered_loops :
      (Text → Option F) → List (OpenLoopRecord fl) → List (OpenLoopRecord fl)
  ordered_loops julianday [] = []
  ordered_loops julianday (a ∷ as') = insert_loop julianday a (ordered_loops julianday as')

  status_matches : Option String → OpenLoopRecord fl → Bool
  status_matches none r = true
  status_matches (some s) r = str_eq r.status s

  -- `julianday(due_at) <= julianday(?)`; a comparison with NULL holds of no row.
  is_due : Option F → Option F → Bool
  is_due (some d) (some e) = le d e
  is_due _ _ = false

  due_matches : (Text → Option F) → Option Text → OpenLoopRecord fl → Bool
  unfolding is_due day_of
  due_matches julianday none r = true
  due_matches julianday (some bound) r = is_due (day_of julianday r.due_at) (julianday bound)

  unfoldable pub matches :
      (Text → Option F) → Option String → Option Text → OpenLoopRecord fl → Bool
  unfolding status_matches due_matches
  matches julianday status due_before r =
      status_matches status r && due_matches julianday due_before r

  known_status : Option String → Bool
  known_status none = true
  known_status (some s) = str_in s open_loop_statuses

  -- The query, once its bound is normalized.
  unfoldable pub queried :
      (Text → Option F)
      → Option String
      → Option (Option Text)
      → ℕ
      → LoopTable fl
      → Outcome (List (OpenLoopRecord fl))
  queried julianday status none limit t = refused bad_timestamp
  queried julianday status (some due_before) limit t =
      done
        (take limit (ordered_loops julianday (keep (matches julianday status due_before) t.rows)))

  unfoldable pub list_open_loops :
      (Text → Parsed)
      → (Text → Option F)
      → Option String
      → Option Text
      → ℕ
      → LoopTable fl
      → Outcome (List (OpenLoopRecord fl))
  unfolding known_status
  list_open_loops parse julianday status due_before limit t =
      if limit == 0
      then done []
      else if not (known_status status)
      then refused unsupported_status
      else queried julianday status (normalize_aware_timestamp parse due_before) limit t
