-- ===== src/Store/Loops/Agenda.antt =====
-- backend/app/memory/_store_loops.py: the list of the agenda.
use cyber_companion.Base.{
  ℕ, ◌≤◌, ◌≡◌, String, not, Option, none, some, List, [], ◌∷◌, arith, keep, length, length-take,
  All, All-take, eq_iff, subst, ◌==◌, if_keeps, str_in,
}
use cyber_companion.Base.Text.{Text}
use cyber_companion.Base.Float.{Float}
use cyber_companion.Store.Loops.{
  open_loop_statuses, Parsed, Outcome, done, OpenLoopRecord, LoopTable, normalize_aware_timestamp,
}
use cyber_companion.Store.Loops.Listing.{
  insert_loop, ordered_loops, matches, queried, list_open_loops,
}
use cyber_companion.Store.Loops.Upsert.{done_unique}

module _ (fl : Float) (julianday : Text → Option fl.F) where
  abbrev Has : String → OpenLoopRecord fl → Type 0
  Has s r = r.status ≡ s

  keep-Has :
      (s : String) (due : Option Text) (rs : List (OpenLoopRecord fl))
      → All (Has s) (keep (matches fl julianday (some s) due) rs)
  unfolding matches
  keep-Has s due [] = tt
  keep-Has s due (r ∷ rs) = ground (arith, eq_iff r.status s, keep-Has s due rs)

  insert-Has :
      (s : String) (r : OpenLoopRecord fl) (rs : List (OpenLoopRecord fl))
      → Has s r
      → All (Has s) rs
      → All (Has s) (insert_loop fl julianday r rs)
  unfolding insert_loop
  insert-Has s r [] h k = (h, tt)
  insert-Has s r (x ∷ rs) h k = ground (arith, insert-Has s r rs h k.1)

  ordered-Has :
      (s : String) (rs : List (OpenLoopRecord fl))
      → All (Has s) rs
      → All (Has s) (ordered_loops fl julianday rs)
  unfolding ordered_loops
  ordered-Has s [] h = tt
  ordered-Has s (r ∷ rs) h =
      insert-Has s r (ordered_loops fl julianday rs) h.0 (ordered-Has s rs h.1)

  -- At most `limit` rows, all of one status.
  abbrev pub Listed : String → ℕ → List (OpenLoopRecord fl) → Type 0
  Listed s limit rs = All (Has s) rs × (length rs ≤ limit)

  queried-Listed :
      (s : String) (due : Option (Option Text)) (limit : ℕ) (t : LoopTable fl)
      {rs : List (OpenLoopRecord fl)}
      → queried fl julianday (some s) due limit t ≡ done rs
      → Listed s limit rs
  unfolding queried
  queried-Listed s none limit t h = ground arith
  queried-Listed s (some due) limit t h =
      let kept = keep (matches fl julianday (some s) due) t.rows in
      let rows = ordered_loops fl julianday kept in
      subst (Listed s limit) (done_unique h) (
        All-take (Has s) limit rows (ordered-Has s kept (keep-Has s due t.rows)),
        omega (arith, length-take limit rows),
      )

  -- A list by status that succeeds holds rows of that status only, and no more than the limit.
  pub list_open_loops-Listed :
      (parse : Text → Parsed) (s : String) (due_before : Option Text) (limit : ℕ) (t : LoopTable fl)
      {rs : List (OpenLoopRecord fl)}
      → list_open_loops fl parse julianday (some s) due_before limit t ≡ done rs
      → All (λ (r : OpenLoopRecord fl). r.status ≡ s) rs × (length rs ≤ limit)
  unfolding list_open_loops
  list_open_loops-Listed parse s due limit t {rs = rs} =
      let Goal = λ (o : Outcome (List (OpenLoopRecord fl))). o ≡ done rs → Listed s limit rs in
      if_keeps Goal (limit == 0) (λ h. subst (Listed s limit) (done_unique h) (tt, omega arith))
        (if_keeps Goal (not (str_in s open_loop_statuses)) (λ h. ground (arith, h))
          (queried-Listed s (normalize_aware_timestamp parse due) limit t))
