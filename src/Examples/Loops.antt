-- ===== src/Examples/Loops.antt =====
-- Runs of the agenda of open loops.
use cyber_companion.Base.{ℕ, ◌≡◌, ◌≢◌, refl, ◌⊎◌, Option, none, some, [], ◌∷◌, length}
use cyber_companion.Base.Text.{Text, codes}
use cyber_companion.Base.Int.{ℤ, pos}
use cyber_companion.Base.Float.{clamp01, max_f, min_f}
use cyber_companion.Base.Micro.{micro}
use cyber_companion.Store.Loops.{
  Parsed, aware, OpenLoopRecord, LoopTable, LoopArgs, get_open_loop, upsert_open_loop,
  close_open_loop, upsert_found, named, find_row, updated, checked, row_of, change_row,
  normalize_aware_timestamp,
}
use cyber_companion.Store.Loops.Upsert.{
  Holds, Reads, Updated, Created, upsert_open_loop-Upserted, close_open_loop-closes,
}

abbrev parse : Text → Parsed
parse t = aware t

abbrev julianday : Text → Option ℤ
julianday t = some (pos (length t))

abbrev offer : OpenLoopRecord micro
offer = record {
  id = 1;
  created_at = codes "2026-01-01";
  updated_at = codes "2026-01-01";
  status = "open";
  kind = "follow_up";
  title = codes "offer";
  summary = [];
  due_at = none;
  last_mentioned_at = none;
  source_message_id = none;
  priority = pos 500_000;
  confidence = pos 500_000;
  metadata = [];
}

abbrev agenda : LoopTable micro
agenda = record { rows = offer ∷ []; last_id = 1; messages = 7 ∷ [] }

-- A priority far above the scale.
abbrev urgent : LoopArgs micro
urgent = record {
  kind = "commitment";
  title = codes "call back";
  summary = [];
  status = "snoozed";
  due_at = none;
  last_mentioned_at = none;
  source_message_id = some 7;
  priority = pos 3_000_000;
  confidence = pos 500_000;
  metadata = [];
}

abbrev saved : OpenLoopRecord micro
saved = record {
  id = 1;
  created_at = codes "2026-01-01";
  updated_at = codes "now";
  status = "snoozed";
  kind = "commitment";
  title = codes "call back";
  summary = [];
  due_at = none;
  last_mentioned_at = none;
  source_message_id = some 7;
  priority = pos 1_000_000;
  confidence = pos 500_000;
  metadata = [];
}

abbrev after : LoopTable micro
after = record { rows = saved ∷ []; last_id = 1; messages = 7 ∷ [] }

upsert_open_loop-Upserted_example :
    Holds micro parse urgent saved
    × Reads micro agenda saved after
    × (Updated micro (some 1) (codes "now") agenda saved after
        ⊎ Created micro (some 1) (codes "new") agenda saved after)
unfolding upsert_open_loop upsert_found named get_open_loop find_row updated checked row_of
    change_row clamp01 max_f min_f normalize_aware_timestamp
upsert_open_loop-Upserted_example =
    upsert_open_loop-Upserted micro parse (some 1) urgent (codes "new") (codes "now") agenda
      {saved = saved} {t' = after} refl

close_open_loop-closes_example :
    let r = close_open_loop micro 1 (codes "now") agenda in
    (r.0 ≡ some (record offer { status = "closed"; updated_at = codes "now" }))
    × (get_open_loop micro 1 r.1 ≡ r.0)
    × ((j : ℕ) → j ≢ 1 → get_open_loop micro j r.1 ≡ get_open_loop micro j agenda)
unfolding get_open_loop find_row
close_open_loop-closes_example = close_open_loop-closes micro 1 (codes "now") agenda offer refl
