-- ===== src/Store/Events.antt =====
-- backend/app/memory/_store_loops.py: the log of soul events. Rows stand with the newest id first; a
-- payload is what the caller makes of it.
use cyber_companion.Base.{
  ℕ, ◌+◌, String, Bool, true, Option, none, some, List, ◌∷◌, reverse, keep, take, str_in,
}
use cyber_companion.Base.Text.{Text}

module _ {ℓ} (P : Type ℓ) where
  -- database.py
  pub record SoulEventRecord : Type ℓ where
    pub id : ℕ
    pub created_at : Text
    pub kind : String
    pub payload : P

  pub record EventTable : Type ℓ where
    pub rows : List SoulEventRecord
    pub last_id : ℕ

  unfoldable pub append_soul_event : String → P → Text → EventTable → SoulEventRecord × EventTable
  append_soul_event kind payload now t =
      let saved : SoulEventRecord = record {
        id = t.last_id + 1;
        created_at = now;
        kind = kind;
        payload = payload;
      } in
      (saved, record { rows = saved ∷ t.rows; last_id = t.last_id + 1 })

  of_kinds : Option (List String) → SoulEventRecord → Bool
  of_kinds none e = true
  of_kinds (some kinds) e = str_in e.kind kinds

  -- A limit is not negative here; a limit of 0 and an empty set of kinds give nothing.
  unfoldable pub tail_soul_events : Option (List String) → ℕ → EventTable → List SoulEventRecord
  unfolding of_kinds
  tail_soul_events kinds limit t = reverse (take limit (keep (of_kinds kinds) t.rows))
