-- ===== src/Store/Messages/Order.antt =====
-- backend/app/memory/_store_messages.py: the order of the ids.
use cyber_companion.Base.{ℕ, zero, suc, ◌+◌, ◌≤◌, ◌<◌, String, Bool, List, [], ◌∷◌, arith, keep}
use cyber_companion.Base.Text.{Text}
use cyber_companion.Base.Dict.{Dict}
use cyber_companion.Base.Float.{Float}
use cyber_companion.Records.{Json}
use cyber_companion.Store.Messages.{
  MessageRecord, MessageTable, create_message, prune_behavior_tick_messages,
}

module _ (fl : Float) where
  -- Ids fall along the rows and stay below a bound.
  abbrev pub Descending : ℕ → List (MessageRecord fl) → Type 0
  Descending hi [] = Unit {0}
  Descending hi (m ∷ ms) = (m.id < hi) × Descending m.id ms

  abbrev pub IsOrdered : MessageTable fl → Type 0
  IsOrdered t = Descending (suc t.last_id) t.rows

  pub Descending-mono :
      (a b : ℕ) (ms : List (MessageRecord fl)) → a ≤ b → Descending a ms → Descending b ms
  Descending-mono a b [] h d = tt
  Descending-mono a b (m ∷ ms) h d = (omega arith, d.1)

  pub Descending-keep :
      (p : MessageRecord fl → Bool) (hi : ℕ) (ms : List (MessageRecord fl))
      → Descending hi ms
      → Descending hi (keep p ms)
  Descending-keep p hi [] d = tt
  Descending-keep p hi (m ∷ ms) d =
      let rest = Descending-keep p m.id ms d.1 in
      ground (arith, rest, Descending-mono m.id hi (keep p ms))

  -- A new message keeps the order, and is the newest.
  pub create_message-IsOrdered :
      (role : String) (content : Text) (source : String) (metadata : Dict (Json fl)) (now : Text)
      (t : MessageTable fl)
      → IsOrdered t
      → IsOrdered (create_message fl role content source metadata now t).1
  unfolding create_message
  create_message-IsOrdered role content source metadata now t h =
      (omega arith, Descending-mono (suc t.last_id) (t.last_id + 1) t.rows (omega arith) h)

  pub prune-IsOrdered :
      (k : ℕ) (t : MessageTable fl)
      → IsOrdered t
      → IsOrdered (prune_behavior_tick_messages fl k t).1
  unfolding prune_behavior_tick_messages
  prune-IsOrdered zero t h = h
  prune-IsOrdered (suc k) t h = Descending-keep _ (suc t.last_id) t.rows h
