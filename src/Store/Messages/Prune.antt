-- ===== src/Store/Messages/Prune.antt =====
-- backend/app/memory/_store_messages.py: the pruning of the tick lines.
use cyber_companion.Base.{
  ℕ, zero, suc, ◌+◌, ◌≤◌, ◌<◌, ◌≡◌, refl, Bool, false, not, ◌&&◌, ◌||◌, ◌∙◌, length-keep-le, List,
  [], ◌∷◌, arith, keep, take, length, ◌==◌,
}
use cyber_companion.Base.Float.{Float}
use cyber_companion.Store.Messages.{
  MessageRecord, MessageTable, is_tick, id_in, prune_behavior_tick_messages,
}
use cyber_companion.Store.Messages.Order.{Descending, Descending-keep, IsOrdered}

module _ (fl : Float) where
  -- An id that is at least the bound is not in the rows.
  id_in-above :
      (i hi : ℕ) (ms : List (MessageRecord fl))
      → Descending fl hi ms
      → hi ≤ i
      → id_in fl i ms ≡ false
  id_in-above i hi [] d h = refl
  id_in-above i hi (m ∷ ms) d h = ground (arith, id_in-above i m.id ms d.1)

  -- The rows that the statement leaves, for any list of ids that are not to be deleted.
  left : List (MessageRecord fl) → List (MessageRecord fl) → List (MessageRecord fl)
  left newest ms = keep (λ m. not (is_tick fl m && not (id_in fl m.id newest))) ms

  others-left :
      (newest ms : List (MessageRecord fl))
      → keep (λ m. not (is_tick fl m)) (left newest ms) ≡ keep (λ m. not (is_tick fl m)) ms
  unfolding left
  others-left newest [] = refl
  others-left newest (m ∷ ms) = ground (arith, others-left newest ms)

  ticks-left :
      (newest ms : List (MessageRecord fl))
      → keep (is_tick fl) (left newest ms) ≡ keep (λ m. id_in fl m.id newest) (keep (is_tick fl) ms)
  unfolding left
  ticks-left newest [] = refl
  ticks-left newest (m ∷ ms) = ground (arith, ticks-left newest ms)

  -- A row above all others matches none of them.
  keep-above :
      (i hi : ℕ) (q : MessageRecord fl → Bool) (ms : List (MessageRecord fl))
      → Descending fl hi ms
      → hi ≤ i
      → keep (λ m. i == m.id || q m) ms ≡ keep q ms
  keep-above i hi q [] d h = refl
  keep-above i hi q (m ∷ ms) d h = ground (arith, keep-above i m.id q ms d.1)

  keep-none : (ms : List (MessageRecord fl)) → keep (λ m. false) ms ≡ []
  keep-none [] = refl
  keep-none (m ∷ ms) = keep-none ms

  keep-newest :
      (n hi : ℕ) (ms : List (MessageRecord fl))
      → Descending fl hi ms
      → keep (λ m. id_in fl m.id (take n ms)) ms ≡ take n ms
  keep-newest zero hi ms d = keep-none ms
  keep-newest (suc n) hi [] d = refl
  keep-newest (suc n) hi (m ∷ ms) d = ground (
    arith,
    keep-above m.id m.id (λ x. id_in fl x.id (take n ms)) ms d.1,
    keep-newest n m.id ms d.1,
  )

  -- On a table in id order, with a positive number of lines to keep: the tick lines that stay are
  -- exactly that many of the newest ones (all of them if there are fewer), every other message stays
  -- as it is, and the returned count is the number of rows that went.
  pub prune-keeps_newest :
      (k : ℕ) (t : MessageTable fl)
      → 0 < k
      → IsOrdered fl t
      → let r = prune_behavior_tick_messages fl k t in
        (keep (is_tick fl) r.1.rows ≡ take k (keep (is_tick fl) t.rows))
        × (keep (λ m. not (is_tick fl m)) r.1.rows ≡ keep (λ m. not (is_tick fl m)) t.rows)
        × (r.0 + length r.1.rows ≡ length t.rows)
  unfolding prune_behavior_tick_messages left
  prune-keeps_newest zero t k d = absurd (omega arith)
  prune-keeps_newest (suc k) t h d =
      let ticks = keep (is_tick fl) t.rows in
      let newest = take (suc k) ticks in
      (
        ticks-left newest t.rows
            ∙ keep-newest (suc k) (suc t.last_id) ticks
                (Descending-keep fl (is_tick fl) (suc t.last_id) t.rows d),
        others-left newest t.rows,
        omega
            (arith, length-keep-le (λ m. not (is_tick fl m && not (id_in fl m.id newest))) t.rows),
      )
