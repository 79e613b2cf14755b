-- ===== src/Store/Summary/Ranges.antt =====
-- backend/app/memory/summary_policy.py: the ranges of the recaps.
use cyber_companion.Base.{
  ℕ, zero, suc, ◌+◌, ◌≤◌, ◌<◌, ◌≡◌, refl, Bool, true, false, Option, none, some, List, [], ◌∷◌,
  ◌++◌, reverse, reverse-cons, arith, keep, take, length, leb, ltb, All, All-append, All-take,
  if_cases, if_keeps, Option-cases, ◌⊎◌, inl, inr,
}
use cyber_companion.Base.Text.{Text}
use cyber_companion.Base.Float.{Float}
use cyber_companion.Store.Budget.{BudgetConfig}
use cyber_companion.Store.Tokens.{Lexer}
use cyber_companion.Store.Messages.{
  MessageRecord, MessageTable, is_between, list_chat_messages_between,
  get_recent_chat_window_lower_bound_id, count_chat_messages,
}
use cyber_companion.Store.Messages.Order.{Descending, Descending-keep, IsOrdered}
use cyber_companion.Store.Summary.{
  ConversationSummaryRecord, SummaryTable, get_latest_conversation_summary,
  create_conversation_summary, latest, later, pick, first_id, final_id, covered_until,
  build_rule_based_summary, summarise, summarise_below, maybe_update_conversation_summary,
}

module _ (fl : Float) (lexer : Lexer) where
  abbrev Below : ℕ → MessageRecord fl → Type 0
  Below hi m = m.id < hi

  abbrev Above : ℕ → MessageRecord fl → Type 0
  Above lo m = lo < m.id

  -- Ids rise along the list and stay above a bound.
  abbrev Rising : ℕ → List (MessageRecord fl) → Type 0
  Rising lo [] = Unit {0}
  Rising lo (m ∷ ms) = (lo < m.id) × Rising m.id ms

  keep-Between :
      (lo hi : ℕ) (ms : List (MessageRecord fl))
      → All (Below hi) (keep (is_between fl lo hi) ms)
        × All (Above lo) (keep (is_between fl lo hi) ms)
  keep-Between lo hi [] = (tt, tt)
  keep-Between lo hi (m ∷ ms) = ground (arith, keep-Between lo hi ms)

  Rising-snoc :
      (lo : ℕ) (xs : List (MessageRecord fl)) (m : MessageRecord fl)
      → Rising lo xs
      → All (Below m.id) xs
      → lo < m.id
      → Rising lo (xs ++ (m ∷ []))
  Rising-snoc lo [] m r b h = (h, tt)
  Rising-snoc lo (x ∷ xs) m r b h = (r.0, Rising-snoc x.id xs m r.1 b.1 b.0)

  All-Below : (a b : ℕ) (xs : List (MessageRecord fl)) → a ≤ b → All (Below a) xs → All (Below b) xs
  All-Below a b [] h p = tt
  All-Below a b (x ∷ xs) h p = (omega (arith, p.0), All-Below a b xs h p.1)

  Descending-Below :
      (hi : ℕ) (ms : List (MessageRecord fl)) → Descending fl hi ms → All (Below hi) ms
  Descending-Below hi [] d = tt
  Descending-Below hi (m ∷ ms) d =
      (d.0, All-Below m.id hi ms (omega (arith, d.0)) (Descending-Below m.id ms d.1))

  All-reverse :
      (hi : ℕ) (ms : List (MessageRecord fl)) → All (Below hi) ms → All (Below hi) (reverse ms)
  All-reverse hi [] h = tt
  All-reverse hi (m ∷ ms) h =
      rw (reverse-cons m ms)
        (All-append (Below hi) (reverse ms) (m ∷ []) (All-reverse hi ms h.1) (h.0, tt))

  reverse-Rising :
      (lo hi : ℕ) (ms : List (MessageRecord fl))
      → Descending fl hi ms
      → All (Above lo) ms
      → Rising lo (reverse ms)
  reverse-Rising lo hi [] d a = tt
  reverse-Rising lo hi (m ∷ ms) d a = rw (reverse-cons m ms) (
      Rising-snoc lo (reverse ms) m (reverse-Rising lo m.id ms d.1 a.1)
        (All-reverse m.id ms (Descending-Below m.id ms d.1)) a.0)

  take-Rising : (n lo : ℕ) (ms : List (MessageRecord fl)) → Rising lo ms → Rising lo (take n ms)
  take-Rising zero lo ms r = tt
  take-Rising (suc n) lo [] r = tt
  take-Rising (suc n) lo (m ∷ ms) r = (r.0, take-Rising n m.id ms r.1)

  batch-Between :
      (lo hi n : ℕ) (t : MessageTable fl)
      → IsOrdered fl t
      → Rising lo (list_chat_messages_between fl lo hi n t)
        × All (Below hi) (list_chat_messages_between fl lo hi n t)
  unfolding list_chat_messages_between
  batch-Between lo hi n t h =
      let kept = keep (is_between fl lo hi) t.rows in
      let (below, above) = keep-Between lo hi t.rows in
      (
        take-Rising n lo (reverse kept) (
            reverse-Rising lo (suc t.last_id) kept
              (Descending-keep fl (is_between fl lo hi) (suc t.last_id) t.rows h) above),
        All-take (Below hi) n (reverse kept) (All-reverse hi kept below),
      )

  -- The ends of a rising list.
  ends :
      (lo hi : ℕ) (m : MessageRecord fl) (ms : List (MessageRecord fl))
      → Rising lo (m ∷ ms)
      → All (Below hi) (m ∷ ms)
      → (g : ℕ) × (final_id fl lexer (m ∷ ms) ≡ some g) × (m.id ≤ g) × (g < hi)
  unfolding final_id
  ends lo hi m [] r b = (m.id, refl, omega arith, b.0)
  ends lo hi m (n ∷ ms) r b =
      let (g, eq, low, high) = ends m.id hi n ms r.1 b.1 in (g, eq, omega (arith, r.1.0), high)

  covered_until-create :
      (first final : ℕ) (text : Text) (keywords : List Text) (now : Text) (t : SummaryTable)
      → covered_until fl lexer t < final
      → covered_until fl lexer (create_conversation_summary first final text keywords now t) ≡ final
  unfolding covered_until get_latest_conversation_summary latest pick later
      create_conversation_summary
  covered_until-create first final text keywords now t h = elim (Option-cases (latest t.rows)) [
    | inl fresh ↦ ground arith
    | inr (s, found) ↦ ground arith
  ]

  -- A recap is added: its range follows what was covered, lies below `bound`, and is covered now.
  abbrev pub Extends : ℕ → SummaryTable → SummaryTable → Type 0
  Extends bound t t' =
      (s : ConversationSummaryRecord) × (t'.rows ≡ s ∷ t.rows)
      × (covered_until fl lexer t < s.range_start_message_id)
      × (s.range_start_message_id ≤ s.range_end_message_id)
      × (s.range_end_message_id < bound)
      × (covered_until fl lexer t' ≡ s.range_end_message_id)

  summarise-Extends :
      (bound : ℕ) (batch : List (MessageRecord fl)) (now : Text) (t : SummaryTable)
      → 0 < length batch
      → Rising (covered_until fl lexer t) batch
      → All (Below bound) batch
      → (t' : SummaryTable) × (summarise fl lexer batch now t ≡ some (true, t'))
        × Extends bound t t'
  unfolding summarise first_id
  summarise-Extends bound [] now t h r b = absurd (omega arith)
  summarise-Extends bound (m ∷ ms) now t h r b =
      let (g, eq, low, high) = ends (covered_until fl lexer t) bound m ms r b in
      let (text, keywords) = build_rule_based_summary fl lexer (m ∷ ms) in
      let t' = create_conversation_summary m.id g text keywords now t in
      (
        t',
        rw eq,
        unfold create_conversation_summary in
            (
              record {
                id = t.last_id + 1;
                created_at = now;
                range_start_message_id = m.id;
                range_end_message_id = g;
                summary = text;
                keywords = keywords;
              },
              refl,
              r.0,
              low,
              high,
              covered_until-create m.id g text keywords now t (omega (arith, r.0)),
            ),
      )

  -- The outcome of the policy on a store with an ordered message table.
  abbrev Outcome : Option ℕ → SummaryTable → Option (Bool × SummaryTable) → Type 0
  Outcome window t o =
      (o ≡ some (false, t))
      ⊎ ((bound : ℕ) × (t' : SummaryTable) × (window ≡ some bound)
          × (o ≡ some (true, t'))
          × Extends bound t t')

  summarise_below-Outcome :
      (config : BudgetConfig fl) (window : Option ℕ) (messages : MessageTable fl) (now : Text)
      (t : SummaryTable)
      → 0 < config.summary_batch_size
      → IsOrdered fl messages
      → Outcome window t (summarise_below fl lexer config window messages now t)
  unfolding summarise_below
  summarise_below-Outcome config none messages now t h o = inl refl
  summarise_below-Outcome config (some bound) messages now t h o =
      let size = config.summary_batch_size in
      let covered = covered_until fl lexer t in
      let older = list_chat_messages_between fl covered bound size messages in
      let (rising, below) = batch-Between covered bound size messages o in
      if_cases (Outcome (some bound) t) (ltb (length older) size) (λ few. inl refl)
        (λ enough.
          let (t', run, more) =
            summarise-Extends bound older now t (ground (arith, enough)) rising below in
          inr (bound, t', refl, run, more))

  -- With a positive batch size and messages in id order the policy never raises. Either it leaves
  -- the summaries alone and says so, or it says that it wrote one: a recap of a range of ids that
  -- begins after everything covered before, ends before the raw window, and is all covered now.
  pub maybe_update-Extends :
      (config : BudgetConfig fl) (messages : MessageTable fl) (now : Text) (t : SummaryTable)
      → 0 < config.summary_batch_size
      → IsOrdered fl messages
      → let o = maybe_update_conversation_summary fl lexer config messages now t in
        (o ≡ some (false, t))
        ⊎ ((bound : ℕ) × (t' : SummaryTable) × (get_recent_chat_window_lower_bound_id fl
                config.max_raw_turns messages
              ≡ some bound)
            × (o ≡ some (true, t'))
            × Extends bound t t')
  unfolding maybe_update_conversation_summary
  maybe_update-Extends config messages now t h o =
      let window = get_recent_chat_window_lower_bound_id fl config.max_raw_turns messages in
      if_keeps (Outcome window t) config.llm_summary (inl refl) (
        if_keeps (Outcome window t)
          (leb (count_chat_messages fl messages) (config.max_raw_turns + 1)) (inl refl)
          (summarise_below-Outcome config window messages now t h o))
