-- ===== src/Soul/Runtime/Writes.antt =====
-- backend/app/soul/runtime.py over adapters.py: which steps of a turn write messages.
use cyber_companion.Base.{
  ℕ, ◌≡◌, refl, ◌∙◌, Bool, true, false, Option, none, some, List, [], ◌∷◌, if◌then◌else◌,
}
use cyber_companion.Base.Float.{Float}
use cyber_companion.Store.Budget.{BudgetConfig}
use cyber_companion.Store.State.{KernelDb, Result, ok, err}
use cyber_companion.Store.Meta.{MetaTable}
use cyber_companion.Store.Summary.{SummaryTable}
use cyber_companion.Store.WritePolicy.{Written}
use cyber_companion.Store.ChatPersistence.{persist_chat_turn}
use cyber_companion.Behavior.Types.{BehaviorDecision}
use cyber_companion.Soul.Ports.{Step, bind, ◌>>=◌, pure, try_step, SoulPorts}
use cyber_companion.Soul.Runtime.{Commit, labels_of, append_turn_event, user_message_id, commit}
use cyber_companion.Soul.Sqlite.{
  World, Host, decided, remembered, summarised, noted_turn, persisted, ports_from_store,
}

module _ (fl : Float) (budget : BudgetConfig fl) where
  -- A step that leaves the message log as it is.
  pub Keeps : {A : Type 0} → Step (World fl) A → Type 0
  Keeps m = (w : World fl) → (m w).1.messages ≡ w.messages

  pub bind-Keeps :
      {A B : Type 0} (r : Option A × World fl) (f : A → Step (World fl) B)
      → ((a : A) → Keeps (f a))
      → (bind r f).1.messages ≡ r.1.messages
  unfolding bind Keeps
  bind-Keeps (none, w) f h = refl
  bind-Keeps (some a, w) f h = h a w

  Keeps-bind :
      {A B : Type 0} (m : Step (World fl) A) (f : A → Step (World fl) B)
      → Keeps m
      → ((a : A) → Keeps (f a))
      → Keeps (m >>= f)
  unfolding Keeps
  Keeps-bind m f h k w = bind-Keeps (m w) f k ∙ h w

  remembered-messages :
      (r : Written fl) (w : World fl) → (remembered fl r w).1.messages ≡ w.messages
  unfolding remembered
  remembered-messages (none, memories) w = refl
  remembered-messages (some ms, memories) w = refl

  summarised-messages :
      (o : Option (Bool × SummaryTable)) (w : World fl)
      → (summarised fl o w).1.messages ≡ w.messages
  unfolding summarised
  summarised-messages none w = refl
  summarised-messages (some (b, t)) w = refl

  noted-messages :
      (o : Option (ℕ × MetaTable)) (w : World fl) → (noted_turn fl o w).1.messages ≡ w.messages
  unfolding noted_turn
  noted-messages none w = refl
  noted-messages (some (n, t)) w = refl

  pub decided-messages :
      (o : Result (BehaviorDecision fl × KernelDb fl)) (w : World fl)
      → (decided fl o w).1.messages ≡ w.messages
  unfolding decided
  decided-messages (ok (d, kernel)) w = refl
  decided-messages (err e) w = refl

  module _ (host : Host fl) where
    abbrev ports : SoulPorts fl (World fl)
    ports = ports_from_store fl host

    summary-Keeps : (b : Bool) → Keeps (if b then ports.maybe_update_summary budget else pure false)
    unfolding Keeps ports_from_store
    summary-Keeps true w = summarised-messages _ w
    summary-Keeps false w = refl

    note-Keeps : (b : Bool) → Keeps (if b then ports.note_llm_turn else pure 0)
    unfolding Keeps ports_from_store
    note-Keeps true w = noted-messages _ w
    note-Keeps false w = refl

    record-Keeps :
        (c : Commit fl) (ids : List ℕ)
        → Keeps (
            try_step (
              ports.record_turn_memories c.user_input c.signals
                (user_message_id fl c.user_input ids)
                budget))
    unfolding Keeps ports_from_store try_step
    record-Keeps c ids w = remembered-messages _ w

    append-Keeps : (c : Commit fl) (ids : List ℕ) → Keeps (append_turn_event fl ports budget c ids)
    unfolding Keeps append_turn_event ports_from_store try_step
    append-Keeps c ids w = refl

    after_persist : Commit fl → List ℕ → Step (World fl) (List ℕ)
    after_persist c ids =
        try_step (
          ports.record_turn_memories c.user_input c.signals (user_message_id fl c.user_input ids)
            budget)
        >>= (λ a.
            (if c.update_summary then ports.maybe_update_summary budget else pure false) >>= (λ b.
              (if c.note then ports.note_llm_turn else pure 0)
              >>= (λ n. append_turn_event fl ports budget c ids >>= (λ u. pure ids))))

    pub pure-Keeps : {A : Type 0} (a : A) → Keeps (pure a)
    unfolding Keeps
    pure-Keeps a w = refl

    after_persist-Keeps : (c : Commit fl) (ids : List ℕ) → Keeps (after_persist c ids)
    unfolding after_persist
    after_persist-Keeps c ids = Keeps-bind _ _ (record-Keeps c ids) (λ a.
        Keeps-bind _ _ (summary-Keeps c.update_summary) (λ b.
          Keeps-bind _ _ (note-Keeps c.note)
            (λ n. Keeps-bind _ _ (append-Keeps c ids) (λ u. pure-Keeps ids))))

    -- A commit writes the messages of its turn, whatever is raised after that.
    pub commit-messages :
        (c : Commit fl) (w : World fl)
        → (commit fl ports budget c w).1.messages
          ≡ (persist_chat_turn fl
              (record { role = "user"; content = c.user_input } ∷ [])
              c.result
              (labels_of fl ports budget c)
              host.now.sql
              w.messages).1
    unfolding commit bind after_persist ports_from_store persisted Keeps
    commit-messages c w =
        let stored =
          persist_chat_turn fl (record { role = "user"; content = c.user_input } ∷ []) c.result
            (labels_of fl ports budget c) host.now.sql w.messages in
        after_persist-Keeps c stored.0 (record w { messages = stored.1 })
