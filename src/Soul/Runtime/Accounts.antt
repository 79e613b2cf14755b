-- ===== src/Soul/Runtime/Accounts.antt =====
-- backend/app/soul/runtime.py over adapters.py: a turn comes to an end, and its books agree.
use cyber_companion.Base.{
  ℕ, suc, ◌+◌, ◌<◌, ◌≡◌, refl, ap, sym, ◌∙◌, subst, Bool, true, false, not, ◌&&◌, Option, none,
  some, List, [], ◌∷◌, map, if◌then◌else◌, inl, inr, arith, if_keeps, is_some, length, str_eq,
}
use cyber_companion.Base.Text.{Text, text_lt, text_eq_refl, strip, is_empty, show, parse_int-show}
use cyber_companion.Base.Float.{Float}
use cyber_companion.Records.{str, MemoryRecord}
use cyber_companion.Store.Memories.{MemoryDb, list_memories}
use cyber_companion.Store.WritePolicy.{record_turn_memories}
use cyber_companion.Store.Events.{append_soul_event}
use cyber_companion.Store.Budget.{BudgetConfig}
use cyber_companion.Store.Meta.{
  MetaTable, select, upsert, select-upsert, turns_key, stored_turns, noted, note_llm_turn,
}
use cyber_companion.Store.Messages.{MessageRecord, MessageTable, count_llm_turns_since}
use cyber_companion.Store.Messages.Order.{IsOrdered, create_message-IsOrdered}
use cyber_companion.Store.ChatPersistence.{
  ChatCompletionResult, ChatMessageSchema, TurnLabels, persist_user_messages, persist_chat_turn,
}
use cyber_companion.Store.ChatPersistence.Turns.{count-persist_chat_turn}
use cyber_companion.Store.Summary.{SummaryTable}
use cyber_companion.Store.Summary.Ranges.{maybe_update-Extends}
use cyber_companion.Store.Context.Prompt.{ChatMessage}
use cyber_companion.Behavior.Types.{BehaviorDecision}
use cyber_companion.Behavior.Parser.{StructuredAssistantResponse}
use cyber_companion.Behavior.Engine.Totality.{evaluate_user_message-total}
use cyber_companion.Soul.Ports.{Step, bind, ◌>>=◌, ◌>>◌, pure, try_step, SoulPorts, Router}
use cyber_companion.Soul.Runtime.{
  PerceivedEvent, TurnOutcome, Answer, Commit, replied, ask, answered, labels_of, append_turn_event,
  user_message_id, commit, committed, run_turn,
}
use cyber_companion.Soul.Sqlite.{
  World, Host, decided, listed, remembered, summarised, noted_turn, persisted, ports_from_store,
}

-- A readable counter goes up by one, and stays readable.
note-readable :
    (t : MetaTable) (k : ℕ)
    → stored_turns (select turns_key t) ≡ some k
    → (t' : MetaTable) × ((note_llm_turn t ≡ some (k + 1, t'))
        × (stored_turns (select turns_key t') ≡ some (k + 1)))
unfolding note_llm_turn noted
note-readable t k h = (
  upsert turns_key (show (k + 1)) t,
  (
    rw h refl,
    rw (select-upsert turns_key turns_key (show (k + 1)) t, text_eq_refl turns_key)
        (unfold stored_turns in parse_int-show (k + 1)),
  ),
)

module _ (fl : Float) (host : Host fl) (budget : BudgetConfig fl) where
  abbrev ports : SoulPorts fl (World fl)
  ports = ports_from_store fl host

  -- A store that a turn finds and leaves: messages in id order, and a counter that reads as `k`.
  pub record Sound (k : ℕ) (w : World fl) : Type 0 where
    pub ordered : IsOrdered fl w.messages
    pub counter : stored_turns (select turns_key w.meta) ≡ some k

  users-IsOrdered :
      (ms : List (ChatMessageSchema fl)) (now : Text) (t : MessageTable fl)
      → IsOrdered fl t
      → IsOrdered fl (persist_user_messages fl ms now t).1
  unfolding persist_user_messages
  users-IsOrdered [] now t h = h
  users-IsOrdered (m ∷ ms) now t h =
      let Keeps = λ (r : List ℕ × MessageTable fl). IsOrdered fl r.1 in
      let written =
        create_message-IsOrdered fl m.role m.content "chat" (("phase", str "user_turn") ∷ []) now t
          h in
      if_keeps Keeps (str_eq m.role "user")
        (if_keeps Keeps (is_empty (strip m.content)) (users-IsOrdered ms now t h)
          (users-IsOrdered ms now _ written))
        (users-IsOrdered ms now t h)

  persist-IsOrdered :
      (ms : List (ChatMessageSchema fl)) (result : ChatCompletionResult fl) (labels : TurnLabels fl)
      (now : Text) (t : MessageTable fl)
      → IsOrdered fl t
      → IsOrdered fl (persist_chat_turn fl ms result labels now t).1
  unfolding persist_chat_turn
  persist-IsOrdered ms result labels now t h =
      create_message-IsOrdered fl "assistant" result.content "chat" _ now
        (persist_user_messages fl ms now t).1 (users-IsOrdered ms now t h)

  -- What a commit leaves, on the books that it keeps.
  pub record Booked (flag counted : Bool) (k : ℕ) (w w' : World fl) : Type 0 where
    pub turns :
        (since : Text)
        → count_llm_turns_since fl since w'.messages
          ≡ (if not (text_lt host.now.sql since) && flag then 1 else 0)
            + count_llm_turns_since fl since w.messages
    pub sound : Sound (if counted then k + 1 else k) w'
    pub logged : length w'.events.rows ≡ suc (length w.events.rows)

  -- One step after another.
  and-then :
      {A B : Type 0} (m : Step (World fl) A) (f : A → Step (World fl) B) {w w' : World fl} {a : A}
      → m w ≡ (some a, w')
      → (m >>= f) w ≡ f a w'
  unfolding bind
  and-then m f e = ap (λ r. bind r f) e

  summary-step :
      (w : World fl)
      → 0 < budget.summary_batch_size
      → IsOrdered fl w.messages
      → (b : Bool) × (t : SummaryTable) × (ports.maybe_update_summary budget w
          ≡ (some b, record w { summaries = t }))
  unfolding ports_from_store summarised
  summary-step w h o =
      elim (maybe_update-Extends fl host.tools.lexer budget w.messages host.now.sql w.summaries h
        o) [
          | inl e ↦ (false, w.summaries, rw e refl)
          | inr (bound, t', window, e, more) ↦ (true, t', rw e refl)
        ]

  summary-if :
      (b : Bool) (w : World fl)
      → 0 < budget.summary_batch_size
      → IsOrdered fl w.messages
      → (r : Bool) × (t : SummaryTable) × ((if b
              then ports.maybe_update_summary budget
              else pure false)
            w
          ≡ (some r, record w { summaries = t }))
  summary-if true w h o = summary-step w h o
  summary-if false w h o = (false, w.summaries, refl)

  note-if :
      (b : Bool) (k : ℕ) (w : World fl)
      → stored_turns (select turns_key w.meta) ≡ some k
      → (n : ℕ) × (t : MetaTable) × ((if b then ports.note_llm_turn else pure 0) w
          ≡ (some n, record w { meta = t }))
        × (stored_turns (select turns_key t) ≡ some (if b then k + 1 else k))
  unfolding ports_from_store noted_turn
  note-if true k w h = let (t, (e, r)) = note-readable w.meta k h in (k + 1, t, rw e refl, r)
  note-if false k w h = (0, w.meta, refl, h)

  remembered-after :
      (r : Option (List (Option (MemoryRecord fl))) × MemoryDb fl) (w : World fl)
      → (remembered fl r w).1 ≡ record w { memories = r.1 }
  unfolding remembered
  remembered-after (none, memories) w = refl
  remembered-after (some ms, memories) w = refl

  -- A commit on a sound store comes to its end, with its books kept.
  commit-Booked :
      (c : Commit fl) (k : ℕ) (w : World fl)
      → 0 < budget.summary_batch_size
      → Sound k w
      → (ids : List ℕ) × (w' : World fl) × (commit fl ports budget c w ≡ (some ids, w'))
        × Booked c.should_call_llm c.note k w w'
  unfolding commit ports_from_store persisted try_step append_turn_event append_soul_event labels_of
      bind
  commit-Booked c k w batch sound =
      let request : List (ChatMessageSchema fl) =
        record { role = "user"; content = c.user_input } ∷ [] in
      let labels = labels_of fl ports budget c in
      let stored = persist_chat_turn fl request c.result labels host.now.sql w.messages in
      let w1 : World fl = record w { messages = stored.1 } in
      let written =
        record_turn_memories fl host.to_float host.to_str host.tools host.patterns budget
          c.user_input c.signals (user_message_id fl c.user_input stored.0) host.now
          (record w.memories { messages = map (λ (m : MessageRecord fl). m.id) stored.1.rows }) in
      let w2 : World fl = record w1 { memories = written.1 } in
      let ordered =
        persist-IsOrdered request c.result labels host.now.sql w.messages sound.ordered in
      let (r, t, e3) = summary-if c.update_summary w2 batch ordered in
      let w3 : World fl = record w2 { summaries = t } in
      let (n, meta, e4, counter) = note-if c.note k w3 sound.counter in
      let w4 : World fl = record w3 { meta = meta } in
      let w5 = (append_turn_event fl ports budget c stored.0 w4).1 in
      let last : Step (World fl) (List ℕ) =
        append_turn_event fl ports budget c stored.0 >> pure stored.0 in
      let note : Step (World fl) ℕ = if c.note then ports.note_llm_turn else pure 0 in
      let summary : Step (World fl) Bool =
        if c.update_summary then ports.maybe_update_summary budget else pure false in
      let record_step : Step (World fl) Unit = try_step (
        ports.record_turn_memories c.user_input c.signals (user_message_id fl c.user_input stored.0)
          budget) in
      (
        stored.0,
        w5,
        and-then record_step (λ u. (summary >> (note >> last))) {w = w1}
              (ap (λ (v : World fl). (some tt, v)) (remembered-after written w1))
            ∙ (and-then summary (λ b. (note >> last)) e3 ∙ and-then note (λ m. last) e4),
        record {
          turns = λ since.
              count-persist_chat_turn fl request c.result labels since host.now.sql w.messages;
          sound = record { ordered = ordered; counter = counter };
          logged = refl;
        },
      )

  module _ (router : Router fl) (parse : Text → StructuredAssistantResponse fl)
      (fixed2 fixed4 : fl.F → Text) where
    -- A turn changes the kernel alone before it commits.
    record Asked (w : World fl) (m : Option (Answer fl) × World fl) : Type 0 where
      answer : Answer fl
      after : World fl
      returns : m ≡ (some answer, after)
      messages : after.messages ≡ w.messages
      meta : after.meta ≡ w.meta
      events : after.events ≡ w.events

    replied-Asked :
        (event : PerceivedEvent fl) (d : BehaviorDecision fl) (o : Option (ChatCompletionResult fl))
        (w : World fl)
        → is_some o ≡ true
        → Asked w (replied fl ports budget router parse fixed2 fixed4 event d o w)
    unfolding replied ports_from_store try_step bind
    replied-Asked event d none w h = absurd (ground (arith, h))
    replied-Asked event d (some result) w h = record {
      answer = _;
      after = _;
      returns = refl;
      messages = refl;
      meta = refl;
      events = refl;
    }

    if_step :
        {A : Type 0} (Q : Option A × World fl → Type 0) (b : Bool) (f g : Step (World fl) A)
        (w : World fl)
        → Q (f w)
        → Q (g w)
        → Q ((if b then f else g) w)
    if_step Q true f g w h k = h
    if_step Q false f g w h k = k

    ask-Asked :
        (event : PerceivedEvent fl) (d : BehaviorDecision fl) (model : Text) (w : World fl)
        → ((ms : List ChatMessage) (n : ℕ) → is_some (router.complete ms n event.provider) ≡ true)
        → Asked w (ask fl ports budget router parse fixed2 fixed4 event d (some model) w)
    unfolding ask bind
    ask-Asked event d model w answers =
        let built = ports.build_context event.user_input budget d event.target_language w in
        if_step (Asked w) (ports.check_llm_budget budget model w).allowed _ _ w
          (replied-Asked event d
            (router.complete built.messages budget.max_output_tokens_per_turn event.provider) w
            (answers built.messages budget.max_output_tokens_per_turn))
          (record {
            answer = _;
            after = _;
            returns = refl;
            messages = refl;
            meta = refl;
            events = refl;
          })

    answered-Asked :
        (event : PerceivedEvent fl) (d : BehaviorDecision fl) (model : Text) (w : World fl)
        → router.model_of event.provider ≡ some model
        → ((ms : List ChatMessage) (n : ℕ) → is_some (router.complete ms n event.provider) ≡ true)
        → Asked w (answered fl ports budget router parse fixed2 fixed4 event d w)
    unfolding answered
    answered-Asked event d model w known answers =
        if_step (Asked w) d.should_call_llm _ _ w (rw known (ask-Asked event d model w answers))
          (record {
            answer = _;
            after = _;
            returns = refl;
            messages = refl;
            meta = refl;
            events = refl;
          })

    -- Over a store whose messages are in id order and whose counter reads as k, with a positive
    -- summary batch, a provider that is configured and one that answers whatever it is sent: the turn
    -- returns. Since any time, the count of model turns has grown by one if the turn counts as a model
    -- turn and is not stamped before that time, and by none otherwise; the store is left in the same
    -- order, with the counter one up exactly for a model turn; and the log has one more event.
    pub run_turn-returns :
        (event : PerceivedEvent fl) (k : ℕ) (w : World fl) (model : Text) (since : Text)
        → 0 < budget.summary_batch_size
        → Sound k w
        → router.model_of event.provider ≡ some model
        → ((ms : List ChatMessage) (n : ℕ) → is_some (router.complete ms n event.provider) ≡ true)
        → (o : TurnOutcome fl) × (w' : World fl) × (run_turn fl ports budget router parse fixed2
              fixed4 event w
            ≡ (some o, w'))
          × (count_llm_turns_since fl since w'.messages
              ≡ (if not (text_lt host.now.sql since) && o.called_llm then 1 else 0)
                + count_llm_turns_since fl since w.messages)
          × Sound (if o.called_llm then k + 1 else k) w'
          × (length w'.events.rows ≡ suc (length w.events.rows))
    unfolding run_turn committed
    run_turn-returns event k w model since batch sound known answers =
        let (r, e1, stored) =
          evaluate_user_message-total fl host.tools event.user_input
            (listed fl (list_memories fl none 100 w.memories)) host.iso w.kernel in
        let w1 : World fl = record w { kernel = r.1 } in
        let asked = answered-Asked event r.0 model w1 known answers in
        let c = committed fl ports budget router parse fixed2 fixed4 event asked.answer in
        let found : Sound k asked.after = record {
          ordered = subst (λ m. IsOrdered fl m) (sym asked.messages) sound.ordered;
          counter =
              subst (λ m. stored_turns (select turns_key m) ≡ some k) (sym asked.meta)
                sound.counter;
        } in
        let (ids, w', e3, booked) = commit-Booked c k asked.after batch found in
        let commits : Answer fl → Step (World fl) (TurnOutcome fl) = λ a.
          commit fl ports budget (committed fl ports budget router parse fixed2 fixed4 event a)
          >>= (λ saved. pure a.outcome) in
        (
          asked.answer.outcome,
          w',
          and-then (ports.decide_user_message event.user_input)
                (λ d. answered fl ports budget router parse fixed2 fixed4 event d >>= commits)
                {w' = w1} {a = r.0} (unfold ports_from_store decided in rw e1 refl)
              ∙ (and-then (answered fl ports budget router parse fixed2 fixed4 event r.0) commits
                    asked.returns
                  ∙ and-then (commit fl ports budget c) (λ saved. pure asked.answer.outcome) e3),
          subst
              (λ m.
                count_llm_turns_since fl since w'.messages
                ≡ (if not (text_lt host.now.sql since) && asked.answer.outcome.called_llm
                    then 1
                    else 0)
                  + count_llm_turns_since fl since m)
              asked.messages (booked.turns since),
          booked.sound,
          booked.logged ∙ ap (λ ev. suc (length ev.rows)) asked.events,
        )
