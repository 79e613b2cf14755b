-- ===== src/Soul/Sqlite.antt =====
-- backend/app/soul/adapters.py: the ports over the SQLite store, which is the product of its tables.
use cyber_companion.Base.{ℕ, String, Bool, Option, none, some, List, [], ◌∷◌, map}
use cyber_companion.Base.Text.{Text}
use cyber_companion.Base.Float.{Float}
use cyber_companion.Records.{Json, MemoryRecord}
use cyber_companion.Store.State.{KernelDb, Result, ok, err, get_mood_state}
use cyber_companion.Store.Meta.{MetaTable, note_llm_turn}
use cyber_companion.Store.Messages.{MessageRecord, MessageTable}
use cyber_companion.Store.UsageGuard.{evaluate_llm_budget_gate}
use cyber_companion.Store.ChatPersistence.{persist_chat_turn}
use cyber_companion.Store.Summary.{SummaryTable, maybe_update_conversation_summary}
use cyber_companion.Store.Memories.{MemoryDb, list_memories}
use cyber_companion.Store.Candidates.{Patterns}
use cyber_companion.Store.WritePolicy.{Now, Written, record_turn_memories}
use cyber_companion.Store.Events.{EventTable, append_soul_event}
use cyber_companion.Store.Context.Prompt.{Surroundings, build_provider_context}
use cyber_companion.Behavior.Types.{BehaviorDecision}
use cyber_companion.Behavior.Rules.{Tools}
use cyber_companion.Behavior.Engine.{evaluate_user_message}
use cyber_companion.Behavior.Signals.{Converted, apply_signals_to_kernel}
use cyber_companion.Soul.Ports.{TurnEvent, SoulPorts}

module _ (fl : Float) where
  open fl use {F}

  -- The store at the time of a turn. The messages that the memories refer to are those of the log,
  -- from which the port below takes them.
  pub record World : Type 0 where
    pub kernel : KernelDb fl
    pub messages : MessageTable fl
    pub memories : MemoryDb fl
    pub summaries : SummaryTable
    pub meta : MetaTable
    pub events : EventTable (TurnEvent fl)

  -- What a turn takes from libraries and from its surroundings, with the time in the two forms that
  -- the store writes; `iso` is `now.iso` as the kernel keeps it.
  pub record Host : Type 0 where
    pub tools : Tools
    pub patterns : Patterns
    pub to_float : Json fl → Converted F
    pub to_str : Json fl → Text
    pub usd : MessageRecord fl → Option F
    pub around : Surroundings fl
    pub now : Now
    pub iso : String

  unfoldable pub decided :
      Result (BehaviorDecision fl × KernelDb fl) → World → Option (BehaviorDecision fl) × World
  decided (ok (decision, kernel)) w = (some decision, record w { kernel = kernel })
  decided (err e) w = (none, w)

  -- `store.list_memories(limit=100)`
  unfoldable pub listed : Option (List (MemoryRecord fl)) → List (MemoryRecord fl)
  listed none = []
  listed (some memories) = memories

  unfoldable pub remembered : Written fl → World → Option {0} Unit × World
  remembered (none, memories) w = (none, record w { memories = memories })
  remembered (some ms, memories) w = (some tt, record w { memories = memories })

  unfoldable pub summarised : Option (Bool × SummaryTable) → World → Option Bool × World
  summarised none w = (none, w)
  summarised (some (updated, summaries)) w = (some updated, record w { summaries = summaries })

  unfoldable pub noted_turn : Option (ℕ × MetaTable) → World → Option ℕ × World
  noted_turn none w = (none, w)
  noted_turn (some (n, meta)) w = (some n, record w { meta = meta })

  unfoldable pub persisted : List ℕ × MessageTable fl → World → Option (List ℕ) × World
  persisted (ids, messages) w = (some ids, record w { messages = messages })

  module _ (host : Host) where
    -- SQLiteMemoryPort, SQLiteStatePort and SQLiteEventLogPort
    unfoldable pub ports_from_store : SoulPorts fl World
    unfolding decided listed remembered summarised noted_turn persisted
    ports_from_store = record {
      decide_user_message = λ user_input w.
          decided
            (evaluate_user_message fl host.tools user_input
              (listed (list_memories fl none 100 w.memories)) host.iso w.kernel)
            w;
      check_llm_budget = λ budget target_model w.
          evaluate_llm_budget_gate fl host.tools.lexer.lower host.usd w.messages budget target_model
            host.now.sql;
      build_context = λ user_input budget behavior target_language w.
          build_provider_context fl host.tools.lexer host.around budget w.kernel w.summaries
            w.memories w.messages user_input (some behavior) target_language;
      persist_turn = λ user_input result labels w.
          persisted
            (persist_chat_turn fl (record { role = "user"; content = user_input } ∷ []) result
              labels host.now.sql w.messages)
            w;
      record_turn_memories = λ user_input signals source_message_id budget w.
          remembered
            (record_turn_memories fl host.to_float host.to_str host.tools host.patterns budget
              user_input signals source_message_id host.now
              (record w.memories { messages = map (λ m. m.id) w.messages.rows }))
            w;
      maybe_update_summary = λ budget w.
          summarised
            (maybe_update_conversation_summary fl host.tools.lexer budget w.messages host.now.sql
              w.summaries)
            w;
      note_llm_turn = λ w. noted_turn (note_llm_turn w.meta) w;
      get_mood = λ w. get_mood_state fl w.kernel;
      apply_signals = λ signals w. (
        some tt,
        record w { kernel = apply_signals_to_kernel fl host.to_float signals host.iso w.kernel },
      );
      append = λ event w. (
        some tt,
        record w {
          events =
              (append_soul_event (TurnEvent fl) event.kind event.payload host.now.sql w.events).1;
        },
      );
    }
