-- ===== src/Soul/Runtime/DailyLimit.antt =====
-- backend/app/soul/runtime.py over adapters.py: the daily limit of usage_guard.py over a day of turns.
use cyber_companion.Base.{
  ℕ, ◌+◌, ◌≤◌, ◌<◌, ◌≡◌, refl, ap, ◌∙◌, subst, ◌⊎◌, inl, inr, Bool, true, false, not, ◌&&◌, Option,
  none, some, List, [], ◌∷◌, arith, max, if◌then◌else◌,
}
use cyber_companion.Base.Text.{Text, text_lt}
use cyber_companion.Base.Float.{Float}
use cyber_companion.Store.Budget.{BudgetConfig}
use cyber_companion.Store.Messages.{count_llm_turns_since}
use cyber_companion.Store.UsageGuard.{day_start_str}
use cyber_companion.Store.UsageGuard.Limits.{gate_daily}
use cyber_companion.Store.ChatPersistence.{ChatCompletionResult, persist_chat_turn}
use cyber_companion.Store.ChatPersistence.Turns.{count-persist_chat_turn}
use cyber_companion.Behavior.Types.{BehaviorDecision}
use cyber_companion.Behavior.Parser.{StructuredAssistantResponse}
use cyber_companion.Soul.Ports.{Step, bind, ◌>>=◌, pure, try_step, SoulPorts, Router}
use cyber_companion.Soul.Runtime.{
  PerceivedEvent, TurnOutcome, Answer, replied, ask, answered, labels_of, local_answer, commit,
  committed, run_turn,
}
use cyber_companion.Soul.Runtime.Writes.{bind-Keeps, decided-messages, pure-Keeps, commit-messages}
use cyber_companion.Soul.Sqlite.{World, Host, ports_from_store}

module _ (fl : Float) where
  -- A turn of the runtime, with what it takes from its surroundings and the time at which it runs.
  pub record Turn : Type 0 where
    pub host : Host fl
    pub router : Router fl
    pub parse : Text → StructuredAssistantResponse fl
    pub fixed2 : fl.F → Text
    pub fixed4 : fl.F → Text
    pub event : PerceivedEvent fl

  module _ (budget : BudgetConfig fl) where
    -- A turn to its end, or to the exception that ends it.
    unfoldable pub after_turn : Turn → World fl → World fl
    unfolding run_turn
    after_turn t w =
        (run_turn fl (ports_from_store fl t.host) budget t.router t.parse t.fixed2 t.fixed4 t.event
          w).1

    -- One after another.
    unfoldable pub after_turns : List Turn → World fl → World fl
    unfolding after_turn
    after_turns [] w = w
    after_turns (t ∷ ts) w = after_turns ts (after_turn t w)

    -- Every turn runs at a time of the day.
    abbrev pub SameDay : Text → List Turn → Type 0
    SameDay day [] = Unit {0}
    SameDay day (t ∷ ts) = (day_start_str t.host.now.sql ≡ day) × SameDay day ts

    module _ (host : Host fl) where
      abbrev ports : SoulPorts fl (World fl)
      ports = ports_from_store fl host

      module _ (router : Router fl) (parse : Text → StructuredAssistantResponse fl)
          (fixed2 fixed4 : fl.F → Text) (day : Text) where
        -- The count of the model turns of the day.
        abbrev counted : World fl → ℕ
        counted w = count_llm_turns_since fl day w.messages

        -- Asking writes no message, and an answer of a model had room under the limit.
        HadRoom : World fl → Option (Answer fl) × World fl → Type 0
        HadRoom w (none, w') = w'.messages ≡ w.messages
        HadRoom w (some a, w') =
            (w'.messages ≡ w.messages)
            × ((a.outcome.called_llm ≡ false) ⊎ (counted w < budget.daily_llm_turn_limit))

        replied-HadRoom :
            (event : PerceivedEvent fl) (d : BehaviorDecision fl)
            (o : Option (ChatCompletionResult fl)) (w : World fl)
            → counted w < budget.daily_llm_turn_limit
            → HadRoom w (replied fl ports budget router parse fixed2 fixed4 event d o w)
        unfolding replied HadRoom ports_from_store try_step bind
        replied-HadRoom event d none w room = refl
        replied-HadRoom event d (some result) w room = (refl, inr room)

        if_step :
            {A : Type 0} (Q : Option A × World fl → Type 0) (b : Bool) (f g : Step (World fl) A)
            (w : World fl)
            → (b ≡ true → Q (f w))
            → (b ≡ false → Q (g w))
            → Q ((if b then f else g) w)
        if_step Q true f g w h k = h refl
        if_step Q false f g w h k = k refl

        ask-HadRoom :
            (event : PerceivedEvent fl) (d : BehaviorDecision fl) (o : Option Text) (w : World fl)
            → 0 < budget.daily_llm_turn_limit
            → day_start_str host.now.sql ≡ day
            → HadRoom w (ask fl ports budget router parse fixed2 fixed4 event d o w)
        unfolding ask bind
        ask-HadRoom event d none w pos same = unfold HadRoom in refl
        ask-HadRoom event d (some model) w pos same =
            let built = ports.build_context event.user_input budget d event.target_language w in
            if_step (HadRoom w) (ports.check_llm_budget budget model w).allowed _ _ w
              (λ allowed.
                replied-HadRoom event d
                  (router.complete built.messages budget.max_output_tokens_per_turn event.provider)
                  w
                  (subst (λ s. count_llm_turns_since fl s w.messages < budget.daily_llm_turn_limit)
                    same
                    (gate_daily fl host.tools.lexer.lower host.usd budget w.messages model
                      host.now.sql pos (unfold ports_from_store in allowed))))
              (λ blocked. unfold HadRoom local_answer in (refl, inl refl))

        answered-HadRoom :
            (event : PerceivedEvent fl) (d : BehaviorDecision fl) (w : World fl)
            → 0 < budget.daily_llm_turn_limit
            → day_start_str host.now.sql ≡ day
            → HadRoom w (answered fl ports budget router parse fixed2 fixed4 event d w)
        unfolding answered
        answered-HadRoom event d w pos same =
            if_step (HadRoom w) d.should_call_llm _ _ w
              (λ asks. ask-HadRoom event d (router.model_of event.provider) w pos same)
              (λ own. unfold HadRoom local_answer in (refl, inl refl))

        -- What the day may count after a step from `w`.
        Bounded : {A : Type 0} → World fl → Option A × World fl → Type 0
        Bounded w r = counted r.1 ≤ max budget.daily_llm_turn_limit (counted w)

        finish : PerceivedEvent fl → Answer fl → Step (World fl) (TurnOutcome fl)
        finish event a =
            commit fl ports budget (committed fl ports budget router parse fixed2 fixed4 event a)
            >>= (λ saved. pure a.outcome)

        finish-Bounded :
            (event : PerceivedEvent fl) (w : World fl) (r : Option (Answer fl) × World fl)
            → HadRoom w r
            → Bounded w (bind r (finish event))
        unfolding HadRoom Bounded finish committed
        finish-Bounded event w (none, w') h =
            let e = ap (λ m. count_llm_turns_since fl day m) h in unfold bind in omega (arith, e)
        finish-Bounded event w (some a, w') (same, room) =
            let c = committed fl ports budget router parse fixed2 fixed4 event a in
            let stored : (bind (some a, w') (finish event)).1.messages
                ≡ (persist_chat_turn fl (record { role = "user"; content = c.user_input } ∷ [])
                    c.result (labels_of fl ports budget c) host.now.sql w'.messages).1 =
              unfold bind in
              bind-Keeps fl budget (commit fl ports budget c w') (λ saved. pure a.outcome)
                (λ saved. pure-Keeps fl budget host a.outcome)
              ∙ commit-messages fl budget host c w' in
            let after = ap (λ m. count_llm_turns_since fl day m) stored in
            let before = ap (λ m. count_llm_turns_since fl day m) same in
            let grown : count_llm_turns_since fl day
                  (persist_chat_turn fl (record { role = "user"; content = c.user_input } ∷ [])
                    c.result (labels_of fl ports budget c) host.now.sql w'.messages).1
                ≡ (if not (text_lt host.now.sql day) && a.outcome.called_llm then 1 else 0)
                  + counted w' =
              unfold labels_of in
              count-persist_chat_turn fl (record { role = "user"; content = c.user_input } ∷ [])
                c.result (labels_of fl ports budget c) day host.now.sql w'.messages in
            elim room [
              | inl own ↦ ground (arith, after, before, grown, own)
              | inr lt ↦ ground (arith, after, before, grown, lt)
            ]

        decided-Bounded :
            (event : PerceivedEvent fl) (w : World fl) (r : Option (BehaviorDecision fl) × World fl)
            → 0 < budget.daily_llm_turn_limit
            → day_start_str host.now.sql ≡ day
            → r.1.messages ≡ w.messages
            → Bounded w (
                bind r (λ d.
                  answered fl ports budget router parse fixed2 fixed4 event d >>= finish event))
        unfolding bind Bounded
        decided-Bounded event w (none, w') pos same h =
            let e = ap (λ m. count_llm_turns_since fl day m) h in omega (arith, e)
        decided-Bounded event w (some d, w') pos same h =
            let e = ap (λ m. count_llm_turns_since fl day m) h in
            let bounded =
              finish-Bounded event w'
                (answered fl ports budget router parse fixed2 fixed4 event d w')
                (answered-HadRoom event d w' pos same) in
            omega (arith, e, bounded)

        run_turn-Bounded :
            (event : PerceivedEvent fl) (w : World fl)
            → 0 < budget.daily_llm_turn_limit
            → day_start_str host.now.sql ≡ day
            → Bounded w (run_turn fl ports budget router parse fixed2 fixed4 event w)
        unfolding run_turn finish
        run_turn-Bounded event w pos same =
            decided-Bounded event w (ports.decide_user_message event.user_input w) pos same
              (unfold ports_from_store in decided-messages fl budget _ w)

    -- With a positive daily limit, over any turns of the runtime that run one after another, each with
    -- one reading of the clock, in the same day, whatever their providers answer and whether they end
    -- or raise: the model turns that the log counts for the day never pass the limit, or never grow if
    -- they were over it already.
    pub daily_limit_holds :
        (day : Text) (ts : List Turn) (w : World fl)
        → 0 < budget.daily_llm_turn_limit
        → SameDay day ts
        → count_llm_turns_since fl day (after_turns ts w).messages
          ≤ max budget.daily_llm_turn_limit (count_llm_turns_since fl day w.messages)
    unfolding after_turns
    daily_limit_holds day [] w pos same = omega arith
    daily_limit_holds day (t ∷ ts) w pos same =
        let first : count_llm_turns_since fl day (after_turn t w).messages
            ≤ max budget.daily_llm_turn_limit (count_llm_turns_since fl day w.messages) =
          unfold after_turn Bounded in
          run_turn-Bounded t.host t.router t.parse t.fixed2 t.fixed4 day t.event w pos same.0 in
        omega (arith, first, daily_limit_holds day ts (after_turn t w) pos same.1)
