-- ===== src/Soul/Runtime/Brakes.antt =====
-- backend/app/soul/runtime.py: a turn that a rule or the spend brake answers does without a provider.
use cyber_companion.Base.{
  ℕ, ◌≡◌, refl, String, Bool, true, false, ◌&&◌, Option, none, some, List, if◌then◌else◌, arith,
}
use cyber_companion.Base.Text.{Text}
use cyber_companion.Base.Float.{Float}
use cyber_companion.Records.{MoodStateRecord}
use cyber_companion.Store.Budget.{BudgetConfig}
use cyber_companion.Store.ChatPersistence.{ChatCompletionResult}
use cyber_companion.Store.Context.Prompt.{ChatMessage}
use cyber_companion.Behavior.Types.{BehaviorDecision}
use cyber_companion.Behavior.Parser.{StructuredAssistantResponse}
use cyber_companion.Soul.Ports.{Step, bind, ◌>>=◌, pure, SoulPorts, Router}
use cyber_companion.Soul.Runtime.{
  PerceivedEvent, TurnOutcome, Answer, local_answer, ask, answered, commit, committed, run_turn,
}

module _ (fl : Float) {W : Type 0} (ports : SoulPorts fl W) (budget : BudgetConfig fl)
    (parse : Text → StructuredAssistantResponse fl) (fixed2 fixed4 : fl.F → Text) where
  gate_open : Option Text → W → Bool
  gate_open none w = false
  gate_open (some model) w = (ports.check_llm_budget budget model w).allowed

  -- Does the runtime go on to a provider, after this decision?
  unfoldable pub reaches_provider : Router fl → PerceivedEvent fl → BehaviorDecision fl → W → Bool
  unfolding gate_open
  reaches_provider router event decision w =
      decision.should_call_llm && gate_open (router.model_of event.provider) w

  -- Did the turn, if it came to an end, count as a model turn?
  abbrev pub counted : Option (TurnOutcome fl) → Bool
  counted none = false
  counted (some o) = o.called_llm

  -- The same configuration of providers, with other services behind it.
  abbrev pub served_by :
      Router fl
      → (List ChatMessage → ℕ → Option String → Option (ChatCompletionResult fl))
      → (Text → Option String)
      → (Text → MoodStateRecord fl → Text)
      → Router fl
  served_by router complete translate tag = record router {
    complete = complete;
    translate_to_chinese = translate;
    tag_reply_by_sentence = tag;
  }

  -- Two conditionals on one test agree where their branches do.
  if_same :
      {A : Type 0} (Q : Option A × W → Type 0) (b : Bool) (f f' g g' : Step W A) (w : W)
      → (b ≡ true → (f w ≡ f' w) × Q (f' w))
      → (b ≡ false → (g w ≡ g' w) × Q (g' w))
      → ((if b then f else g) w ≡ (if b then f' else g') w) × Q ((if b then f' else g') w)
  if_same Q true f f' g g' w h k = h refl
  if_same Q false f f' g g' w h k = k refl

  -- An answer that no service has a part in.
  Local : Option (Answer fl) × W → Type 0
  Local (none, w) = Unit
  Local (some a, w) = a.outcome.called_llm ≡ false

  module _ (router : Router fl)
      (complete : List ChatMessage → ℕ → Option String → Option (ChatCompletionResult fl))
      (translate : Text → Option String) (tag : Text → MoodStateRecord fl → Text) where
    ask-same :
        (event : PerceivedEvent fl) (d : BehaviorDecision fl) (o : Option Text) (w : W)
        → gate_open o w ≡ false
        → (ask fl ports budget
              (served_by router complete translate tag)
              parse
              fixed2
              fixed4
              event
              d
              o
              w
            ≡ ask fl ports budget router parse fixed2 fixed4 event d o w)
          × Local (ask fl ports budget router parse fixed2 fixed4 event d o w)
    unfolding ask gate_open bind Local local_answer
    ask-same event d none w h = (refl, tt)
    ask-same event d (some model) w h = rw h (refl, refl)

    answered-same :
        (event : PerceivedEvent fl) (d : BehaviorDecision fl) (w : W)
        → reaches_provider router event d w ≡ false
        → (answered fl ports budget
              (served_by router complete translate tag)
              parse
              fixed2
              fixed4
              event
              d
              w
            ≡ answered fl ports budget router parse fixed2 fixed4 event d w)
          × Local (answered fl ports budget router parse fixed2 fixed4 event d w)
    unfolding answered reaches_provider
    answered-same event d w h =
        let other = served_by router complete translate tag in
        if_same Local d.should_call_llm
          (ask fl ports budget other parse fixed2 fixed4 event d (router.model_of event.provider))
          (ask fl ports budget router parse fixed2 fixed4 event d (router.model_of event.provider))
          _ _ w
          (λ asks. ask-same event d (router.model_of event.provider) w (ground (arith, h, asks)))
          (λ own. (refl, unfold Local local_answer in refl))

    -- The commit takes the answer as it is.
    finish-same :
        (event : PerceivedEvent fl) (r r' : Option (Answer fl) × W)
        → r ≡ r'
        → Local r'
        → let finish = λ (a : Answer fl).
          commit fl ports budget (committed fl ports budget router parse fixed2 fixed4 event a)
          >>= (λ ids. pure a.outcome) in
          (bind r finish ≡ bind r' finish) × (counted (bind r' finish).0 ≡ false)
    unfolding bind
    finish-same event r (none, w) e h = (rw e refl, refl)
    finish-same event r (some a, w) e h = (
      rw e refl,
      kept
          (commit fl ports budget (committed fl ports budget router parse fixed2 fixed4 event a) w),
    )
      where
        kept : (m : Option (List ℕ) × W) → counted (bind m (λ ids. pure a.outcome)).0 ≡ false
        kept (none, w') = unfold bind in refl
        kept (some ids, w') = unfold bind Local in h

    -- A turn that the decision keeps from a provider, or the spend brake, or a provider that is not
    -- configured: the result, the reply and every write of the turn are the same whatever the
    -- provider, the translator and the tagger would do, and it does not count as a model turn.
    pub run_turn-local :
        (event : PerceivedEvent fl) (w w' : W) (d : BehaviorDecision fl)
        → ports.decide_user_message event.user_input w ≡ (some d, w')
        → reaches_provider router event d w' ≡ false
        → (run_turn fl ports budget
              (served_by router complete translate tag)
              parse
              fixed2
              fixed4
              event
              w
            ≡ run_turn fl ports budget router parse fixed2 fixed4 event w)
          × (counted (run_turn fl ports budget router parse fixed2 fixed4 event w).0 ≡ false)
    unfolding run_turn bind
    run_turn-local event w w' d e h =
        let (same, local) = answered-same event d w' h in rw e (finish-same event _ _ same local)
