-- ===== src/Examples/Kernel.antt =====
-- Runs of the behavior models.
use cyber_companion.Base.{◌≡◌, ◌≤◌, ◌↔◌, refl, true, false, some, [], ◌∷◌, is_some, ◌||◌, ◌⊎◌}
use cyber_companion.Base.Text.{codes}
use cyber_companion.Base.Int.{ℤ, pos}
use cyber_companion.Base.Dict.{get}
use cyber_companion.Base.Micro.{micro, decimal}
use cyber_companion.Records.{Json, str, int, float, obj, field, end}
use cyber_companion.Store.State.{KernelDb, ok}
use cyber_companion.Behavior.Tone.{
  FeltState, ToneRegister, ToneMode, is_real_sharp, in_positive_zone, positive_streak_key,
  project_tone, next_positive_streak, performative_streak_threshold,
  performative_active_from_metadata,
}
use cyber_companion.Behavior.Tone.Honesty.{felt-sharp, is_performative_iff}
use cyber_companion.Behavior.Tone.Streak.{armed_iff, metadata_after, run_length}
use cyber_companion.Behavior.Types.{BehaviorDecision, DecisionType}
use cyber_companion.Behavior.Engine.{evaluate_user_message, evaluate_idle_tick, read_input, streak}
use cyber_companion.Behavior.Engine.Totality.{evaluate_user_message-total}
use cyber_companion.Behavior.Engine.Bounds.{
  KernelInUnit, evaluate_user_message-KernelInUnit, evaluate_idle_tick-KernelInUnit,
}
use cyber_companion.Behavior.Engine.Decisions.{evaluate_user_message-answers}
use cyber_companion.Behavior.Signals.{Converted, number, unreadable, apply_signals_to_kernel}
use cyber_companion.Behavior.Signals.Bounds.{apply_signals-KernelInUnit}
use cyber_companion.Examples.Data.{calm, close_friend, kernel, kernel-InUnit, tools}

-- What the companion makes of "ok".
abbrev after_ok :
    (r : BehaviorDecision micro × KernelDb micro) × (evaluate_user_message micro tools
        (codes "ok")
        []
        "now"
        kernel
      ≡ ok r)
    × (get positive_streak_key r.1.mood.metadata
        ≡ get positive_streak_key (streak micro (read_input micro tools (codes "ok")) kernel).0)
after_ok = evaluate_user_message-total micro tools (codes "ok") [] "now" kernel

evaluate_user_message-total_example :
    (r : BehaviorDecision micro × KernelDb micro) × (evaluate_user_message micro tools
        (codes "ok")
        []
        "now"
        kernel
      ≡ ok r)
    × (get positive_streak_key r.1.mood.metadata
        ≡ get positive_streak_key (streak micro (read_input micro tools (codes "ok")) kernel).0)
evaluate_user_message-total_example =
    evaluate_user_message-total micro tools (codes "ok") [] "now" kernel

evaluate_user_message-KernelInUnit_example : KernelInUnit micro after_ok.0.1
evaluate_user_message-KernelInUnit_example =
    evaluate_user_message-KernelInUnit micro tools (codes "ok") [] "now" kernel kernel-InUnit
      after_ok.1

evaluate_user_message-answers_example :
    let d = after_ok.0.0 in
    ((d.should_call_llm ≡ false) ↔ (is_some d.local_response ≡ true))
    × ((d.should_call_llm ≡ true)
        ↔ ((d.decision ≡ DecisionType.reply) ⊎ (d.decision ≡ DecisionType.interrupt)))
    × (let r = read_input micro tools (codes "ok") in
        (r.empty || r.refused || r.low_value) ≡ true → d.should_call_llm ≡ false)
evaluate_user_message-answers_example =
    evaluate_user_message-answers micro tools (codes "ok") [] "now" kernel after_ok.1

evaluate_idle_tick-KernelInUnit_example :
    KernelInUnit micro (evaluate_idle_tick micro "now" kernel).1
evaluate_idle_tick-KernelInUnit_example =
    evaluate_idle_tick-KernelInUnit micro "now" kernel kernel-InUnit

felt-sharp_example :
    ((project_tone micro calm close_friend true false).felt ≡ FeltState.sharp)
    ↔ (is_real_sharp micro calm close_friend ≡ true)
felt-sharp_example = felt-sharp micro calm close_friend true false

is_performative_iff_example :
    let shown = project_tone micro calm close_friend false true in
    ((shown.is_performative ≡ true)
      ↔ ((in_positive_zone micro calm close_friend false ≡ true) × (true ≡ true)))
    × ((shown.tone_mode ≡ ToneMode.playful) ↔ (shown.is_performative ≡ true))
    × (shown.is_performative ≡ true
        → (shown.felt ≡ FeltState.warm) × (shown.register ≡ ToneRegister.playful))
is_performative_iff_example = is_performative_iff micro calm close_friend false true

armed_iff_example :
    let next = next_positive_streak micro (metadata_after micro [] (true ∷ false ∷ [])) true in
    ((next.1 ≡ true) ↔ (performative_streak_threshold ≤ run_length (true ∷ true ∷ false ∷ [])))
    × (performative_active_from_metadata micro next.0 ≡ next.1)
unfolding get
armed_iff_example = armed_iff micro [] true (true ∷ false ∷ []) refl

-- Numbers are read as they stand, everything else as no number.
to_float : Json micro → Converted ℤ
to_float (int n) = number n
to_float (float x) = number x
to_float _ = unreadable

abbrev bad_turn : Json micro
bad_turn = obj (
    field "appraisal"
      (obj (field "valence" (float (decimal 9 1)) (field "goal_relevance" (int (pos 7)) end)))
      (field "relationship" (obj (field "tension" (str "much") end)) end))

apply_signals-KernelInUnit_example :
    KernelInUnit micro (apply_signals_to_kernel micro to_float (some bad_turn) "now" kernel)
apply_signals-KernelInUnit_example =
    apply_signals-KernelInUnit micro to_float (some bad_turn) "now" kernel kernel-InUnit
