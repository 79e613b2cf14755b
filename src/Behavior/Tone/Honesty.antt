-- ===== src/Behavior/Tone/Honesty.antt =====
-- backend/app/behavior/tone.py: what is felt against what is shown.
use cyber_companion.Base.{◌≡◌, ◌↔◌, Bool, true, arith}
use cyber_companion.Base.Float.{Float}
use cyber_companion.Records.{MoodStateRecord, RelationshipStateRecord}
use cyber_companion.Behavior.Tone.{
  FeltState, ToneRegister, ToneMode, is_worried, is_real_sharp, in_positive_zone, project_tone,
}

module _ (fl : Float) (mood : MoodStateRecord fl) (relationship : RelationshipStateRecord fl) where
  -- The core is sharp exactly when the annoyance or the tension is real, also under soft ink.
  pub felt-sharp :
      (overwhelmed active : Bool)
      → ((project_tone fl mood relationship overwhelmed active).felt ≡ FeltState.sharp)
        ↔ (is_real_sharp fl mood relationship ≡ true)
  unfolding project_tone in_positive_zone
  felt-sharp overwhelmed active = (λ h. ground arith, λ h. ground arith)

  -- Teasing is performed exactly in the positive zone with the streak armed, and then the mode, the
  -- register and the core are playful, playful and warm.
  pub is_performative_iff :
      (overwhelmed active : Bool)
      → let shown = project_tone fl mood relationship overwhelmed active in
        ((shown.is_performative ≡ true)
          ↔ ((in_positive_zone fl mood relationship overwhelmed ≡ true) × (active ≡ true)))
        × ((shown.tone_mode ≡ ToneMode.playful) ↔ (shown.is_performative ≡ true))
        × (shown.is_performative ≡ true
            → (shown.felt ≡ FeltState.warm) × (shown.register ≡ ToneRegister.playful))
  unfolding project_tone in_positive_zone
  is_performative_iff overwhelmed active = (
    (λ h. ground arith, λ h. ground arith),
    (λ h. ground arith, λ h. ground arith),
    λ h. ground arith,
  )

  -- Worry wins the expression, whatever else is felt: the mode is comfort exactly when worried.
  pub comfort_iff :
      (overwhelmed active : Bool)
      → ((project_tone fl mood relationship overwhelmed active).tone_mode ≡ ToneMode.comfort)
        ↔ (is_worried fl mood overwhelmed ≡ true)
  unfolding project_tone
  comfort_iff overwhelmed active = (λ h. ground arith, λ h. ground arith)
