-- ===== src/Behavior/Tone.antt =====
-- backend/app/behavior/tone.py: what is felt, what is shown, and the streak that arms teasing.
pub mod Honesty
pub mod Streak
use cyber_companion.Base.{
  ℕ, ◌+◌, String, Bool, true, false, ◌&&◌, ◌||◌, not, Option, none, some, if◌then◌else◌, str_eq,
  str_in, List, [], ◌∷◌, leb,
}
use cyber_companion.Base.Dict.{Dict, get, put}
use cyber_companion.Base.Int.{ℤ, pos, negsuc}
use cyber_companion.Base.Float.{Float, max_f}
use cyber_companion.Records.{
  Json, null, bool, int, float, str, arr, obj, MoodStateRecord, RelationshipStateRecord,
}

pub data FeltState : Type 0 where
  warm sharp worried lonely neutral : FeltState

pub data ToneRegister : Type 0 where
  comfort real_sharp playful warm lonely neutral : ToneRegister

-- types.py
pub data ToneMode : Type 0 where
  normal comfort tease playful : ToneMode

abbrev pub performative_streak_threshold : ℕ
performative_streak_threshold = 2

abbrev pub positive_streak_key : String
positive_streak_key = "positive_zone_streak"

module _ (fl : Float) where
  open fl use {F, dec, lt, le}

  pub record ToneProjection : Type 0 where
    pub felt : FeltState
    pub expressed_edge : F
    pub is_performative : Bool
    pub register : ToneRegister
    pub tone_mode : ToneMode

  unfoldable pub is_worried : MoodStateRecord fl → Bool → Bool
  is_worried mood overwhelmed =
      overwhelmed || le (dec 5 1) mood.worry || str_in mood.mood ("sad" ∷ "worried" ∷ [])

  unfoldable pub is_real_sharp : MoodStateRecord fl → RelationshipStateRecord fl → Bool
  is_real_sharp mood relationship =
      le (dec 5 1) mood.annoyance || le (dec 55 2) relationship.tension

  unfoldable pub in_positive_zone : MoodStateRecord fl → RelationshipStateRecord fl → Bool → Bool
  in_positive_zone mood relationship overwhelmed =
      if is_worried mood overwhelmed || is_real_sharp mood relationship
      then false
      else lt mood.annoyance (dec 3 1)
        && lt relationship.tension (dec 3 1)
        && le (dec 67 2) relationship.closeness
        && le (dec 3 1) mood.energy

  -- The jab of someone who trusts; a cold edge otherwise.
  trusting : RelationshipStateRecord fl → Bool
  trusting r = le (dec 4 1) r.trust && le (dec 3 1) r.familiarity && lt r.tension (dec 5 1)

  unfoldable pub project_tone :
      MoodStateRecord fl → RelationshipStateRecord fl → Bool → Bool → ToneProjection
  unfolding trusting
  project_tone mood relationship overwhelmed performative_active =
      if is_worried mood overwhelmed
      then record {
        felt = if is_real_sharp mood relationship then FeltState.sharp else FeltState.worried;
        expressed_edge = dec 15 2;
        is_performative = false;
        register = ToneRegister.comfort;
        tone_mode = ToneMode.comfort;
      }
      else if is_real_sharp mood relationship
      then record {
        felt = FeltState.sharp;
        expressed_edge = dec 9 1;
        is_performative = false;
        register = ToneRegister.real_sharp;
        tone_mode = if trusting relationship then ToneMode.tease else ToneMode.normal;
      }
      else if in_positive_zone mood relationship overwhelmed
      then (if performative_active
          then record {
            felt = FeltState.warm;
            expressed_edge = dec 85 2;
            is_performative = true;
            register = ToneRegister.playful;
            tone_mode = ToneMode.playful;
          }
          else record {
            felt = FeltState.warm;
            expressed_edge = dec 5 1;
            is_performative = false;
            register = ToneRegister.warm;
            tone_mode = ToneMode.normal;
          })
      else if le (dec 5 1) mood.loneliness
      then record {
        felt = FeltState.lonely;
        expressed_edge = dec 5 1;
        is_performative = false;
        register = ToneRegister.lonely;
        tone_mode = ToneMode.normal;
      }
      else record {
        felt = FeltState.neutral;
        expressed_edge = dec 5 1;
        is_performative = false;
        register = ToneRegister.neutral;
        tone_mode = ToneMode.normal;
      }

  -- `current if isinstance(current, int) and current >= 0 else 0`; a Python bool is an int.
  unfoldable pub streak_count : Option (Json fl) → ℕ
  streak_count none = 0
  streak_count (some null) = 0
  streak_count (some (bool b)) = if b then 1 else 0
  streak_count (some (int (pos n))) = n
  streak_count (some (int (negsuc n))) = 0
  streak_count (some (float x)) = 0
  streak_count (some (str s)) = 0
  streak_count (some (arr xs)) = 0
  streak_count (some (obj fs)) = 0

  unfoldable pub next_positive_streak : Dict (Json fl) → Bool → Dict (Json fl) × Bool
  next_positive_streak metadata positive_turn =
      let streak : ℕ =
        if positive_turn then streak_count (get positive_streak_key metadata) + 1 else 0 in
      (
        put positive_streak_key (int (pos streak)) metadata,
        leb performative_streak_threshold streak,
      )

  -- `isinstance(current, int) and current >= THRESHOLD`; a negative or missing value fails.
  unfoldable pub performative_active_from_metadata : Dict (Json fl) → Bool
  performative_active_from_metadata metadata =
      leb performative_streak_threshold (streak_count (get positive_streak_key metadata))

  unfoldable pub register_intensity :
      MoodStateRecord fl → RelationshipStateRecord fl → ToneProjection → Bool → F
  register_intensity mood relationship projection overwhelmed = elim projection.register [
    | ToneRegister.comfort ↦
        if overwhelmed
        then dec 1 0
        else max_f fl mood.worry
            (if str_in mood.mood ("sad" ∷ "worried" ∷ []) then dec 8 1 else dec 0 0)
    | ToneRegister.real_sharp ↦ max_f fl mood.annoyance relationship.tension
    | ToneRegister.playful ↦ relationship.closeness
    | ToneRegister.lonely ↦ mood.loneliness
    | ToneRegister.warm ↦ dec 0 0
    | ToneRegister.neutral ↦ dec 0 0
  ]
