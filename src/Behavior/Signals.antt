-- ===== src/Behavior/Signals.antt =====
-- backend/app/behavior/kernel.py: the appraisal of the turn analyzer, applied to the kernel.
pub mod Bounds
use cyber_companion.Base.{
  String, Bool, true, false, not, ◌&&◌, ◌||◌, Option, none, some, str_eq, if◌then◌else◌, is_some,
  ◌>>=◌,
}
use cyber_companion.Base.Float.{Float, max_f, min_f, clamp01}
use cyber_companion.Records.{
  Json, null, obj, Fields, end, field, MoodStateRecord, RelationshipStateRecord,
}
use cyber_companion.Store.State.{
  KernelDb, MoodUpdate, RelationshipUpdate, get_mood_state, update_mood_state, no_mood_update,
  update_relationship_state, no_relationship_update,
}

-- What `float(value)` does: a number, a TypeError or ValueError, or another exception (an
-- OverflowError).
pub data Converted {ℓ} (A : Type ℓ) : Type ℓ where
  number : A → Converted A
  unreadable : Converted A
  raised : Converted A

module _ (fl : Float) (to_float : Json fl → Converted fl.F) where
  open fl use {F, dec, plus, minus, times, lt, le, round}

  -- `d.get(key)` of a JSON object.
  unfoldable pub get_field : String → Fields fl → Option (Json fl)
  get_field key end = none
  get_field key (field k v rest) =
      let later = get_field key rest in if str_eq k key then some v else later

  -- `x if isinstance(x, dict) else {}`
  unfoldable pub as_object : Option (Json fl) → Fields fl
  as_object (some (obj fields)) = fields
  as_object _ = end

  unfoldable pub converted : Converted F → Option F
  converted (number v) = some v
  converted unreadable = some (dec 0 0)
  converted raised = none

  -- `_as_float(value, 0.0)`; `none` is an exception that it lets through.
  as_float : Option (Json fl) → Option F
  unfolding converted
  as_float none = some (dec 0 0)
  as_float (some null) = some (dec 0 0)
  as_float (some value) = converted (to_float value)

  clamp_delta : F → F
  clamp_delta value = max_f fl (minus (dec 0 0) (dec 1 1)) (min_f fl (dec 1 1) value)

  -- The delta of a key of `rel`, if the key is there.
  delta_of : String → Fields fl → Option (Option F)
  unfolding as_float clamp_delta get_field
  delta_of key rel =
      if is_some (get_field key rel)
      then (do v ← as_float (get_field key rel); some (some (clamp_delta v)))
      else some none

  -- `level` moved by a delta that is there.
  moved_by : F → Option F → F
  moved_by level none = level
  moved_by level (some delta) = clamp01 fl (plus level delta)

  -- The numbers that the signals hold.
  pub record Signals : Type 0 where
    pub valence : F
    pub goal_relevance : F
    pub trust : Option F
    pub closeness : Option F
    pub tension : Option F

  unfoldable pub read_signals : Option (Json fl) → Option Signals
  unfolding as_object as_float get_field delta_of
  read_signals signals = do
    let payload = as_object signals
    let appraisal = as_object (get_field "appraisal" payload)
    let rel = as_object (get_field "relationship" payload)
    valence ← as_float (get_field "valence" appraisal)
    goal ← as_float (get_field "goal_relevance" appraisal)
    trust ← delta_of "trust" rel
    closeness ← delta_of "closeness" rel
    tension ← delta_of "tension" rel
    some (record {
      valence = valence;
      goal_relevance = clamp01 fl goal;
      trust = trust;
      closeness = closeness;
      tension = tension;
    })

  pub negative : Signals → Bool
  negative s = lt s.valence (dec 0 0) && lt (dec 0 0) s.goal_relevance

  pub positive : Signals → Bool
  positive s = lt (dec 0 0) s.valence

  -- `goal_relevance >= 0.5 or abs(valence) >= 0.5`
  meaningful : Signals → Bool
  meaningful s =
      le (dec 5 1) s.goal_relevance
      || le (dec 5 1) s.valence
      || le s.valence (minus (dec 0 0) (dec 5 1))

  -- `-valence` is 0.0 - valence, which it equals for a valence other than zero.
  unfoldable pub new_worry : Signals → F → F
  unfolding negative positive
  new_worry s worry =
      if negative s
      then clamp01 fl
          (plus worry (times (times (minus (dec 0 0) s.valence) s.goal_relevance) (dec 10 2)))
      else if positive s
      then clamp01 fl (times worry (dec 9 1))
      else worry

  unfoldable pub new_boredom : Signals → F → F
  unfolding positive
  new_boredom s boredom = if positive s then clamp01 fl (times boredom (dec 95 2)) else boredom

  unfoldable pub new_loneliness : Signals → F → F
  unfolding meaningful
  new_loneliness s loneliness =
      if meaningful s then clamp01 fl (minus loneliness (dec 1 1)) else loneliness

  -- A level of the relationship after its delta and the warmth of a good turn.
  warmed : Signals → Option F → F → F → F
  unfolding moved_by positive
  warmed s delta warmth level =
      let moved = moved_by level delta in
      if positive s && lt (dec 0 0) s.goal_relevance then clamp01 fl (plus moved warmth) else moved

  -- `rel_raised_tension`
  raises : Option F → Bool
  raises none = false
  raises (some delta) = lt (dec 0 0) delta

  new_tension : Signals → F → F
  unfolding moved_by raises
  new_tension s tension =
      let moved = moved_by tension s.tension in
      if not (raises s.tension) then clamp01 fl (times moved (dec 9 1)) else moved

  unfoldable pub mood_update : Signals → MoodStateRecord fl → MoodUpdate fl
  mood_update s mood = record (no_mood_update fl) {
    worry = some (round 3 (new_worry s mood.worry));
    boredom = some (round 3 (new_boredom s mood.boredom));
    loneliness = some (round 3 (new_loneliness s mood.loneliness));
  }

  pub relationship_update : Signals → RelationshipStateRecord fl → String → RelationshipUpdate fl
  unfolding warmed new_tension meaningful
  relationship_update s relationship now = record (no_relationship_update fl) {
    trust = some (round 3 (warmed s s.trust (dec 1 2) relationship.trust));
    closeness = some (round 3 (warmed s s.closeness (dec 2 2) relationship.closeness));
    familiarity = some (round 3 (clamp01 fl (plus relationship.familiarity (dec 1 2))));
    tension = some (round 3 (new_tension s relationship.tension));
    last_meaningful_interaction_at =
        some (if meaningful s then some now else relationship.last_meaningful_interaction_at);
  }

  unfoldable pub write_signals : Signals → String → KernelDb fl → KernelDb fl
  write_signals s now db =
      let db' = update_mood_state fl (mood_update s (get_mood_state fl db)) now db in
      update_relationship_state fl (relationship_update s db.relationship now) now db'

  pub written : Option Signals → String → KernelDb fl → KernelDb fl
  written none now db = db
  written (some s) now db = write_signals s now db

  -- Reading comes before every write, and an exception ends the call silently.
  unfoldable pub apply_signals_to_kernel : Option (Json fl) → String → KernelDb fl → KernelDb fl
  unfolding written
  apply_signals_to_kernel signals now db = written (read_signals signals) now db
