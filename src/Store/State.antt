-- ===== src/Store/State.antt =====
-- backend/app/memory/_store_state.py: the kernel tables and the methods that read and patch them.
-- Each table has the single row `id = 1`. The result of `utc_now_iso()` is the argument `now`.
pub mod Metadata
pub mod Bounds
use cyber_companion.Base.{
  ◌≡◌, String, Bool, true, false, not, ◌&&◌, ◌||◌, Option, none, some, List, [], ◌∷◌, ◌++◌, map,
  any, if◌then◌else◌, str_in, or_default,
}
use cyber_companion.Base.Dict.{Dict, get, update, restrict, remove_all}
use cyber_companion.Base.Float.{Float, clamp01}
use cyber_companion.Records.{
  Json, MoodStateRecord, ExistentialStateRecord, BehaviorRuntimeStateRecord,
  RelationshipStateRecord,
}

-- schema.py
abbrev pub retired_relationship_guard_metadata_keys : List String
retired_relationship_guard_metadata_keys =
    "last_proactive_fired_at" ∷ "proactive_pending_since" ∷ "proactive_daily_date"
    ∷ "proactive_daily_count" ∷ "last_local_line_at" ∷ "proactive_llm_daily_date"
    ∷ "proactive_llm_daily_count" ∷ []

abbrev pub operational_mood_metadata_keys : List String
operational_mood_metadata_keys =
    "last_proactive_check_at" ∷ "idle_experience_last_at" ∷ "idle_experience_daily_date"
    ∷ "idle_experience_daily_count" ∷ "proactive_recent_fingerprints" ∷ "share_recent_memory_ids"
    ∷ "idle_experience_recent_material_ids" ∷ []

unfoldable pub is_retired : String → Bool
is_retired k = str_in k retired_relationship_guard_metadata_keys

unfoldable pub is_operational : String → Bool
is_operational k = str_in k operational_mood_metadata_keys

-- The `ValueError`s of the two patch methods, and the `KeyError` of a missing key of a dictionary.
pub data StateError : Type 0 where
  non_operational_keys retired_keys operational_keys missing_key : StateError

pub data Result {ℓ} (A : Type ℓ) : Type ℓ where
  ok : A → Result A
  err : StateError → Result A

-- A call has one result.
pub ok_unique {ℓ κ} :
    {A : Type ℓ} {B : Type κ} (m : Result (A × B)) (x y : A × B) → m ≡ ok x → m ≡ ok y → x ≡ y
ok_unique m x y p q = cc

abbrev pub keys {ℓ} : {V : Type ℓ} → Dict V → List String
keys m = map (λ (k, v). k) m

-- The loop that pops every operational and retired key from the legacy column.
pub purge {ℓ} : {V : Type ℓ} → Dict V → Dict V
purge m = remove_all (operational_mood_metadata_keys ++ retired_relationship_guard_metadata_keys) m

module _ (fl : Float) where
  open fl use {F}

  -- The rows of mood_state, relationship_state, behavior_runtime_state and existential_state. The
  -- trust column of mood_state is read by nothing; `mood.trust` here is that column.
  pub record KernelDb : Type 0 where
    pub mood : MoodStateRecord fl
    pub relationship : RelationshipStateRecord fl
    pub runtime : BehaviorRuntimeStateRecord fl
    pub existential : ExistentialStateRecord fl

  unfoldable pub get_mood_state : KernelDb → MoodStateRecord fl
  get_mood_state db = record db.mood {
    trust = db.relationship.trust;
    metadata =
        update (restrict (λ k. not (is_operational k) && not (is_retired k)) db.mood.metadata)
          db.runtime.metadata;
  }

  unfoldable pub get_behavior_runtime_state : KernelDb → BehaviorRuntimeStateRecord fl
  get_behavior_runtime_state db = db.runtime

  unfoldable pub patch_behavior_runtime_metadata :
      Dict (Json fl)
      → List String
      → String
      → KernelDb
      → Result (BehaviorRuntimeStateRecord fl × KernelDb)
  patch_behavior_runtime_metadata patch removed now db =
      if any (λ k. not (is_operational k)) (keys patch ++ removed)
      then err non_operational_keys
      else let runtime_metadata = remove_all removed (update db.runtime.metadata patch) in
        let legacy_metadata = update (purge db.mood.metadata) runtime_metadata in
        let runtime : BehaviorRuntimeStateRecord fl = record {
          updated_at = now;
          metadata = runtime_metadata;
        } in
        ok (
          runtime,
          record db {
            runtime = runtime;
            mood = record db.mood { updated_at = now; metadata = legacy_metadata };
          },
        )

  unfoldable pub patch_mood_metadata :
      Dict (Json fl) → List String → String → KernelDb → Result (MoodStateRecord fl × KernelDb)
  unfolding get_mood_state
  patch_mood_metadata patch removed now db =
      if any is_retired (keys patch ++ removed)
      then err retired_keys
      else if any is_operational (keys patch ++ removed)
      then err operational_keys
      else let metadata = remove_all removed (update db.mood.metadata patch) in
        let db' : KernelDb = record db {
          mood = record db.mood { updated_at = now; metadata = metadata };
        } in
        ok (get_mood_state db', db')

  unfoldable pub replace_mood_metadata : Dict (Json fl) → String → KernelDb → KernelDb
  replace_mood_metadata metadata now db =
      let cleaned_metadata = restrict (λ k. not (is_retired k)) metadata in
      let runtime_metadata = restrict is_operational cleaned_metadata in
      record db {
        runtime = record { updated_at = now; metadata = runtime_metadata };
        mood = record db.mood { updated_at = now; metadata = cleaned_metadata };
      }

  -- The optional arguments of update_existential_state; `none` is an argument left out.
  unfoldable pub update_existential_state :
      Option F → Option F → Option F → String → KernelDb → KernelDb
  update_existential_state gap_feeling box_relation self_ease now db =
      let current = db.existential in
      record db {
        existential = record {
          updated_at = now;
          gap_feeling = clamp01 fl (or_default gap_feeling current.gap_feeling);
          box_relation = clamp01 fl (or_default box_relation current.box_relation);
          self_ease = clamp01 fl (or_default self_ease current.self_ease);
        };
      }

  -- The keyword arguments of update_relationship_state. The meaningful timestamp has a third state,
  -- `...`, that keeps the stored value, while `some none` clears it.
  pub record RelationshipUpdate : Type 0 where
    pub trust : Option F
    pub closeness : Option F
    pub familiarity : Option F
    pub tension : Option F
    pub last_meaningful_interaction_at : Option (Option String)
    pub metadata : Option (Dict (Json fl))

  abbrev pub no_relationship_update : RelationshipUpdate
  no_relationship_update = record {
    trust = none;
    closeness = none;
    familiarity = none;
    tension = none;
    last_meaningful_interaction_at = none;
    metadata = none;
  }

  unfoldable pub update_relationship_state : RelationshipUpdate → String → KernelDb → KernelDb
  update_relationship_state u now db =
      let current = db.relationship in
      record db {
        relationship = record {
          updated_at = now;
          trust = clamp01 fl (or_default u.trust current.trust);
          closeness = clamp01 fl (or_default u.closeness current.closeness);
          familiarity = clamp01 fl (or_default u.familiarity current.familiarity);
          tension = clamp01 fl (or_default u.tension current.tension);
          last_meaningful_interaction_at =
              or_default u.last_meaningful_interaction_at current.last_meaningful_interaction_at;
          metadata = or_default u.metadata current.metadata;
        };
      }

  -- The keyword arguments of update_mood_state.
  pub record MoodUpdate : Type 0 where
    pub mood : Option String
    pub energy : Option F
    pub annoyance : Option F
    pub boredom : Option F
    pub worry : Option F
    pub trust : Option F
    pub loneliness : Option F
    pub metadata : Option (Dict (Json fl))

  abbrev pub no_mood_update : MoodUpdate
  no_mood_update = record {
    mood = none;
    energy = none;
    annoyance = none;
    boredom = none;
    worry = none;
    trust = none;
    loneliness = none;
    metadata = none;
  }

  -- The two delegations at the head of update_mood_state.
  with_trust : Option F → String → KernelDb → KernelDb
  with_trust none now db = db
  with_trust (some t) now db =
      update_relationship_state (record no_relationship_update { trust = some t }) now db

  with_metadata : Option (Dict (Json fl)) → String → KernelDb → KernelDb
  with_metadata none now db = db
  with_metadata (some m) now db = replace_mood_metadata m now db

  -- The SQL statement writes neither the trust nor the metadata column.
  unfoldable pub update_mood_state : MoodUpdate → String → KernelDb → KernelDb
  unfolding with_trust with_metadata
  update_mood_state u now db =
      let db' = with_metadata u.metadata now (with_trust u.trust now db) in
      let current = get_mood_state db' in
      record db' {
        mood = record db'.mood {
          updated_at = now;
          mood = or_default u.mood current.mood;
          energy = or_default u.energy current.energy;
          annoyance = or_default u.annoyance current.annoyance;
          boredom = or_default u.boredom current.boredom;
          worry = or_default u.worry current.worry;
          loneliness = or_default u.loneliness current.loneliness;
        };
      }
