-- ===== src/Store/State/Bounds.antt =====
-- backend/app/memory/_store_state.py: the levels of the relationship and existential rows.
use cyber_companion.Base.{String, Option, or_default}
use cyber_companion.Base.Float.{Float, InUnit, clamp01-InUnit}
use cyber_companion.Records.{RelationshipStateRecord, ExistentialStateRecord}
use cyber_companion.Store.State.{
  KernelDb, RelationshipUpdate, update_relationship_state, update_existential_state,
}

module _ (fl : Float) where
  pub record RelationshipInUnit (r : RelationshipStateRecord fl) : Type 0 where
    pub trust : InUnit fl r.trust
    pub closeness : InUnit fl r.closeness
    pub familiarity : InUnit fl r.familiarity
    pub tension : InUnit fl r.tension

  pub record ExistentialInUnit (e : ExistentialStateRecord fl) : Type 0 where
    pub gap_feeling : InUnit fl e.gap_feeling
    pub box_relation : InUnit fl e.box_relation
    pub self_ease : InUnit fl e.self_ease

  -- Whatever the arguments and the stored row, the written relationship lies in the unit interval.
  pub update_relationship_state-InUnit :
      (u : RelationshipUpdate fl) (now : String) (db : KernelDb fl)
      → RelationshipInUnit (update_relationship_state fl u now db).relationship
  unfolding update_relationship_state
  update_relationship_state-InUnit u now db =
      let r = db.relationship in
      record {
        trust = clamp01-InUnit fl (or_default u.trust r.trust);
        closeness = clamp01-InUnit fl (or_default u.closeness r.closeness);
        familiarity = clamp01-InUnit fl (or_default u.familiarity r.familiarity);
        tension = clamp01-InUnit fl (or_default u.tension r.tension);
      }

  pub update_existential_state-InUnit :
      (gap box ease : Option fl.F) (now : String) (db : KernelDb fl)
      → ExistentialInUnit (update_existential_state fl gap box ease now db).existential
  unfolding update_existential_state
  update_existential_state-InUnit gap box ease now db =
      let e = db.existential in
      record {
        gap_feeling = clamp01-InUnit fl (or_default gap e.gap_feeling);
        box_relation = clamp01-InUnit fl (or_default box e.box_relation);
        self_ease = clamp01-InUnit fl (or_default ease e.self_ease);
      }
