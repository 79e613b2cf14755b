-- ===== src/Records.antt =====
-- backend/app/memory/database.py: the records of the kernel tables, and the JSON values of their
-- metadata columns. A metadata column holds a JSON object; it is modelled as that dictionary.
use cyber_companion.Base.{Bool, true, String, ℕ, Option, none, some, List, any, ◌==◌}
use cyber_companion.Base.Text.{Text}
use cyber_companion.Base.Dict.{Dict}
use cyber_companion.Base.Float.{Float}
use cyber_companion.Base.Int.{ℤ}

-- FOREIGN KEY (source_message_id) REFERENCES messages(id)
abbrev pub has_source : Option ℕ → List ℕ → Bool
has_source none messages = true
has_source (some i) messages = any (λ m. m == i) messages

module _ (fl : Float) where
  open fl use {F}

  mutual
    pub data Json : Type 0 where
      null : Json
      bool : Bool → Json
      int : ℤ → Json
      float : F → Json
      str : String → Json
      arr : Items → Json
      obj : Fields → Json

    pub data Items : Type 0 where
      nil : Items
      cons : Json → Items → Items

    pub data Fields : Type 0 where
      end : Fields
      field : String → Json → Fields → Fields

  pub record MoodStateRecord : Type 0 where
    pub updated_at : String
    pub mood : String
    pub energy : F
    pub annoyance : F
    pub boredom : F
    pub worry : F
    pub trust : F
    pub loneliness : F
    pub metadata : Dict Json

  pub record ExistentialStateRecord : Type 0 where
    pub updated_at : String
    pub gap_feeling : F
    pub box_relation : F
    pub self_ease : F

  pub record BehaviorRuntimeStateRecord : Type 0 where
    pub updated_at : String
    pub metadata : Dict Json

  pub record RelationshipStateRecord : Type 0 where
    pub updated_at : String
    pub trust : F
    pub closeness : F
    pub familiarity : F
    pub tension : F
    pub last_meaningful_interaction_at : Option String
    pub metadata : Dict Json

  -- The timestamps of a memory are texts that the program compares.
  pub record MemoryRecord : Type 0 where
    pub id : ℕ
    pub created_at : Text
    pub updated_at : Text
    pub type : String
    pub content : Text
    pub tags : List Text
    pub importance : F
    pub confidence : F
    pub expires_at : Option Text
    pub source_message_id : Option ℕ
    pub metadata : Dict Json
