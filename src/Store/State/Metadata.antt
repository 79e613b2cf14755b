-- ===== src/Store/State/Metadata.antt =====
-- backend/app/memory/_store_state.py: the emotional and the operational metadata.
use cyber_companion.Base.{
  String, ◌≡◌, refl, ap, ◌∙◌, Bool, true, false, not, ◌&&◌, ◌||◌, none, List, [], ◌∷◌, ◌++◌, arith,
  any, str_in, if◌then◌else◌, eq_iff,
}
use cyber_companion.Base.Dict.{Dict, get, update, remove_all, or_else, get-remove_all, dict_laws}
use cyber_companion.Base.Float.{Float}
use cyber_companion.Records.{Json, MoodStateRecord, BehaviorRuntimeStateRecord}
use cyber_companion.Store.State.{
  is_retired, is_operational, purge, operational_mood_metadata_keys,
  retired_relationship_guard_metadata_keys, keys, ok, KernelDb, get_mood_state,
  patch_behavior_runtime_metadata, patch_mood_metadata, replace_mood_metadata,
}

-- A dictionary whose keys all fail a test has no value at a key that passes it.
get-excluded {ℓ} :
    {V : Type ℓ} (p : String → Bool) (k : String) (m : Dict V)
    → any p (keys m) ≡ false
    → p k ≡ true
    → get k m ≡ none
unfolding get
get-excluded p k [] h e = refl
get-excluded p k ((j, v) ∷ m) h e = ground (arith, eq_iff j k, same p j k, get-excluded p k m)
  where
    same : (q : String → Bool) (a b : String) → a ≡ b → q a ≡ q b
    same q a b e = cc

any-append_false {ℓ} :
    {A : Type ℓ} (p : A → Bool) (xs ys : List A)
    → any p (xs ++ ys) ≡ false
    → (any p xs ≡ false) × (any p ys ≡ false)
any-append_false p [] ys h = (refl, h)
any-append_false p (x ∷ xs) ys h = ground (arith, any-append_false p xs ys)

str_in-append :
    (k : String) (xs ys : List String) → str_in k (xs ++ ys) ≡ (str_in k xs || str_in k ys)
str_in-append k [] ys = refl
str_in-append k (x ∷ xs) ys = ground (arith, str_in-append k xs ys)

get-purge {ℓ} :
    {V : Type ℓ} (k : String) (m : Dict V)
    → get k (purge m) ≡ (if is_operational k || is_retired k then none else get k m)
unfolding purge is_operational is_retired
get-purge k m =
    get-remove_all (operational_mood_metadata_keys ++ retired_relationship_guard_metadata_keys) k m
    ∙ ap (λ b. if b then none else get k m)
        (str_in-append k operational_mood_metadata_keys retired_relationship_guard_metadata_keys)

module _ (fl : Float) where
  -- The canonical row holds operational keys only.
  abbrev pub RuntimeIsOperational : KernelDb fl → Type 0
  RuntimeIsOperational db =
      (k : String) → is_operational k ≡ false → get k db.runtime.metadata ≡ none

  patch_mood_metadata-ok :
      (patch : Dict (Json fl)) (removed : List String) (now : String) (db : KernelDb fl)
      {m : MoodStateRecord fl} {db' : KernelDb fl}
      → patch_mood_metadata fl patch removed now db ≡ ok (m, db')
      → (any is_operational (keys patch) ≡ false)
        × (m ≡ get_mood_state fl db')
        × (db'.runtime ≡ db.runtime)
        × (db'.mood.metadata ≡ remove_all removed (update db.mood.metadata patch))
  unfolding patch_mood_metadata
  patch_mood_metadata-ok patch removed now db h =
      ground (arith, any-append_false is_operational (keys patch) removed)

  -- What reading the state shows at a key, in terms of the two rows.
  view-get :
      (k : String) (db : KernelDb fl)
      → get k (get_mood_state fl db).metadata
        ≡ or_else
            (get k db.runtime.metadata)
            (if not (is_operational k) && not (is_retired k) then get k db.mood.metadata else none)
  unfolding get_mood_state
  view-get k db = simp dict_laws

  -- If the canonical row holds operational keys only, the mood that a successful patch of the mood's
  -- metadata returns shows, at any key: the old value for an operational or retired key, nothing for
  -- a removed key, the new value for a patched one, and the old value for any other.
  pub get-patch_mood_metadata :
      (patch : Dict (Json fl)) (removed : List String) (now : String) (db : KernelDb fl)
      {m : MoodStateRecord fl} {db' : KernelDb fl}
      → RuntimeIsOperational db
      → patch_mood_metadata fl patch removed now db ≡ ok (m, db')
      → (k : String)
      → get k m.metadata ≡ (
          if is_operational k || is_retired k
          then get k (get_mood_state fl db).metadata
          else if str_in k removed
          then none
          else or_else (get k patch) (get k (get_mood_state fl db).metadata))
  get-patch_mood_metadata patch removed now db {m} {db'} inv h k =
      let facts = patch_mood_metadata-ok patch removed now db h in
      rw (facts.1, view-get k db', view-get k db, facts.2, facts.3)
        (simp dict_laws (ground (arith, inv k, get-excluded is_operational k patch facts.0)))

  patch_behavior_runtime-ok :
      (patch : Dict (Json fl)) (removed : List String) (now : String) (db : KernelDb fl)
      {r : BehaviorRuntimeStateRecord fl} {db' : KernelDb fl}
      → patch_behavior_runtime_metadata fl patch removed now db ≡ ok (r, db')
      → (any (λ k. not (is_operational k)) (keys patch) ≡ false)
        × (db'.runtime.metadata ≡ remove_all removed (update db.runtime.metadata patch))
        × (db'.mood.metadata
            ≡ update
                (purge db.mood.metadata)
                (remove_all removed (update db.runtime.metadata patch)))
  unfolding patch_behavior_runtime_metadata
  patch_behavior_runtime-ok patch removed now db h =
      ground (arith, any-append_false (λ (k : String). not (is_operational k)) (keys patch) removed)

  -- If the canonical row holds operational keys only, a read of the mood after a successful patch of
  -- the runtime metadata shows nothing for a removed operational key, the new value for a patched
  -- one, and the old value for every other key, emotional ones included.
  pub get-patch_behavior_runtime :
      (patch : Dict (Json fl)) (removed : List String) (now : String) (db : KernelDb fl)
      {r : BehaviorRuntimeStateRecord fl} {db' : KernelDb fl}
      → RuntimeIsOperational db
      → patch_behavior_runtime_metadata fl patch removed now db ≡ ok (r, db')
      → (k : String)
      → get k (get_mood_state fl db').metadata ≡ (
          if is_operational k
          then (if str_in k removed
              then none
              else or_else (get k patch) (get k (get_mood_state fl db).metadata))
          else get k (get_mood_state fl db).metadata)
  get-patch_behavior_runtime patch removed now db {r} {db'} inv h k =
      let facts = patch_behavior_runtime-ok patch removed now db h in
      rw (view-get k db', view-get k db, facts.1, facts.2)
        (simp (get-purge, dict_laws)
          (ground
            (arith, inv k, get-excluded (λ (j : String). not (is_operational j)) k patch facts.0)))

  -- If the canonical row holds operational keys only, then so it does after a successful patch of
  -- the runtime metadata.
  pub patch_behavior_runtime-RuntimeIsOperational :
      (patch : Dict (Json fl)) (removed : List String) (now : String) (db : KernelDb fl)
      {r : BehaviorRuntimeStateRecord fl} {db' : KernelDb fl}
      → RuntimeIsOperational db
      → patch_behavior_runtime_metadata fl patch removed now db ≡ ok (r, db')
      → RuntimeIsOperational db'
  patch_behavior_runtime-RuntimeIsOperational patch removed now db {r} {db'} inv h k e =
      let facts = patch_behavior_runtime-ok patch removed now db h in
      rw facts.1 (
        simp dict_laws (
          ground
            (arith, inv k, get-excluded (λ (j : String). not (is_operational j)) k patch facts.0)))

  pub replace_mood_metadata-RuntimeIsOperational :
      (metadata : Dict (Json fl)) (now : String) (db : KernelDb fl)
      → RuntimeIsOperational (replace_mood_metadata fl metadata now db)
  unfolding replace_mood_metadata
  replace_mood_metadata-RuntimeIsOperational metadata now db k e = simp dict_laws (rw e)

  -- After a replacement a read shows the given metadata, less the retired keys.
  pub get-replace_mood_metadata :
      (metadata : Dict (Json fl)) (now : String) (db : KernelDb fl) (k : String)
      → get k (get_mood_state fl (replace_mood_metadata fl metadata now db)).metadata
        ≡ (if is_retired k then none else get k metadata)
  unfolding replace_mood_metadata
  get-replace_mood_metadata metadata now db k =
      rw (view-get k (replace_mood_metadata fl metadata now db)) (simp dict_laws (ground arith))
