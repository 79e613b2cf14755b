-- ===== src/Store/Loops/Upsert.antt =====
-- backend/app/memory/_store_loops.py: what the writers leave for the readers.
use cyber_companion.Base.{
  ℕ, ◌+◌, ◌≡◌, ◌≢◌, refl, ap, sym, subst, Bool, true, false, ◌⊎◌, inl, inr, is_some, if◌then◌else◌,
  Option, none, some, List, [], ◌∷◌, arith, str_in,
}
use cyber_companion.Base.Text.{Text}
use cyber_companion.Base.Float.{Float, InUnit, clamp01, clamp01-InUnit}
use cyber_companion.Records.{has_source}
use cyber_companion.Store.Loops.{
  open_loop_kinds, open_loop_statuses, Parsed, Outcome, done, refused, unknown_message,
  normalize_aware_timestamp, OpenLoopRecord, LoopTable, LoopArgs, row_of, checked, find_row,
  get_open_loop, change_row, created, create_open_loop, updated, upsert_found, named,
  upsert_open_loop, close_open_loop,
}

payload {ℓ} : {A : Type ℓ} → A → Outcome A → A
payload x (done y) = y
payload x (refused e) = x

pub done_unique {ℓ} : {A : Type ℓ} {x y : A} → done x ≡ done y → x ≡ y
unfolding payload
done_unique {x = x} h = ap (payload x) h

module _ (fl : Float) where
  find-id :
      (i : ℕ) (rs : List (OpenLoopRecord fl)) (r : OpenLoopRecord fl)
      → find_row fl i rs ≡ some r
      → r.id ≡ i
  unfolding find_row
  find-id i [] r h = ground arith
  find-id i (x ∷ rs) r h = ground (arith, find-id i rs r)

  find-change :
      (i : ℕ) (f : OpenLoopRecord fl → OpenLoopRecord fl) (rs : List (OpenLoopRecord fl))
      (r : OpenLoopRecord fl)
      → ((x : OpenLoopRecord fl) → (f x).id ≡ x.id)
      → find_row fl i rs ≡ some r
      → find_row fl i (change_row fl i f rs) ≡ some (f r)
  unfolding find_row change_row
  find-change i f [] r keeps h = ground arith
  find-change i f (x ∷ rs) r keeps h = ground (arith, keeps x, find-change i f rs r keeps)

  find-change_other :
      (i j : ℕ) (f : OpenLoopRecord fl → OpenLoopRecord fl) (rs : List (OpenLoopRecord fl))
      → ((x : OpenLoopRecord fl) → (f x).id ≡ x.id)
      → j ≢ i
      → find_row fl j (change_row fl i f rs) ≡ find_row fl j rs
  unfolding find_row change_row
  find-change_other i j f [] keeps ne = refl
  find-change_other i j f (x ∷ rs) keeps ne =
      ground (arith, keeps x, find-change_other i j f rs keeps ne)

  -- What the checks let through: known words, and the timestamps as they are normalized.
  checked-known :
      (parse : Text → Parsed) (a : LoopArgs fl) (d : Option Text × Option Text)
      → checked fl parse a ≡ done d
      → (str_in a.kind open_loop_kinds ≡ true)
        × (str_in a.status open_loop_statuses ≡ true)
        × (normalize_aware_timestamp parse a.due_at ≡ some d.0)
        × (normalize_aware_timestamp parse a.last_mentioned_at ≡ some d.1)
  unfolding checked
  checked-known parse a d h = (ground arith, ground arith, ground arith, ground arith)

  -- The row holds the arguments: known words, normalized timestamps, clamped levels.
  pub record Holds (parse : Text → Parsed) (a : LoopArgs fl) (saved : OpenLoopRecord fl)
      : Type 0 where
    pub kind : (saved.kind ≡ a.kind) × (str_in a.kind open_loop_kinds ≡ true)
    pub status : (saved.status ≡ a.status) × (str_in a.status open_loop_statuses ≡ true)
    pub title : saved.title ≡ a.title
    pub summary : saved.summary ≡ a.summary
    pub due_at : normalize_aware_timestamp parse a.due_at ≡ some saved.due_at
    pub last_mentioned_at :
        normalize_aware_timestamp parse a.last_mentioned_at ≡ some saved.last_mentioned_at
    pub source_message_id : saved.source_message_id ≡ a.source_message_id
    pub priority : (saved.priority ≡ clamp01 fl a.priority) × InUnit fl saved.priority
    pub confidence : (saved.confidence ≡ clamp01 fl a.confidence) × InUnit fl saved.confidence
    pub metadata : saved.metadata ≡ a.metadata

  -- A read of the saved id finds the saved row, and every other id reads as before.
  abbrev pub Reads : LoopTable fl → OpenLoopRecord fl → LoopTable fl → Type 0
  Reads t saved t' =
      (get_open_loop fl saved.id t' ≡ some saved)
      × ((j : ℕ) → j ≢ saved.id → get_open_loop fl j t' ≡ get_open_loop fl j t)

  -- The row that the id named, written over at the time `iso_now`.
  abbrev pub Updated : Option ℕ → Text → LoopTable fl → OpenLoopRecord fl → LoopTable fl → Type 0
  Updated loop_id iso_now t saved t' =
      (old : OpenLoopRecord fl) × (loop_id ≡ some saved.id)
      × (get_open_loop fl saved.id t ≡ some old)
      × (saved.created_at ≡ old.created_at)
      × (saved.updated_at ≡ iso_now)
      × (t'.last_id ≡ t.last_id)

  -- No id was given, or one that no row has.
  abbrev pub is_named : Option ℕ → LoopTable fl → Bool
  is_named none t = false
  is_named (some i) t = is_some (get_open_loop fl i t)

  -- A new row under the next id, made at the time `sql_now`.
  abbrev pub Created : Option ℕ → Text → LoopTable fl → OpenLoopRecord fl → LoopTable fl → Type 0
  Created loop_id sql_now t saved t' =
      (is_named loop_id t ≡ false)
      × (saved.id ≡ t.last_id + 1)
      × (saved.created_at ≡ sql_now)
      × (saved.updated_at ≡ sql_now)
      × (t'.last_id ≡ t.last_id + 1)

  row-Holds :
      (parse : Text → Parsed) (a : LoopArgs fl) (id : ℕ) (since now : Text)
      (d : Option Text × Option Text)
      → checked fl parse a ≡ done d
      → Holds parse a (row_of fl id since now a d.0 d.1)
  unfolding row_of
  row-Holds parse a id since now d c =
      let (kind, status, due, last) = checked-known parse a d c in
      record {
        kind = (refl, kind);
        status = (refl, status);
        title = refl;
        summary = refl;
        due_at = due;
        last_mentioned_at = last;
        source_message_id = refl;
        priority = (refl, clamp01-InUnit fl a.priority);
        confidence = (refl, clamp01-InUnit fl a.confidence);
        metadata = refl;
      }

  -- A writer that succeeds, in the property `P` of the row and the table that it leaves.
  if_done :
      (P : OpenLoopRecord fl × LoopTable fl → Type 0) (b : Bool)
      (x y : OpenLoopRecord fl × LoopTable fl)
      → P x
      → (if b then done x else refused unknown_message) ≡ done y
      → P y
  if_done P true x y p h = subst P (done_unique h) p
  if_done P false x y p h = ground arith

  created-Created :
      (parse : Text → Parsed) (a : LoopArgs fl) (loop_id : Option ℕ) (now : Text) (t : LoopTable fl)
      (o : Outcome (Option Text × Option Text)) (saved : OpenLoopRecord fl) (t' : LoopTable fl)
      → is_named loop_id t ≡ false
      → checked fl parse a ≡ o
      → created fl a now t o ≡ done (saved, t')
      → Holds parse a saved × Reads t saved t' × Created loop_id now t saved t'
  unfolding created
  created-Created parse a loop_id now t (refused e) saved t' new c h = ground arith
  created-Created parse a loop_id now t (done d) saved t' new c h =
      let s = row_of fl (t.last_id + 1) now now a d.0 d.1 in
      let u : LoopTable fl = record t { rows = s ∷ t.rows; last_id = t.last_id + 1 } in
      if_done (λ x. Holds parse a x.0 × Reads t x.0 x.1 × Created loop_id now t x.0 x.1)
        (has_source a.source_message_id t.messages) (s, u) (saved, t')
        (
          row-Holds parse a (t.last_id + 1) now now d c,
          (
            unfold get_open_loop find_row row_of in ground arith,
            λ j ne. unfold get_open_loop find_row row_of in ground arith,
          ),
          unfold row_of in (new, refl, refl, refl, refl),
        )
        h

  updated-Updated :
      (parse : Text → Parsed) (a : LoopArgs fl) (loop_id : Option ℕ) (now : Text) (t : LoopTable fl)
      (old : OpenLoopRecord fl) (o : Outcome (Option Text × Option Text))
      (saved : OpenLoopRecord fl) (t' : LoopTable fl)
      → loop_id ≡ some old.id
      → find_row fl old.id t.rows ≡ some old
      → checked fl parse a ≡ o
      → updated fl old a now t o ≡ done (saved, t')
      → Holds parse a saved × Reads t saved t' × Updated loop_id now t saved t'
  unfolding updated
  updated-Updated parse a loop_id now t old (refused e) saved t' same f c h = ground arith
  updated-Updated parse a loop_id now t old (done d) saved t' same f c h =
      let change = λ (r : OpenLoopRecord fl). row_of fl r.id r.created_at now a d.0 d.1 in
      let keeps : (x : OpenLoopRecord fl) → (change x).id ≡ x.id = λ x. unfold row_of in refl in
      let s = row_of fl old.id old.created_at now a d.0 d.1 in
      let u : LoopTable fl = record t { rows = change_row fl old.id change t.rows } in
      if_done (λ x. Holds parse a x.0 × Reads t x.0 x.1 × Updated loop_id now t x.0 x.1)
        (has_source a.source_message_id t.messages) (s, u) (saved, t')
        (
          row-Holds parse a old.id old.created_at now d c,
          unfold get_open_loop row_of in
              (
                find-change old.id change t.rows old keeps f,
                λ j ne. find-change_other old.id j change t.rows keeps ne,
              ),
          unfold get_open_loop row_of in (old, same, f, refl, refl, refl),
        )
        h

  unnamed : (i : Option ℕ) (t : LoopTable fl) → named fl i t ≡ none → is_named i t ≡ false
  unfolding named
  unnamed none t k = refl
  unnamed (some i) t k = rw k refl

  same_id :
      (i : Option ℕ) (t : LoopTable fl) (old : OpenLoopRecord fl)
      → named fl i t ≡ some old
      → (i ≡ some old.id) × (find_row fl old.id t.rows ≡ some old)
  unfolding named get_open_loop
  same_id none t old k = absurd (ground (arith, k))
  same_id (some i) t old k =
      let e = find-id i t.rows old k in
      (ap (λ n. some n) (sym e), subst (λ n. find_row fl n t.rows ≡ some old) (sym e) k)

  -- What an upsert leaves, for an id that finds this row.
  Upserted :
      (Text → Parsed)
      → Option ℕ
      → LoopArgs fl
      → Text
      → Text
      → LoopTable fl
      → OpenLoopRecord fl
      → LoopTable fl
      → Type 0
  Upserted parse loop_id a sql_now iso_now t saved t' =
      Holds parse a saved
      × Reads t saved t'
      × (Updated loop_id iso_now t saved t' ⊎ Created loop_id sql_now t saved t')

  found-Upserted :
      (parse : Text → Parsed) (loop_id : Option ℕ) (a : LoopArgs fl) (sql_now iso_now : Text)
      (t : LoopTable fl) (found : Option (OpenLoopRecord fl)) (saved : OpenLoopRecord fl)
      (t' : LoopTable fl)
      → named fl loop_id t ≡ found
      → upsert_found fl found parse a sql_now iso_now t ≡ done (saved, t')
      → Upserted parse loop_id a sql_now iso_now t saved t'
  unfolding upsert_found create_open_loop Upserted
  found-Upserted parse loop_id a sql_now iso_now t none saved t' known h =
      let (holds, reads, new) =
        created-Created parse a loop_id sql_now t (checked fl parse a) saved t'
          (unnamed loop_id t known) refl h in
      (holds, reads, inr new)
  found-Upserted parse loop_id a sql_now iso_now t (some old) saved t' known h =
      let (same, f) = same_id loop_id t old known in
      let (holds, reads, over) =
        updated-Updated parse a loop_id iso_now t old (checked fl parse a) saved t' same f refl h in
      (holds, reads, inl over)

  -- When an upsert succeeds: the returned row holds the arguments, with a known kind and status, the
  -- timestamps normalized and both levels clamped to the unit interval; a read of its id finds it, and
  -- every other id reads as before. Its id is the given one where a row has that, which keeps its time
  -- of creation and is stamped as updated; otherwise, and only then, the row is new under the next id.
  pub upsert_open_loop-Upserted :
      (parse : Text → Parsed) (loop_id : Option ℕ) (a : LoopArgs fl) (sql_now iso_now : Text)
      (t : LoopTable fl) {saved : OpenLoopRecord fl} {t' : LoopTable fl}
      → upsert_open_loop fl parse loop_id a sql_now iso_now t ≡ done (saved, t')
      → Holds parse a saved
        × Reads t saved t'
        × (Updated loop_id iso_now t saved t' ⊎ Created loop_id sql_now t saved t')
  unfolding upsert_open_loop Upserted
  upsert_open_loop-Upserted parse loop_id a sql_now iso_now t {saved = saved} {t' = t'} h =
      found-Upserted parse loop_id a sql_now iso_now t (named fl loop_id t) saved t' refl h

  -- Closing a loop that is there returns it closed and stamped, which a read of its id then finds,
  -- and every other loop reads as before.
  pub close_open_loop-closes :
      (i : ℕ) (now : Text) (t : LoopTable fl) (old : OpenLoopRecord fl)
      → get_open_loop fl i t ≡ some old
      → let r = close_open_loop fl i now t in
        (r.0 ≡ some (record old { status = "closed"; updated_at = now }))
        × (get_open_loop fl i r.1 ≡ r.0)
        × ((j : ℕ) → j ≢ i → get_open_loop fl j r.1 ≡ get_open_loop fl j t)
  unfolding close_open_loop
  close_open_loop-closes i now t old h =
      let close = λ (r : OpenLoopRecord fl). record r { status = "closed"; updated_at = now } in
      let keeps : (x : OpenLoopRecord fl) → (close x).id ≡ x.id = λ x. refl in
      rw (close_open_loop, h)
        (unfold get_open_loop in
          (
            find-change i close t.rows old keeps (unfold get_open_loop in h),
            refl,
            λ j ne. find-change_other i j close t.rows keeps ne,
          ))
