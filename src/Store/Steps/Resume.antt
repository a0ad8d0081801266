-- ===== src/Store/Steps/Resume.antt =====
-- What the store answers about the progress of an issue.
use one_dev_army.Common.{
  ℕ, ◌<◌, ◌≡◌, ◌≢◌, refl, ◌==◌, Bool, true, false, ◌||◌, Option, none, some, List, [], ◌∷◌, ◌++◌,
  String, str_eq, if◌then◌else◌, arith, any, All, eq_refl, if-intro,
}
use one_dev_army.Store.Steps.{
  TaskStep, Steps, new_row, finish_row, fail_row, insert_step, update_where, finish_step, fail_step,
  last_where, completed, migrate_name, name_or_empty, get_last_completed_step, completed_as,
  get_step_response, delete_where, deleted_names, delete_steps_from,
}
use one_dev_army.Store.Steps.Rows.{IsTable}

last_where-append :
    (p : TaskStep → Bool) (rs : List TaskStep) (r : TaskStep)
    → last_where p (rs ++ r ∷ []) ≡ (if p r then some r else last_where p rs)
last_where-append p [] r = ground arith
last_where-append p (s ∷ rs) r = ground (arith, last_where-append p rs r)

-- An update by an id that the rows do not have touches only the row behind them.
update_where-fresh :
    (id : ℕ) (f : TaskStep → TaskStep) (rs : List TaskStep) (r : TaskStep)
    → All (λ s. s.id < id) rs
    → r.id ≡ id
    → update_where (λ s. s.id == id) f (rs ++ r ∷ []) ≡ rs ++ f r ∷ []
update_where-fresh id f [] r h e = ground arith
update_where-fresh id f (s ∷ rs) r (h, hs) e = ground (arith, update_where-fresh id f rs r hs e)

last_where-fresh :
    (p : TaskStep → Bool) (id : ℕ) (f : TaskStep → TaskStep) (rs : List TaskStep) (r : TaskStep)
    → All (λ s. s.id < id) rs
    → r.id ≡ id
    → last_where p (update_where (λ s. s.id == id) f (rs ++ r ∷ []))
      ≡ (if p (f r) then some (f r) else last_where p rs)
last_where-fresh p id f rs r h e =
    rw (update_where-fresh id f rs r h e) (last_where-append p rs (f r))

module _ (issue : ℕ) (name prompt session llm text : String) (t : Steps) (h : IsTable t) where
  abbrev added : ℕ × Steps
  added = insert_step issue name prompt session llm t

  -- In a table whose ids were all handed out: a step that was inserted and then finished is the
  -- last completed one of its issue, under its migrated name, and its response is read back.
  pub get_last_completed_step-finish :
      let t' = finish_step added.0 text added.1 in
      (get_last_completed_step issue t' ≡ migrate_name name)
      × (get_step_response issue name t' ≡ text)
  unfolding insert_step finish_step get_last_completed_step get_step_response
  get_last_completed_step-finish =
      let row = new_row t.next_id issue name prompt session llm in
      (
        rw (last_where-fresh (completed issue) t.next_id (finish_row text) t.rows row h refl)
            (ground arith),
        rw
            (last_where-fresh (completed_as issue name) t.next_id (finish_row text) t.rows row h
              refl)
            (ground (arith, eq_refl name)),
      )

  -- Of another issue nothing changes.
  pub get_last_completed_step-finish_other :
      (j : ℕ)
      → issue ≢ j
      → get_last_completed_step j (finish_step added.0 text added.1) ≡ get_last_completed_step j t
  unfolding insert_step finish_step get_last_completed_step
  get_last_completed_step-finish_other j ne =
      let row = new_row t.next_id issue name prompt session llm in
      rw (last_where-fresh (completed j) t.next_id (finish_row text) t.rows row h refl)
        (ground arith)

  -- In a table whose ids were all handed out: a step that was inserted and then failed changes
  -- nothing of what counts as completed.
  pub get_last_completed_step-fail :
      (j : ℕ)
      → get_last_completed_step j (fail_step added.0 text added.1) ≡ get_last_completed_step j t
  unfolding insert_step fail_step get_last_completed_step
  get_last_completed_step-fail j =
      let row = new_row t.next_id issue name prompt session llm in
      rw (last_where-fresh (completed j) t.next_id (fail_row text) t.rows row h refl) (ground arith)

last_where-delete :
    (p q : TaskStep → Bool) (rs : List TaskStep) {r : TaskStep}
    → last_where p (delete_where q rs) ≡ some r
    → (p r ≡ true) × (q r ≡ false)
last_where-delete p q [] e = cc
last_where-delete p q (s ∷ rs) {r} e = ground (arith, last_where-delete p q rs {r = r})

abbrev NotDeleted : String → Type 0
NotDeleted s = any (str_eq s) deleted_names ≡ false

migrate_name-NotDeleted : (s : String) → NotDeleted s → NotDeleted (migrate_name s)
migrate_name-NotDeleted s h = if-intro NotDeleted (str_eq s "analyze" || str_eq s "plan") refl h

module _ (issue : ℕ) (from : String) (t : Steps) where
  last_completed_name-NotDeleted :
      (o : Option TaskStep)
      → last_where (completed issue) (delete_steps_from issue from t).rows ≡ o
      → NotDeleted (name_or_empty o)
  unfolding delete_steps_from
  last_completed_name-NotDeleted none e = refl
  last_completed_name-NotDeleted (some r) e =
      let kept = last_where-delete (completed issue) _ t.rows e in
      migrate_name-NotDeleted r.step_name (ground (arith, kept))

  -- After `DeleteStepsFrom` the last completed step of the issue is none of the steps from
  -- `implement` on, whatever step was named in the call.
  pub get_last_completed_step-delete_from :
      any (str_eq (get_last_completed_step issue (delete_steps_from issue from t))) deleted_names
      ≡ false
  unfolding get_last_completed_step
  get_last_completed_step-delete_from =
      last_completed_name-NotDeleted
        (last_where (completed issue) (delete_steps_from issue from t).rows) refl
