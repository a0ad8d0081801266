-- ===== src/Mvp/Worker/Process/Resume.antt =====
-- Where a worker takes up a task again.
use one_dev_army.Common.{ℕ, ◌+◌, ◌≡◌, refl, ap, sym, none, some, String, str_eq, eq_iff, if-split}
use one_dev_army.Store.Steps.{
  Steps, insert_step, finish_step, fail_step, get_last_completed_step, migrate_name,
}
use one_dev_army.Store.Steps.Rows.{IsTable}
use one_dev_army.Store.Steps.Resume.{get_last_completed_step-finish, get_last_completed_step-fail}
use one_dev_army.Mvp.Worker.Steps.{index_from, step_index, resume_from}

-- The step behind the one with that name; a name that is no step of the order leads back to 0.
abbrev pub behind : String → ℕ
behind name = elim (step_index name) [ none ↦ 0 | some k ↦ k + 1 ]

module _ (issue : ℕ) (name prompt session llm text : String) (t : Steps) (h : IsTable t) where
  abbrev added : ℕ × Steps
  added = insert_step issue name prompt session llm t

  resume_from-last :
      (u : Steps) (last : String)
      → get_last_completed_step issue u ≡ last
      → resume_from issue u ≡ behind last
  unfolding resume_from step_index index_from
  resume_from-last u last e = rw e (
      if-split (λ n. n ≡ behind last) (str_eq last "") (λ x. sym (ap behind ((eq_iff last "").0 x)))
        (λ _. refl))

  -- In a table whose ids were all handed out: a worker resumes behind the step that was finished
  -- last, under its name of today, whatever the answer of the step was: a review that did not
  -- approve counts like one that did. A step that is in no order, such as the fixes of a review,
  -- starts the task over.
  pub resume_from-finish :
      resume_from issue (finish_step added.0 text added.1) ≡ behind (migrate_name name)
  resume_from-finish =
      resume_from-last _ _ (get_last_completed_step-finish issue name prompt session llm text t h).0

  -- In a table whose ids were all handed out: a step that failed is done again: it moves the
  -- resumption of no task.
  pub resume_from-fail : (j : ℕ) → resume_from j (fail_step added.0 text added.1) ≡ resume_from j t
  unfolding resume_from
  resume_from-fail j = rw (get_last_completed_step-fail issue name prompt session llm text t h j)
