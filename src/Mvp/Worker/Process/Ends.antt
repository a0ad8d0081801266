-- ===== src/Mvp/Worker/Process/Ends.antt =====
-- How `Process` ends.
use one_dev_army.Common.{ℕ, zero, suc, ◌≡◌, refl, some, String, str_eq, arith, inl}
use one_dev_army.GitHub.Issue.{Issue}
use one_dev_army.Mvp.Orchestrator.{Action, approve, decline}
use one_dev_army.Mvp.Worker.{
  done, merged, Outcome, value, fault, waiting, Job, Tools, Run, call_logged,
}
use one_dev_army.Mvp.Worker.Texts.{branch_name}
use one_dev_army.Mvp.Worker.Steps.{finally}
use one_dev_army.Mvp.Worker.Process.{
  Config, merge_phase, act, decline_comment, refix, review_again, decline_phase, decide,
  approval_loop, phases, clean_up, resume, set_branch, process,
}
use one_dev_army.Mvp.Worker.Process.Frames.{
  Any, Fails, Holds, attempt-Fails, chain, decision-Fails, handle-Holds, if-Holds, logged-Fails,
  stored-Fails,
}
use one_dev_army.Mvp.Worker.Process.Phases.{
  branch-Fails, code_phase-Fails, pipeline_phase-Fails, plan_phase-Fails, pr_phase-Fails,
  push-Fails, review_phase-Fails, say-Fails, status-Fails,
}

module _ {W : Type 0} (tools : Tools W) (cfg : Config) (i : Issue) where
  -- The task is done and merged.
  abbrev pub IsMerged : Unit {0} → Job W → Type 0
  IsMerged _ j = (j.status ≡ done) × (url : String) × (j.result ≡ some (merged url i.title))

  merge_phase-IsMerged :
      (url : String) (j : Job W) → Holds IsMerged Fails (merge_phase tools cfg i url j)
  unfolding merge_phase
  merge_phase-IsMerged url j = chain IsMerged _ _ j (status-Fails tools cfg i _ j) λ _ j1.
      chain IsMerged _ _ j1 (say-Fails tools cfg i _ _ _ j1) λ _ j2.
        chain IsMerged _ _ j2 (branch-Fails tools cfg i j2) λ b j3.
          handle-Holds IsMerged _ _ _ j3
            (λ _ j4.
              chain IsMerged _ _ j4 (say-Fails tools cfg i _ _ _ j4)
                λ _ j5. chain IsMerged _ _ j5 (logged-Fails _ j5) λ _ j6. (refl, url, refl))
            λ e j4.
              chain IsMerged _ _ j4 (logged-Fails _ j4)
                λ _ j5. chain IsMerged _ _ j5 (logged-Fails _ j5) λ _ j6. inl refl

  act-Holds :
      (R : Unit {0} → Job W → Type 0) (a : Action) (m n : Run W Unit) (j : Job W)
      → Holds R Fails (m j)
      → Holds R Fails (n j)
      → Holds R Fails (act tools cfg i a m n j)
  act-Holds R approve m n j h k = h
  act-Holds R decline m n j h k = k

  comment-Fails :
      (reason : String) (j : Job W) → Holds Any Fails (decline_comment tools cfg i reason j)
  unfolding decline_comment call_logged
  comment-Fails reason j = if-Holds Any (str_eq reason "") _ _ j tt tt

  refix-Fails : (review : String) (j : Job W) → Holds Any Fails (refix tools cfg i review j)
  unfolding refix
  refix-Fails review j = chain Any _ _ j (status-Fails tools cfg i _ j) λ _ j1.
      chain Any _ _ j1 (say-Fails tools cfg i _ _ _ j1)
        λ _ j2. chain Any _ _ j2 (attempt-Fails _ _ j2) λ _ j3. push-Fails tools cfg i _ j3

  reviewed-Fails : (url : String) (j : Job W) → Holds Any Fails (review_again tools cfg i url j)
  unfolding review_again
  reviewed-Fails url j = chain Any _ _ j (say-Fails tools cfg i _ _ _ j) λ _ j1.
      chain Any _ _ j1 (attempt-Fails _ _ j1) λ a j2.
        chain Any _ _ j2 (if-Holds Any a.approved _ _ j2 tt (refix-Fails a.json j2))
          λ _ j3. say-Fails tools cfg i _ _ _ j3

  decline_phase-Fails :
      (url reason : String) (j : Job W) → Holds Any Fails (decline_phase tools cfg i url reason j)
  unfolding decline_phase
  decline_phase-Fails url reason j = chain Any _ _ j (status-Fails tools cfg i _ j) λ _ j1.
      chain Any _ _ j1 (say-Fails tools cfg i _ _ _ j1) λ _ j2.
        chain Any _ _ j2 (comment-Fails reason j2) λ _ j3.
          chain Any _ _ j3 (say-Fails tools cfg i _ _ _ j3) λ _ j4.
            chain Any _ _ j4 (attempt-Fails _ _ j4) λ _ j5.
              chain Any _ _ j5 (push-Fails tools cfg i _ j5) λ _ j6.
                chain Any _ _ j6 (status-Fails tools cfg i _ j6) λ _ j7. reviewed-Fails url j7

  decide-Fails : (j : Job W) → Holds Any Fails (decide tools cfg i j)
  unfolding decide
  decide-Fails j = if-Holds Any cfg.yolo_mode _ _ j tt (decision-Fails _ j)

  approval_loop-IsMerged :
      (rounds : ℕ) (url : String) (j : Job W)
      → Holds IsMerged Fails (approval_loop tools cfg i rounds url j)
  unfolding approval_loop
  approval_loop-IsMerged zero url j = tt
  approval_loop-IsMerged (suc rounds) url j =
      let later = approval_loop-IsMerged rounds url in
      chain IsMerged _ _ j (status-Fails tools cfg i _ j) λ _ j1.
        chain IsMerged _ _ j1 (say-Fails tools cfg i _ _ _ j1) λ _ j2.
          chain IsMerged _ _ j2 (decide-Fails j2) λ d j3.
            act-Holds IsMerged d.action _ _ j3 (merge_phase-IsMerged url j3)
              (chain IsMerged _ _ j3 (decline_phase-Fails url d.reason j3) λ _ j4. later j4)

  phases-IsMerged :
      (polls rounds from : ℕ) (j : Job W)
      → Holds IsMerged Fails (phases tools cfg i polls rounds from j)
  unfolding phases
  phases-IsMerged polls rounds from j =
      chain IsMerged _ _ j (plan_phase-Fails tools cfg i from j) λ plan j1.
        chain IsMerged _ _ j1 (code_phase-Fails tools cfg i from plan j1) λ _ j2.
          chain IsMerged _ _ j2 (review_phase-Fails tools cfg i from j2) λ _ j3.
            chain IsMerged _ _ j3 (pr_phase-Fails tools cfg i from j3) λ url j4.
              chain IsMerged _ _ j4 (pipeline_phase-Fails tools cfg i polls from plan j4) λ _ j5.
                chain IsMerged _ _ j5 (stored-Fails _ _ j5)
                  λ stored j6. approval_loop-IsMerged rounds _ j6

  resume-Fails : (j : Job W) → Holds Any Fails (resume tools cfg i j)
  resume-Fails j = tt

  set_branch-Fails : (b : String) (j : Job W) → Holds Any Fails (set_branch tools cfg i b j)
  set_branch-Fails b j = tt

  clean_up-kept :
      (j : Job W)
      → ((clean_up tools cfg i j).1.status ≡ j.status)
        × ((clean_up tools cfg i j).1.result ≡ j.result)
  unfolding clean_up call_logged
  clean_up-kept j = ground arith

  finally-IsMerged :
      (m : Run W Unit) (j : Job W)
      → Holds IsMerged Fails (m j)
      → Holds IsMerged Fails (finally m (clean_up tools cfg i) j)
  unfolding finally
  finally-IsMerged m j = go (m j)
    where
      go :
          (r : Outcome Unit × Job W)
          → Holds IsMerged Fails r
          → Holds IsMerged Fails (finally (λ _. r) (clean_up tools cfg i) j)
      go (value a, j') h = ground (arith, h, clean_up-kept j')
      go (fault e, j') h = ground (arith, h, clean_up-kept j')
      go (waiting, j') h = tt

  -- `Process` returns nil only for a task that is done, with the merge for its result; and when it
  -- returns an error, the task has failed, unless the context was cancelled.
  pub process-IsMerged :
      (polls rounds : ℕ) (j : Job W) → Holds IsMerged Fails (process tools cfg i polls rounds j)
  unfolding process
  process-IsMerged polls rounds j = chain IsMerged _ _ j (resume-Fails j) λ from j1.
      chain IsMerged _ _ j1 (status-Fails tools cfg i _ j1) λ _ j2.
        chain IsMerged _ _ j2 (attempt-Fails _ _ j2) λ _ j3.
          chain IsMerged _ _ j3 (set_branch-Fails (branch_name i.number i.title) j3) λ _ j4.
            chain IsMerged _ _ j4 (attempt-Fails _ _ j4) λ _ j5.
              finally-IsMerged (phases tools cfg i polls rounds from) j5
                (phases-IsMerged polls rounds from j5)
