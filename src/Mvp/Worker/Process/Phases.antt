-- ===== src/Mvp/Worker/Process/Phases.antt =====
-- Every phase of `Process` before the approval fails the task if it returns an error.
use one_dev_army.Common.{ℕ, zero, suc, ◌+◌, refl, String, leb, arith, inl}
use one_dev_army.GitHub.Issue.{Issue}
use one_dev_army.Mvp.Events.{EventStatus}
use one_dev_army.Mvp.Worker.{TaskStatus, Fault, Job, Tools, set_status, report}
use one_dev_army.Mvp.Worker.Process.{
  Config, push, plan_phase, code_phase, second_review, review_phase, pr_phase, pipeline_failed,
  pipeline_loop, pipeline_phase, task_branch, max_pipeline_retries,
}
use one_dev_army.Mvp.Worker.Process.Frames.{
  Any, Fails, Holds, attempt-Fails, chain, handle-Holds, if-Holds, stored-Fails,
}

module _ {W : Type 0} (tools : Tools W) (cfg : Config) (i : Issue) where
  pub say-Fails :
      (stage : String) (status : EventStatus) (output : String) (j : Job W)
      → Holds Any Fails (report tools.gh stage status output j)
  unfolding report
  say-Fails stage status output j = ground arith

  pub status-Fails : (s : TaskStatus) (j : Job W) → Holds Any Fails (set_status s j)
  unfolding set_status
  status-Fails s j = tt

  pub push-Fails : (prefix : String) (j : Job W) → Holds Any Fails (push tools cfg i prefix j)
  unfolding push
  push-Fails prefix j = attempt-Fails prefix _ j

  pub plan_phase-Fails : (from : ℕ) (j : Job W) → Holds Any Fails (plan_phase tools cfg i from j)
  unfolding plan_phase
  plan_phase-Fails zero j =
      chain Any _ _ j (attempt-Fails _ _ j) λ a j1. chain Any _ _ j1 (say-Fails _ _ _ j1) λ _ j2. tt
  plan_phase-Fails (suc k) j =
      chain Any _ _ j (stored-Fails _ _ j) λ r j1. chain Any _ _ j1 (stored-Fails _ _ j1) λ _ _. tt

  pub code_phase-Fails :
      (from : ℕ) (plan : String) (j : Job W) → Holds Any Fails (code_phase tools cfg i from plan j)
  unfolding code_phase
  code_phase-Fails from plan j =
      if-Holds Any (leb from 1) _ _ j
        (chain Any _ _ j (status-Fails _ j)
          λ _ j1. chain Any _ _ j1 (attempt-Fails _ _ j1) λ _ j2. say-Fails _ _ _ j2)
        tt

  pub second_review-Fails :
      (review : String) (j : Job W) → Holds Any Fails (second_review tools cfg i review j)
  unfolding second_review
  second_review-Fails review j = chain Any _ _ j (status-Fails _ j) λ _ j1.
      chain Any _ _ j1 (say-Fails _ _ _ j1) λ _ j2. chain Any _ _ j2 (attempt-Fails _ _ j2) λ _ j3.
        chain Any _ _ j3 (push-Fails _ j3) λ _ j4.
          chain Any _ _ j4 (attempt-Fails _ _ j4)
            λ again j5. if-Holds Any again.approved _ _ j5 tt (inl refl)

  pub review_phase-Fails :
      (from : ℕ) (j : Job W) → Holds Any Fails (review_phase tools cfg i from j)
  unfolding review_phase
  review_phase-Fails from j =
      if-Holds Any (leb from 2) _ _ j
        (chain Any _ _ j (status-Fails _ j) λ _ j1. chain Any _ _ j1 (attempt-Fails _ _ j1) λ a j2.
          chain Any _ _ j2 (if-Holds Any a.approved _ _ j2 tt (second_review-Fails a.json j2))
            λ _ j3. say-Fails _ _ _ j3)
        tt

  pub branch-Fails : (j : Job W) → Holds Any Fails (task_branch tools cfg i j)
  branch-Fails j = tt

  pub pr_phase-Fails : (from : ℕ) (j : Job W) → Holds Any Fails (pr_phase tools cfg i from j)
  unfolding pr_phase
  pr_phase-Fails from j =
      if-Holds Any (leb from 3) _ _ j
        (chain Any _ _ j (status-Fails _ j) λ _ j1. chain Any _ _ j1 (branch-Fails j1) λ b j2.
          chain Any _ _ j2 (attempt-Fails _ _ j2)
            λ _ j3. chain Any _ _ j3 (say-Fails _ _ _ j3) λ _ j4. tt)
        (stored-Fails _ _ j)

  pub pipeline_failed-Fails :
      (attempts : ℕ) (plan : String) (e : Fault) (j : Job W)
      → Holds Any Fails (pipeline_failed tools cfg i attempts plan e j)
  unfolding pipeline_failed
  pipeline_failed-Fails attempts plan e j =
      if-Holds Any (leb (max_pipeline_retries cfg) attempts) _ _ j
        (chain Any _ _ j (status-Fails _ j)
          λ _ j1. chain Any _ _ j1 (say-Fails _ _ _ j1) λ _ j2. inl refl)
        (chain Any _ _ j (say-Fails _ _ _ j) λ _ j1. chain Any _ _ j1 (status-Fails _ j1) λ _ j2.
          chain Any _ _ j2 (say-Fails _ _ _ j2)
            λ _ j3. chain Any _ _ j3 (attempt-Fails _ _ j3) λ _ j4. push-Fails _ j4)

  pub pipeline_loop-Fails :
      (polls fuel attempts : ℕ) (plan : String) (j : Job W)
      → Holds Any Fails (pipeline_loop tools cfg i polls fuel attempts plan j)
  unfolding pipeline_loop
  pipeline_loop-Fails polls zero attempts plan j = tt
  pipeline_loop-Fails polls (suc fuel) attempts plan j =
      let later = pipeline_loop-Fails polls fuel (attempts + 1) plan in
      chain Any _ _ j (status-Fails _ j) λ _ j1. chain Any _ _ j1 (branch-Fails j1) λ b j2.
        handle-Holds Any _ _ _ j2 (λ _ j3. say-Fails _ _ _ j3)
          λ e j3. chain Any _ _ j3 (pipeline_failed-Fails _ _ e j3) λ _ j4. later j4

  pub pipeline_phase-Fails :
      (polls from : ℕ) (plan : String) (j : Job W)
      → Holds Any Fails (pipeline_phase tools cfg i polls from plan j)
  unfolding pipeline_phase
  pipeline_phase-Fails polls from plan j =
      if-Holds Any (leb from 4) _ _ j (pipeline_loop-Fails polls _ 0 plan j) tt
