-- ===== src/Mvp/Worker/Process/Attempts.antt =====
-- The checks of the pipeline come to an end.
use one_dev_army.Common.{
  ℕ, zero, suc, ◌+◌, ◌≤◌, ◌<◌, ◌≡◌, refl, ap, true, false, List, String, leb, arith, Bool-cases,
  inl, inr,
}
use one_dev_army.Common.Effect.{Result, ok, err}
use one_dev_army.GitHub.Issue.{Issue}
use one_dev_army.GitHub.Checks.{PrCheck, Status, pass, fail, pending, get_pr_checks}
use one_dev_army.Mvp.Events.{EventStatus}
use one_dev_army.Mvp.Worker.{
  Fault, Job, Wake, context_done, tick, TaskStatus, Tools, Run, set_status, set_remote, report,
  give_up,
}
use one_dev_army.Mvp.Worker.Steps.{on_status, on_checks, on_wake, check_pipeline}
use one_dev_army.Mvp.Worker.Process.{
  Config, push, pipeline_failed, pipeline_loop, pipeline_phase, max_pipeline_retries,
}
use one_dev_army.Mvp.Worker.Process.Answers.{
  Answers, IsFault, IsFault-Answers, attempt-Answers, behind-IsFault, bind-Answers, bind-IsFault,
  call-Answers, failure-Answers, handle-Answers, if-Answers, implement-Answers,
}

module _ {W : Type 0} (tools : Tools W) where
  -- Time passes: with every tick that is not behind the deadline, fewer such ticks are left, and
  -- asking for the checks adds none.
  pub record HasDeadline : Type 0 where
    pub left : W → ℕ
    pub passes : (w : W) → (tools.wake w).0 ≡ tick false → left (tools.wake w).1 < left w
    pub kept : (branch : String) (w : W) → left (tools.pr_checks branch w).1 ≤ left w

  module _ (deadline : HasDeadline) where
    on_checks-Answers :
        (n : ℕ) (again : Run W Unit) (r : Result (List PrCheck) × W) (j : Job W)
        → ((j' : Job W) → j'.orchestrator.remote ≡ r.1 → Answers (again j'))
        → Answers (on_checks tools n again r j)
    on_checks-Answers n again (err e, w) j h = h (set_remote w j) refl
    on_checks-Answers n again (ok cs, w) j h =
        let result = get_pr_checks tools.failure_logs cs in by_status result.logs result.status
      where
        by_status :
            (logs : String) (s : Status) → Answers (on_status tools n again logs s (set_remote w j))
        by_status logs pass = tt
        by_status logs fail = failure-Answers tools n logs (set_remote w j)
        by_status logs pending = h (set_remote w j) refl

    on_wake-Answers :
        (n : ℕ) (branch : String) (again : Run W Unit) (x : Wake × W) (j : Job W) (lo : ℕ)
        → (x.0 ≡ tick false → deadline.left x.1 < lo)
        → ((j' : Job W) → deadline.left j'.orchestrator.remote < lo → Answers (again j'))
        → Answers (on_wake tools n branch again x j)
    on_wake-Answers n branch again (context_done, w) j lo h k = tt
    on_wake-Answers n branch again (tick true, w) j lo h k =
        failure-Answers tools n "CI checks timed out" (set_remote w j)
    on_wake-Answers n branch again (tick false, w) j lo h k =
        on_checks-Answers n again (tools.pr_checks branch w) (set_remote w j)
          λ j' e. k j' (omega (arith, h refl, deadline.kept branch w, ap deadline.left e))

    -- The polling of `checkPipeline` ends, with fuel for the ticks that are left.
    pub check_pipeline-Answers :
        (fuel n : ℕ) (branch : String) (j : Job W)
        → deadline.left j.orchestrator.remote < fuel
        → Answers (check_pipeline fuel tools n branch j)
    unfolding check_pipeline
    check_pipeline-Answers zero n branch j h = absurd (omega arith)
    check_pipeline-Answers (suc fuel) n branch j h =
        on_wake-Answers n branch (check_pipeline fuel tools n branch)
          (tools.wake j.orchestrator.remote) j (deadline.left j.orchestrator.remote)
          (deadline.passes j.orchestrator.remote)
          λ j' k. check_pipeline-Answers fuel n branch j' (omega arith)

module _ {W : Type 0} (tools : Tools W) (cfg : Config) (i : Issue) where
  pub say-Answers :
      (stage : String) (status : EventStatus) (output : String) (j : Job W)
      → Answers (report tools.gh stage status output j)
  unfolding report
  say-Answers stage status output j = ground arith

  pub status-Answers : (s : TaskStatus) (j : Job W) → Answers (set_status s j)
  unfolding set_status
  status-Answers s j = tt

  pub push-Answers : (prefix : String) (j : Job W) → Answers (push tools cfg i prefix j)
  unfolding push
  push-Answers prefix j = attempt-Answers _ _ j (bind-Answers _ _ j tt λ b j1. call-Answers _ _ j1)

  give_up-Answers : (e : Fault) (j : Job W) → Answers (give_up {A = Unit {0}} e j)
  give_up-Answers e j = tt

  -- The last attempt gives up; an earlier one answers too.
  pipeline_failed-Answers :
      (attempts : ℕ) (plan : String) (e : Fault) (j : Job W)
      → Answers (pipeline_failed tools cfg i attempts plan e j)
  unfolding pipeline_failed
  pipeline_failed-Answers attempts plan e j =
      if-Answers (leb (max_pipeline_retries cfg) attempts) _ _ j
        (bind-Answers _ _ j (status-Answers _ j)
          λ _ j1. bind-Answers _ _ j1 (say-Answers _ _ _ j1) λ _ j2. tt)
        (bind-Answers _ _ j (say-Answers _ _ _ j) λ _ j1.
          bind-Answers _ _ j1 (status-Answers _ j1) λ _ j2.
            bind-Answers _ _ j2 (say-Answers _ _ _ j2) λ _ j3.
              bind-Answers _ _ j3 (attempt-Answers _ _ j3 (implement-Answers tools i plan _ j3))
                λ _ j4. push-Answers _ j4)

  pipeline_failed-IsFault :
      (attempts : ℕ) (plan : String) (e : Fault) (j : Job W)
      → leb (max_pipeline_retries cfg) attempts ≡ true
      → IsFault (pipeline_failed tools cfg i attempts plan e j)
  unfolding pipeline_failed
  pipeline_failed-IsFault attempts plan e j h = rw h (
      behind-IsFault _ _ j (status-Answers _ j)
        λ _ j1. behind-IsFault _ _ j1 (say-Answers _ _ _ j1) λ _ j2. tt)

  module _ (deadline : HasDeadline tools) (polls : ℕ)
      (enough : (w : W) → deadline.left w < polls) where
    pipeline_loop-Answers :
        (fuel attempts : ℕ) (plan : String) (j : Job W)
        → max_pipeline_retries cfg ≤ fuel + attempts
        → 0 < fuel
        → Answers (pipeline_loop tools cfg i polls fuel attempts plan j)
    unfolding pipeline_loop
    pipeline_loop-Answers zero attempts plan j h k = absurd (omega arith)
    pipeline_loop-Answers (suc fuel) attempts plan j h k =
        bind-Answers _ _ j (status-Answers _ j) λ _ j1. bind-Answers _ _ j1 tt λ b j2.
          handle-Answers _ _ _ j2
            (check_pipeline-Answers tools deadline polls i.number b j2
              (enough j2.orchestrator.remote))
            (λ _ j3. say-Answers _ _ _ j3)
            λ e j3. elim (Bool-cases (leb (max_pipeline_retries cfg) (attempts + 1))) [
              | inl last ↦
                  IsFault-Answers _
                    (bind-IsFault _ _ j3 (pipeline_failed-IsFault (attempts + 1) plan e j3 last))
              | inr more ↦
                  bind-Answers _ _ j3 (pipeline_failed-Answers (attempts + 1) plan e j3) λ _ j4.
                    pipeline_loop-Answers fuel (attempts + 1) plan j4 (omega arith)
                      (ground (arith, h, more))
            ]

    -- Step 5 of `Process` ends: with the attempts that the configuration allows for fuel, and more
    -- polls than ticks before the deadline, it gives a value or a fault.
    pub pipeline_phase-Answers :
        (from : ℕ) (plan : String) (j : Job W)
        → Answers (pipeline_phase tools cfg i polls from plan j)
    unfolding pipeline_phase
    pipeline_phase-Answers from plan j =
        if-Answers (leb from 4) _ _ j
          (pipeline_loop-Answers (max_pipeline_retries cfg) 0 plan j (omega arith) (ground arith))
          tt
