-- ===== src/Mvp/Worker/Process/Total.antt =====
-- In the yolo mode `Process` returns.
use one_dev_army.Common.{ℕ, zero, suc, ◌<◌, ◌≡◌, true, String, str_eq, leb, arith}
use one_dev_army.GitHub.Issue.{Issue}
use one_dev_army.Mvp.Orchestrator.{approve, UserDecision}
use one_dev_army.Mvp.Worker.{Job, Tools, Run, ◌>>=◌, message}
use one_dev_army.Mvp.Worker.Texts.{branch_name, check_already_done}
use one_dev_army.Mvp.Worker.Steps.{
  stored_response, fail_row, technical_planning, fix_from_review, code_review, open_pr,
  push_and_open, create_pr,
}
use one_dev_army.Mvp.Worker.Process.{
  Config, plan_phase, code_phase, second_review, review_phase, pr_phase, merge_phase, decide,
  approval_loop, phases, clean_up, process, set_branch,
}
use one_dev_army.Mvp.Worker.Process.Answers.{
  Answers, bind-Answers, attempt-Answers, call-Answers, handle-Answers, if-Answers, finally-Answers,
  prefixed-Answers, on_fault-Answers, in_session-Answers, llm_step-Answers, insert-Answers,
  finish-Answers, implement-Answers, logged-Answers, ensure_commit-Answers,
}
use one_dev_army.Mvp.Worker.Process.Attempts.{
  HasDeadline, say-Answers, status-Answers, push-Answers, pipeline_phase-Answers,
}

module _ {W : Type 0} (tools : Tools W) where
  stored_response-Answers : (n : ℕ) (name : String) (j : Job W) → Answers (stored_response n name j)
  unfolding stored_response
  stored_response-Answers n name j = tt

  planning-Answers :
      (i : Issue) (llm : String) (j : Job W) → Answers (technical_planning tools i llm j)
  unfolding technical_planning
  planning-Answers i llm j = bind-Answers _ _ j (llm_step-Answers tools _ _ _ _ j) λ r j1.
      if-Answers (str_eq (check_already_done r) "") _ _ j1
        (bind-Answers _ _ j1 (logged-Answers tools _ j1) λ _ j2. tt) tt

  fix_from_review-Answers :
      (i : Issue) (review llm : String) (j : Job W) → Answers (fix_from_review tools i review llm j)
  unfolding fix_from_review
  fix_from_review-Answers i review llm j =
      bind-Answers _ _ j (llm_step-Answers tools _ _ _ _ j) λ _ j1. ensure_commit-Answers tools i j1

  code_review-Answers :
      (i : Issue) (url llm : String) (j : Job W) → Answers (code_review tools i url llm j)
  unfolding code_review
  code_review-Answers i url llm j =
      in_session-Answers tools i.number "code-review" (tools.review_prompt i url) llm
        "code review: " _ _ j

  fail_row-Answers : (id : ℕ) (msg : String) (j : Job W) → Answers (fail_row id msg j)
  unfolding fail_row
  fail_row-Answers id msg j = tt

  open_pr-Answers :
      (i : Issue) (branch : String) (id : ℕ) (j : Job W) → Answers (open_pr tools i branch id j)
  unfolding open_pr
  open_pr-Answers i branch id j =
      handle-Answers _ _ _ j (call-Answers _ _ j)
        (λ url j1. bind-Answers _ _ j1 (finish-Answers tools _ _ j1) λ _ j2. tt)
        λ e j1.
          if-Answers (str_eq (tools.extract_pr_url (message e)) "") _ _ j1
            (bind-Answers _ _ j1 (fail_row-Answers _ _ j1) λ _ j2. tt)
            (bind-Answers _ _ j1 (finish-Answers tools _ _ j1) λ _ j2. tt)

  push_and_open-Answers :
      (i : Issue) (branch : String) (j : Job W) → Answers (push_and_open tools i branch j)
  unfolding push_and_open
  push_and_open-Answers i branch j = bind-Answers _ _ j (logged-Answers tools _ j) λ _ j1.
      bind-Answers _ _ j1 (insert-Answers tools _ _ _ _ _ j1) λ id j2.
        bind-Answers _ _ j2
          (prefixed-Answers _ _ j2 (on_fault-Answers _ _ j2 (call-Answers _ _ j2)))
          λ _ j3. open_pr-Answers i branch id j3

  create_pr-Answers :
      (i : Issue) (branch : String) (j : Job W) → Answers (create_pr tools i branch j)
  unfolding create_pr
  create_pr-Answers i branch j =
      handle-Answers _ _ _ j (call-Answers _ _ j)
        (λ has j1. if-Answers has _ _ j1 (push_and_open-Answers i branch j1) tt)
        λ _ j1. push_and_open-Answers i branch j1

module _ {W : Type 0} (tools : Tools W) (cfg : Config) (i : Issue) where
  plan_phase-Answers : (from : ℕ) (j : Job W) → Answers (plan_phase tools cfg i from j)
  unfolding plan_phase
  plan_phase-Answers zero j =
      bind-Answers _ _ j (attempt-Answers _ _ j (planning-Answers tools i _ j))
        λ a j1. bind-Answers _ _ j1 (say-Answers tools cfg i _ _ _ j1) λ _ j2. tt
  plan_phase-Answers (suc k) j =
      bind-Answers _ _ j (stored_response-Answers tools _ _ j)
        λ r j1. bind-Answers _ _ j1 (stored_response-Answers tools _ _ j1) λ _ j2. tt

  code_phase-Answers :
      (from : ℕ) (plan : String) (j : Job W) → Answers (code_phase tools cfg i from plan j)
  unfolding code_phase
  code_phase-Answers from plan j =
      if-Answers (leb from 1) _ _ j
        (bind-Answers _ _ j (status-Answers tools cfg i _ j) λ _ j1.
          bind-Answers _ _ j1 (attempt-Answers _ _ j1 (implement-Answers tools i plan _ j1))
            λ _ j2. say-Answers tools cfg i _ _ _ j2)
        tt

  second_review-Answers :
      (review : String) (j : Job W) → Answers (second_review tools cfg i review j)
  unfolding second_review
  second_review-Answers review j = bind-Answers _ _ j (status-Answers tools cfg i _ j) λ _ j1.
      bind-Answers _ _ j1 (say-Answers tools cfg i _ _ _ j1) λ _ j2.
        bind-Answers _ _ j2 (attempt-Answers _ _ j2 (fix_from_review-Answers tools i review _ j2))
          λ _ j3. bind-Answers _ _ j3 (push-Answers tools cfg i _ j3) λ _ j4.
            bind-Answers _ _ j4 (attempt-Answers _ _ j4 (code_review-Answers tools i "" _ j4))
              λ again j5. if-Answers again.approved _ _ j5 tt tt

  review_phase-Answers : (from : ℕ) (j : Job W) → Answers (review_phase tools cfg i from j)
  unfolding review_phase
  review_phase-Answers from j =
      if-Answers (leb from 2) _ _ j
        (bind-Answers _ _ j (status-Answers tools cfg i _ j) λ _ j1.
          bind-Answers _ _ j1 (attempt-Answers _ _ j1 (code_review-Answers tools i "" _ j1)) λ a j2.
            bind-Answers _ _ j2 (if-Answers a.approved _ _ j2 tt (second_review-Answers a.json j2))
              λ _ j3. say-Answers tools cfg i _ _ _ j3)
        tt

  pr_phase-Answers : (from : ℕ) (j : Job W) → Answers (pr_phase tools cfg i from j)
  unfolding pr_phase
  pr_phase-Answers from j =
      if-Answers (leb from 3) _ _ j
        (bind-Answers _ _ j (status-Answers tools cfg i _ j) λ _ j1. bind-Answers _ _ j1 tt λ b j2.
          bind-Answers _ _ j2 (attempt-Answers _ _ j2 (create_pr-Answers tools i b j2))
            λ _ j3. bind-Answers _ _ j3 (say-Answers tools cfg i _ _ _ j3) λ _ j4. tt)
        (stored_response-Answers tools _ _ j)

  merge_phase-Answers : (url : String) (j : Job W) → Answers (merge_phase tools cfg i url j)
  unfolding merge_phase
  merge_phase-Answers url j = bind-Answers _ _ j (status-Answers tools cfg i _ j) λ _ j1.
      bind-Answers _ _ j1 (say-Answers tools cfg i _ _ _ j1) λ _ j2. bind-Answers _ _ j2 tt λ b j3.
        handle-Answers _ _ _ j3 (call-Answers _ _ j3)
          (λ _ j4.
            bind-Answers _ _ j4 (say-Answers tools cfg i _ _ _ j4)
              λ _ j5. bind-Answers _ _ j5 (logged-Answers tools _ j5) λ _ j6. tt)
          λ e j4.
            bind-Answers _ _ j4 (logged-Answers tools _ j4)
              λ _ j5. bind-Answers _ _ j5 (logged-Answers tools _ j5) λ _ j6. tt

  module _ (yolo : cfg.yolo_mode ≡ true) where
    decide_then :
        (f : UserDecision → Run W Unit) (j : Job W)
        → Answers (f (record { action = approve; reason = "" }) j)
        → Answers ((decide tools cfg i >>= f) j)
    unfolding decide ◌>>=◌
    decide_then f j h = rw yolo h

    approval_loop-Answers :
        (rounds : ℕ) (url : String) (j : Job W)
        → 0 < rounds
        → Answers (approval_loop tools cfg i rounds url j)
    unfolding approval_loop
    approval_loop-Answers zero url j h = absurd (omega arith)
    approval_loop-Answers (suc rounds) url j h =
        bind-Answers _ _ j (status-Answers tools cfg i _ j) λ _ j1.
          bind-Answers _ _ j1 (say-Answers tools cfg i _ _ _ j1)
            λ _ j2. decide_then _ j2 (merge_phase-Answers url j2)

    phases-Answers :
        (deadline : HasDeadline tools) (polls rounds : ℕ)
        → ((w : W) → deadline.left w < polls)
        → 0 < rounds
        → (from : ℕ) (j : Job W) → Answers (phases tools cfg i polls rounds from j)
    unfolding phases
    phases-Answers deadline polls rounds enough h from j =
        bind-Answers _ _ j (plan_phase-Answers from j) λ plan j1.
          bind-Answers _ _ j1 (code_phase-Answers from plan j1) λ _ j2.
            bind-Answers _ _ j2 (review_phase-Answers from j2) λ _ j3.
              bind-Answers _ _ j3 (pr_phase-Answers from j3) λ url j4.
                bind-Answers _ _ j4
                  (pipeline_phase-Answers tools cfg i deadline polls enough from plan j4)
                  λ _ j5.
                    bind-Answers _ _ j5 (stored_response-Answers tools _ _ j5)
                      λ stored j6. approval_loop-Answers rounds _ j6 h

    -- In the yolo mode `Process` gives a value or a fault, with one round of the approval and more
    -- polls than there are ticks before the deadline of the checks.
    pub process-Answers :
        (deadline : HasDeadline tools) (polls rounds : ℕ)
        → ((w : W) → deadline.left w < polls)
        → 0 < rounds
        → (j : Job W) → Answers (process tools cfg i polls rounds j)
    unfolding process
    process-Answers deadline polls rounds enough h j = bind-Answers _ _ j tt λ from j1.
        bind-Answers _ _ j1 (status-Answers tools cfg i _ j1) λ _ j2.
          bind-Answers _ _ j2 (attempt-Answers _ _ j2 (call-Answers _ _ j2)) λ _ j3.
            bind-Answers (set_branch tools cfg i (branch_name i.number i.title)) _ j3 tt λ _ j4.
              bind-Answers _ _ j4 (attempt-Answers _ _ j4 (call-Answers _ _ j4)) λ _ j5.
                finally-Answers (phases tools cfg i polls rounds from) (clean_up tools cfg i) j5
                  (phases-Answers deadline polls rounds enough h from j5)
