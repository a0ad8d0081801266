-- ===== src/Mvp/Worker/Process.antt =====
-- internal/mvp/worker.go: `Process`, phase by phase. A phase begins at the index of its step; a
-- worker that resumes behind it skips it. The two loops are on fuel: the attempts at the CI checks,
-- of which `Process` gives as many as the configuration allows, and the rounds of the approval, which
-- the user may send back without end.
pub mod Frames
pub mod Phases
pub mod Ends
pub mod Gate
pub mod Resume
pub mod Answers
pub mod Attempts
pub mod Total
use Prim.Native.String.{◌++◌}
use one_dev_army.Common.{
  ℕ, zero, suc, ◌+◌, ◌==◌, Bool, true, false, not, ◌&&◌, Option, none, some, String, str_eq,
  if◌then◌else◌, leb, ltb,
}
use one_dev_army.GitHub.Issue.{Issue}
use one_dev_army.Llm.{
  LlmConfig, Router, TaskCategory, category_planning, category_code, select_model,
}
use one_dev_army.Mvp.Events.{EventStatus, success, in_progress}
use one_dev_army.Mvp.Events as Events
use one_dev_army.Mvp.Orchestrator.{Action, approve, decline, UserDecision, notify_ticket_completed}
use one_dev_army.Mvp.Worker.{
  TaskStatus, analyzing, coding, reviewing, creating_pr, checking_pipeline, awaiting_approval,
  merging, done, failed, TaskResult, failure, merged, Fault, cancelled, plain, value, fault,
  waiting, Job, Tools, Run, ◌>>=◌, ◌>>◌, return, raise, call, call_logged, set_status, wrap,
  message, give_up, attempt, handle, report,
}
use one_dev_army.Mvp.Worker.Texts.{branch_name, parse_technical_planning_response}
use one_dev_army.Mvp.Worker.Steps.{
  resume_from, stored_response, finally, technical_planning, implement, fix_from_review,
  code_review, create_pr, check_pipeline,
}

-- The fields of the configuration that `Process` reads, and its router.
pub record Config : Type 0 where
  pub llm : LlmConfig
  pub router : Option Router
  pub max_retries : ℕ
  pub yolo_mode : Bool

unfoldable pub resolve_model : Config → TaskCategory → String
resolve_model cfg c = elim cfg.router [
  | some r ↦ select_model r c
  | none ↦ elim c [ category_planning ↦ cfg.llm.planning | _ ↦ cfg.llm.code ]
]

-- `maxPipelineRetries`
abbrev pub max_pipeline_retries : Config → ℕ
max_pipeline_retries cfg = if cfg.max_retries == 0 then 5 else cfg.max_retries

module _ {W : Type 0} (tools : Tools W) (cfg : Config) (i : Issue) where
  abbrev pub code_model : String
  code_model = resolve_model cfg category_code

  abbrev pub say : String → EventStatus → String → Run W Unit
  say = report tools.gh

  -- `task.Branch`
  abbrev pub task_branch : Run W String
  task_branch j = (value j.branch, j)

  unfoldable pub push : String → Run W Unit
  push prefix = attempt prefix (task_branch >>= λ b. call plain (tools.push_branch b))

  -- Steps 1 to 4 give the plan, nothing, nothing and the URL of the pull request.
  unfoldable pub plan_phase : ℕ → Run W String
  plan_phase zero = do
    (analysis, plan) ←
        attempt "technical planning: "
          (technical_planning tools i (resolve_model cfg category_planning))
    say "analysis" success "technical planning completed"
    return plan
  plan_phase (suc k) = do
    response ← stored_response i.number "technical-planning"
    old ← stored_response i.number "plan"
    return (if str_eq response "" then old else (parse_technical_planning_response response).1)

  unfoldable pub code_phase : ℕ → String → Run W Unit
  code_phase from plan =
      if leb from 1
      then (do
        set_status coding
        attempt "implementing: " (implement tools i plan code_model)
        say "coding" success "implementation completed")
      else return tt

  -- A review that does not approve has one round of fixes, and must approve behind it.
  unfoldable pub second_review : String → Run W Unit
  second_review review = do
    set_status coding
    say "coding" in_progress "fixing from AI review"
    attempt "fixing from review: " (fix_from_review tools i review code_model)
    push "pushing fixes: "
    again ← attempt "code review after fixes: " (code_review tools i "" code_model)
    if again.approved then return tt else give_up (plain "code review not approved after fixes")

  unfoldable pub review_phase : ℕ → Run W Unit
  review_phase from =
      if leb from 2
      then (do
        set_status reviewing
        first ← attempt "code review: " (code_review tools i "" code_model)
        if first.approved then return tt else second_review first.json
        say "code-review" success "code review approved")
      else return tt

  unfoldable pub pr_phase : ℕ → Run W String
  pr_phase from =
      if leb from 3
      then (do
        set_status creating_pr
        branch ← task_branch
        url ← attempt "creating PR: " (create_pr tools i branch)
        say "create-pr" success ("PR created: " ++ url)
        return url)
      else stored_response i.number "create-pr"

  -- What a failed check leads to: the task fails, or it is coded and pushed again.
  unfoldable pub pipeline_failed : ℕ → String → Fault → Run W Unit
  pipeline_failed attempts plan e =
      if leb (max_pipeline_retries cfg) attempts
      then (do
        set_status failed
        say "check-pipeline" Events.failed (message e)
        give_up (wrap "pipeline check: " e))
      else (do
        say "check-pipeline" Events.failed "retrying coding"
        set_status coding
        say "coding" in_progress "fixing pipeline failure"
        attempt "fixing from pipeline failure: " (implement tools i plan code_model)
        push "pushing pipeline fixes: ")

  -- The loop of step 5, on fuel; `polls` is the fuel of each `checkPipeline`.
  unfoldable pub pipeline_loop : ℕ → ℕ → ℕ → String → Run W Unit
  pipeline_loop polls zero attempts plan = λ j. (waiting, j)
  pipeline_loop polls (suc fuel) attempts plan = do
    set_status checking_pipeline
    branch ← task_branch
    handle (check_pipeline polls tools i.number branch)
        (λ _. say "check-pipeline" success "all CI checks passed")
        λ e. do pipeline_failed (attempts + 1) plan e; pipeline_loop polls fuel (attempts + 1) plan

  unfoldable pub pipeline_phase : ℕ → ℕ → String → Run W Unit
  pipeline_phase polls from plan =
      if leb from 4 then pipeline_loop polls (max_pipeline_retries cfg) 0 plan else return tt

  -- The end of a task that is merged.
  abbrev pub finish_task : String → Run W Unit
  finish_task url j = (
    value tt,
    record j {
      status = done;
      result = some (merged url i.title);
      orchestrator = notify_ticket_completed i.number j.orchestrator;
    },
  )

  -- Step 7, on an approval.
  unfoldable pub merge_phase : String → Run W Unit
  merge_phase url = do
    set_status merging
    say "awaiting-approval" success "user approved"
    branch ← task_branch
    handle (call plain (tools.merge_pr branch))
        (λ _. do
          say "merge" success "PR merged successfully"
          call_logged tools.checkout_default
          finish_task url)
        λ e. do
          call_logged (tools.close_pr branch)
          call_logged (
              tools.add_comment i.number (
                "Merge failed (likely conflict). PR closed, task moved to Failed.\n\nError: "
                ++ message e))
          give_up (wrap "merge failed: " e)

  -- The branches on `decision.Action == "approve"`.
  abbrev pub act : Action → Run W Unit → Run W Unit → Run W Unit
  act approve m n = m
  act decline m n = n

  unfoldable pub decline_comment : String → Run W Unit
  decline_comment reason =
      if str_eq reason ""
      then return tt
      else call_logged
          (tools.add_comment i.number ("**Declined** — sent back for fixes.\n\n" ++ reason))

  unfoldable pub refix : String → Run W Unit
  refix review = do
    set_status coding
    say "coding" in_progress "fixing from re-review after decline"
    attempt "fixing from re-review: " (fix_from_review tools i review code_model)
    push "pushing re-review fixes: "

  -- The review behind a decline, and the fixes if it does not approve.
  unfoldable pub review_again : String → Run W Unit
  review_again url = do
    say "coding" success "fixes applied after decline"
    again ← attempt "code review after decline: " (code_review tools i url code_model)
    if again.approved then return tt else refix again.json
    say "code-review" success "code review passed after decline"

  -- Step 6, on a decline: fix, push, review again, and fix once more if that does not approve.
  unfoldable pub decline_phase : String → String → Run W Unit
  decline_phase url reason = do
    set_status coding
    say "coding" in_progress "fixing from user decline"
    decline_comment reason
    say "awaiting-approval" Events.failed ("user declined: " ++ reason)
    attempt "fixing from decline: " (fix_from_review tools i reason code_model)
    push "pushing fixes after decline: "
    set_status reviewing
    review_again url

  -- The decision, which the yolo mode takes by itself.
  unfoldable pub decide : Run W UserDecision
  decide =
      if cfg.yolo_mode
      then return (record { action = approve; reason = "" })
      else call cancelled tools.next_decision

  -- The loop of the steps 6 and 7, on fuel: the rounds.
  unfoldable pub approval_loop : ℕ → String → Run W Unit
  approval_loop zero url = λ j. (waiting, j)
  approval_loop (suc rounds) url = do
    set_status awaiting_approval
    say "awaiting-approval" in_progress ("PR created, awaiting approval: " ++ url)
    d ← decide
    act d.action (merge_phase url) (decline_phase url d.reason >> approval_loop rounds url)

  unfoldable pub phases : ℕ → ℕ → ℕ → Run W Unit
  phases polls rounds from = do
    plan ← plan_phase from
    code_phase from plan
    review_phase from
    url ← pr_phase from
    pipeline_phase polls from plan
    stored ← stored_response i.number "create-pr"
    approval_loop rounds (if leb 5 from && str_eq url "" then stored else url)

  -- The deferred cleanup: a branch whose task is not done is removed.
  unfoldable pub clean_up : Run W Unit
  clean_up j =
      if not (str_eq j.branch "") && not (is_done j.status)
      then call_logged (tools.remove_branch j.branch) j
      else (value tt, j)
    where
      is_done : TaskStatus → Bool
      is_done done = true
      is_done _ = false

  -- The step from which the task resumes, 0 without a store.
  abbrev pub resume : Run W ℕ
  resume j =
      (value (if j.orchestrator.has_store then resume_from i.number j.orchestrator.steps else 0), j)

  abbrev pub set_branch : String → Run W Unit
  set_branch b j = (value tt, record j { branch = b })

  unfoldable pub process : ℕ → ℕ → Run W Unit
  process polls rounds = do
    from ← resume
    set_status analyzing
    let branch = branch_name i.number i.title
    attempt "creating branch: " (call plain (tools.create_branch branch))
    set_branch branch
    attempt "creating artifact directory: " (call plain (tools.create_artifact_dir i.number))
    finally (phases polls rounds from) clean_up
