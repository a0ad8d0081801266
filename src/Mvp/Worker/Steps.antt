-- ===== src/Mvp/Worker/Steps.antt =====
-- internal/mvp/worker.go: the steps that `Process` goes through. Each writes its row of the store
-- and talks to the tools.
use Prim.Native.String.{◌++◌, find}
use one_dev_army.Common.{
  ℕ, zero, suc, ◌+◌, true, false, Option, none, some, List, [], ◌∷◌, String, str_eq, if◌then◌else◌,
  first,
}
use one_dev_army.Common.Effect.{Result, ok, err, Effect}
use one_dev_army.GitHub.Issue.{Issue}
use one_dev_army.GitHub.Checks.{PrCheck, Status, pass, fail, pending, get_pr_checks}
use one_dev_army.Store.Steps.{
  Steps, insert_step, finish_step, fail_step, get_last_completed_step, get_step_response,
}
use one_dev_army.Mvp.Worker.{
  Fault, already_done, cancelled, plain, value, fault, waiting, Job, Wake, context_done, tick,
  ReviewResult, Tools, Run, ◌>>=◌, ◌>>◌, return, raise, call, call_logged, update, handle,
  set_remote, message, wrap,
}
use one_dev_army.Mvp.Worker.Texts.{
  itoa, found, check_already_done, parse_technical_planning_response,
}

-- `stepOrder`
abbrev pub step_order : List String
step_order =
    "technical-planning" ∷ "implement" ∷ "code-review" ∷ "create-pr" ∷ "check-pipeline"
    ∷ "awaiting-approval" ∷ "merge" ∷ []

-- The loop of `stepIndex`, which counts from `i`; `none` is −1.
unfoldable pub index_from : ℕ → String → List String → Option ℕ
index_from i name [] = none
index_from i name (s ∷ ss) =
    let later = index_from (i + 1) name ss in if str_eq s name then some i else later

unfoldable pub step_index : String → Option ℕ
unfolding index_from
step_index name = index_from 0 name step_order

-- The step from which `Process` resumes.
unfoldable pub resume_from : ℕ → Steps → ℕ
unfolding step_index
resume_from issue t =
    let last = get_last_completed_step issue t in
    if str_eq last "" then 0 else (elim (step_index last) [ none ↦ 0 | some i ↦ i + 1 ])

-- The plan in a comment of the issue goes before the one that is handed in.
abbrev pub plan_in : String → Result (List String) → String
plan_in plan (err e) = plan
plan_in plan (ok bodies) = elim (first (λ b. found b (find b "## 📋 Technical Planning")) bodies) [
  | none ↦ plan
  | some body ↦ body
]

module _ {W : Type 0} where
  abbrev set_steps : Steps → Job W → Job W
  set_steps t j = record j { orchestrator = record j.orchestrator { steps = t } }

  -- `InsertStep`, with the id 0 if there is no store.
  unfoldable pub insert : ℕ → String → String → String → String → Run W ℕ
  insert issue name prompt session llm j =
      let (id, t) = insert_step issue name prompt session llm j.orchestrator.steps in
      if j.orchestrator.has_store then (value id, set_steps t j) else (value 0, j)

  unfoldable pub finish : ℕ → String → Run W Unit
  finish id response j = (
    value tt,
    if j.orchestrator.has_store
        then set_steps (finish_step id response j.orchestrator.steps) j
        else j,
  )

  unfoldable pub fail_row : ℕ → String → Run W Unit
  fail_row id msg j = (
    value tt,
    if j.orchestrator.has_store then set_steps (fail_step id msg j.orchestrator.steps) j else j,
  )

  -- `GetStepResponse`, empty without a store.
  unfoldable pub stored_response : ℕ → String → Run W String
  stored_response issue name j = (
    value (
        if j.orchestrator.has_store then get_step_response issue name j.orchestrator.steps else ""),
    j,
  )

  -- `task.SetSessionID`; the task is the one that the orchestrator holds.
  unfoldable pub set_session : String → Run W Unit
  set_session id j = (
    value tt,
    record j {
      orchestrator = record j.orchestrator {
        current_task = elim j.orchestrator.current_task [
          | none ↦ none
          | some t ↦ some (record t { session_id = id })
        ];
      };
    },
  )

  -- The deferred calls of a step: they run on every way out, and keep what it returns.
  unfoldable pub finally : {A : Type 0} → Run W A → Run W Unit → Run W A
  finally m cleanup j = let (r, j') = m j in (r, (cleanup j').1)

  -- An error that is handled before it is returned.
  unfoldable pub on_fault : {A : Type 0} → Run W A → (Fault → Run W Unit) → Run W A
  on_fault m handler j =
      let (r, j') = m j in
      elim r [
        | value a ↦ (value a, j')
        | fault e ↦ (fault e, (handler e j').1)
        | waiting ↦ (waiting, j')
      ]

  -- `fmt.Errorf("…: %w", err)` around the error of a call.
  unfoldable pub prefixed : {A : Type 0} → String → Run W A → Run W A
  prefixed prefix m j =
      let (r, j') = m j in
      elim r [
        | value a ↦ (value a, j')
        | fault e ↦ (fault (wrap prefix e), j')
        | waiting ↦ (waiting, j')
      ]

  -- The frame of `llmStep` and `codeReview`: a session, a row of the store, and an exchange whose
  -- answer is written to the row as a text.
  unfoldable pub in_session :
      {A : Type 0}
      → Tools W
      → ℕ
      → String
      → String
      → String
      → String
      → (String → Effect W A)
      → (A → String)
      → Run W A
  in_session tools issue name prompt llm prefix exchange text = do
    session ←
        call (λ e. plain ("creating session: " ++ e))
          (tools.create_session (name ++ "-" ++ itoa issue))
    finally
        (do
          set_session session
          id ← insert issue name prompt session llm
          a ←
              prefixed prefix
                (on_fault (call plain (exchange session)) (λ e. fail_row id (message e)))
          finish id (text a)
          return a)
        (call_logged (tools.delete_session session) >> set_session "")

  unfoldable pub llm_step : Tools W → ℕ → String → String → String → Run W String
  llm_step tools issue name prompt llm =
      in_session tools issue name prompt llm "sending message: " (λ s. tools.send_message s prompt)
        (λ r. r)

  unfoldable pub technical_planning : Tools W → Issue → String → Run W (String × String)
  technical_planning tools i llm = do
    response ← llm_step tools i.number "technical-planning" (tools.planning_prompt i) llm
    let reason = check_already_done response
    let (analysis, plan) = parse_technical_planning_response response
    if str_eq reason ""
        then (call_logged (tools.attach_plan i.number analysis plan) >> return (analysis, plan))
        else raise (already_done ("ticket already done: " ++ reason))

  unfoldable pub plan_for : Tools W → ℕ → String → Run W String
  plan_for tools issue plan j =
      let (r, w) = tools.list_comments issue j.orchestrator.remote in
      (value (plan_in plan r), set_remote w j)

  -- What the model left uncommitted is committed.
  unfoldable pub ensure_commit : Tools W → Issue → Run W Unit
  ensure_commit tools i = do
    call_logged tools.git_add
    handle (call plain tools.git_diff_cached) (λ _. return tt)
        λ _. call_logged (tools.git_commit ("feat: implement #" ++ itoa i.number ++ " " ++ i.title))

  unfoldable pub implement : Tools W → Issue → String → String → Run W Unit
  implement tools i plan llm = do
    p ← plan_for tools i.number plan
    _ ← llm_step tools i.number "implement" (tools.implementation_prompt i p) llm
    ensure_commit tools i

  unfoldable pub fix_from_review : Tools W → Issue → String → String → Run W Unit
  fix_from_review tools i review llm = do
    _ ← llm_step tools i.number "fix-from-review" (tools.fix_prompt i review) llm
    ensure_commit tools i

  -- The row counts as done whether or not the review approves.
  unfoldable pub code_review : Tools W → Issue → String → String → Run W ReviewResult
  code_review tools i url llm =
      in_session tools i.number "code-review" (tools.review_prompt i url) llm "code review: "
        (λ s. tools.send_review s (tools.review_prompt i url)) (λ r. r.json)

  -- The branch of `createPR` behind the push.
  unfoldable pub open_pr : Tools W → Issue → String → ℕ → Run W String
  open_pr tools i branch id =
      handle
        (call plain
          (tools.create_pr branch i.title ("Closes #" ++ itoa i.number ++ "\n\n" ++ i.body)))
        (λ url. finish id url >> return url)
        λ e.
          let known = tools.extract_pr_url (message e) in
          if str_eq known ""
          then fail_row id (message e) >> raise (wrap "creating PR: " e)
          else finish id known >> return known

  unfoldable pub push_and_open : Tools W → Issue → String → Run W String
  push_and_open tools i branch = do
    call_logged (tools.find_pr_branch i.number)
    id ← insert i.number "create-pr" ("push " ++ branch ++ " + create PR") "" ""
    prefixed "pushing branch: "
        (on_fault (call plain (tools.push_branch branch)) (λ e. fail_row id (message e)))
    open_pr tools i branch id

  -- Without a commit on the branch there is nothing to do; a check that fails does not matter.
  unfoldable pub create_pr : Tools W → Issue → String → Run W String
  create_pr tools i branch =
      handle (call plain (tools.has_commits branch))
        (λ has.
          if has
          then push_and_open tools i branch
          else raise (
              already_done ("ticket already done: no commits between " ++ branch ++ " and master")))
        (λ _. push_and_open tools i branch)

  unfoldable pub handle_pipeline_failure : Tools W → ℕ → String → Run W Unit
  handle_pipeline_failure tools issue logs = do
    update (tools.save_failure_log (tools.log_path issue) logs)
    call_logged (
        tools.add_comment issue (
          "## CI Pipeline Failed\n\nPipeline checks failed. Logs saved to `"
          ++ tools.log_path issue
          ++ "`.\n\n```\n"
          ++ logs
          ++ "\n```"))
    raise (plain "CI pipeline checks failed")

  -- A round of `checkPipeline`, from the answer of GitHub and from the wake-up; `again` is the rest of
  -- the loop.
  abbrev pub on_status : Tools W → ℕ → Run W Unit → String → Status → Run W Unit
  on_status tools issue again logs pass = return tt
  on_status tools issue again logs fail = handle_pipeline_failure tools issue logs
  on_status tools issue again logs pending = again

  abbrev pub on_checks : Tools W → ℕ → Run W Unit → Result (List PrCheck) × W → Run W Unit
  on_checks tools issue again (err e, w) j = again (set_remote w j)
  on_checks tools issue again (ok cs, w) j =
      let result = get_pr_checks tools.failure_logs cs in
      on_status tools issue again result.logs result.status (set_remote w j)

  abbrev pub on_wake : Tools W → ℕ → String → Run W Unit → Wake × W → Run W Unit
  on_wake tools issue branch again (context_done, w) j =
      raise (cancelled "context canceled") (set_remote w j)
  on_wake tools issue branch again (tick true, w) j =
      handle_pipeline_failure tools issue "CI checks timed out" (set_remote w j)
  on_wake tools issue branch again (tick false, w) j =
      on_checks tools issue again (tools.pr_checks branch w) (set_remote w j)

  -- The loop of `checkPipeline`, on fuel: the ticks that it may take.
  unfoldable pub check_pipeline : ℕ → Tools W → ℕ → String → Run W Unit
  check_pipeline zero tools issue branch j = (waiting, j)
  check_pipeline (suc fuel) tools issue branch j =
      on_wake tools issue branch (check_pipeline fuel tools issue branch)
        (tools.wake j.orchestrator.remote) j
