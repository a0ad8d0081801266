-- ===== src/Mvp/Worker.antt =====
-- internal/mvp/worker.go: the worker's state and the frame of its steps. `Run` is a step that acts
-- on the job: it gives a value, or a fault (Go's error), or it is still `waiting` when the fuel of
-- a loop is used up. The model, git, the `gh` program and the file system are the fields of
-- `Tools`; the texts of the prompts are its last four. Step loggers, log lines, the chat history
-- and the directory of the model's client are left out, and the store does not fail.
pub mod Texts
pub mod Steps
pub mod Process
use Prim.Native.String.{◌++◌}
use one_dev_army.Common.{
  ℕ, Bool, true, false, Option, none, some, List, [], ◌∷◌, ◌++◌ as append, String, str_eq,
  if◌then◌else◌,
}
use one_dev_army.Common.Effect.{Result, ok, err, Effect}
use one_dev_army.GitHub.Issue.{Issue}
use one_dev_army.GitHub.Checks.{PrCheck}
use one_dev_army.GitHub.Client.{Gh}
use one_dev_army.Mvp.Events.{WorkerEvent, EventStatus}
use one_dev_army.Mvp.Orchestrator.{Orchestrator, UserDecision}
use one_dev_army.Mvp.Orchestrator.Stages.{handle_worker_event}

pub data TaskStatus : Type 0 where
  pending analyzing planning coding reviewing creating_pr checking_pipeline : TaskStatus
  awaiting_approval merging done failed : TaskStatus

-- `TaskResult` with an error, and without.
pub data TaskResult : Type 0 where
  failure : String → TaskResult
  merged : String → String → TaskResult

-- An error that wraps `ErrAlreadyDone`, one that is the context's, and any other.
pub data Fault : Type 0 where
  already_done cancelled plain : String → Fault

pub data Outcome (A : Type 0) : Type 0 where
  value : A → Outcome A
  fault : Fault → Outcome A
  waiting : Outcome A

-- A task in the worker's hands. `reported` is the list of the events that it has handed to the
-- orchestrator, in order.
pub record Job (W : Type 0) : Type 0 where
  pub orchestrator : Orchestrator W
  pub status : TaskStatus
  pub result : Option TaskResult
  pub branch : String
  pub reported : List WorkerEvent

-- What `checkPipeline` waits for: the context, or a tick of the timer, before or behind the
-- deadline.
pub data Wake : Type 0 where
  context_done : Wake
  tick : Bool → Wake

pub record ReviewResult : Type 0 where
  pub approved : Bool
  pub json : String

pub record Tools (W : Type 0) : Type 0 where
  pub gh : Gh W
  pub create_branch : String → Effect W Unit
  pub push_branch : String → Effect W Unit
  pub remove_branch : String → Effect W Unit
  pub checkout_default : Effect W Unit
  pub has_commits : String → Effect W Bool
  -- `git add -A`, `git diff --cached --quiet` and `git commit -m` in the worktree
  pub git_add : Effect W Unit
  pub git_diff_cached : Effect W Unit
  pub git_commit : String → Effect W Unit
  pub create_artifact_dir : ℕ → Effect W Unit
  pub create_session : String → Effect W String
  pub send_message : String → String → Effect W String
  pub send_review : String → String → Effect W ReviewResult
  pub delete_session : String → Effect W Unit
  pub attach_plan : ℕ → String → String → Effect W Unit
  -- the bodies of the comments on an issue
  pub list_comments : ℕ → Effect W (List String)
  pub log_path : ℕ → String
  pub save_failure_log : String → String → W → W
  pub find_pr_branch : ℕ → Effect W String
  pub create_pr : String → String → String → Effect W String
  -- `prURLRe.FindString`
  pub extract_pr_url : String → String
  pub merge_pr : String → Effect W Unit
  pub close_pr : String → Effect W Unit
  pub add_comment : ℕ → String → Effect W Unit
  pub pr_checks : String → Effect W (List PrCheck)
  pub failure_logs : List String → List String → String
  pub wake : W → Wake × W
  -- the next decision of the user; an error is the context's
  pub next_decision : Effect W UserDecision
  pub planning_prompt : Issue → String
  pub implementation_prompt : Issue → String → String
  pub fix_prompt : Issue → String → String
  pub review_prompt : Issue → String → String

abbrev pub Run : Type 0 → Type 0 → Type 0
Run W A = Job W → Outcome A × Job W

-- `fmt.Errorf("…: %w", err)`: the wrapped error is of the same kind.
abbrev pub wrap : String → Fault → Fault
wrap prefix (already_done e) = already_done (prefix ++ e)
wrap prefix (cancelled e) = cancelled (prefix ++ e)
wrap prefix (plain e) = plain (prefix ++ e)

abbrev pub message : Fault → String
message (already_done e) = e
message (cancelled e) = e
message (plain e) = e

module _ {W : Type 0} where
  infixl 5 ◌>>=◌ ◌>>◌
  -- Behind a fault, the function returns.
  unfoldable pub ◌>>=◌ : {A B : Type 0} → Run W A → (A → Run W B) → Run W B
  (m >>= f) j =
      let (r, j') = m j in
      elim r [ value a ↦ f a j' | fault e ↦ (fault e, j') | waiting ↦ (waiting, j') ]

  abbrev pub ◌>>◌ : {B : Type 0} → Run W Unit → Run W B → Run W B
  m >> k = m >>= λ _. k

  abbrev pub return : {A : Type 0} → A → Run W A
  return a j = (value a, j)

  abbrev pub raise : {A : Type 0} → Fault → Run W A
  raise e j = (fault e, j)

  abbrev pub set_remote : W → Job W → Job W
  set_remote w j = record j { orchestrator = record j.orchestrator { remote = w } }

  abbrev from_result : {A : Type 0} → (String → Fault) → Job W → Result A × W → Outcome A × Job W
  from_result kind j (ok a, w) = (value a, set_remote w j)
  from_result kind j (err e, w) = (fault (kind e), set_remote w j)

  -- A call of a tool; its error is of the given kind.
  unfoldable pub call : {A : Type 0} → (String → Fault) → Effect W A → Run W A
  call kind m j = from_result kind j (m j.orchestrator.remote)

  -- A call whose error is only logged.
  unfoldable pub call_logged : {A : Type 0} → Effect W A → Run W Unit
  call_logged m j = (value tt, set_remote (m j.orchestrator.remote).1 j)

  unfoldable pub update : (W → W) → Run W Unit
  update f j = (value tt, set_remote (f j.orchestrator.remote) j)

  unfoldable pub set_status : TaskStatus → Run W Unit
  set_status s j = (value tt, record j { status = s })

  -- `task.Status = StatusFailed; task.Result = …; return task.Result.Error`
  abbrev pub give_up : {A : Type 0} → Fault → Run W A
  give_up e j = (fault e, record j { status = failed; result = some (failure (message e)) })

  -- A step of `Process` whose error fails the task.
  unfoldable pub attempt : {A : Type 0} → String → Run W A → Run W A
  attempt prefix m j =
      let (r, j') = m j in
      elim r [
        | value a ↦ (value a, j')
        | fault e ↦ give_up (wrap prefix e) j'
        | waiting ↦ (waiting, j')
      ]

  -- A call whose error the function deals with itself.
  unfoldable pub handle : {A B : Type 0} → Run W A → (A → Run W B) → (Fault → Run W B) → Run W B
  handle m f g j =
      let (r, j') = m j in elim r [ value a ↦ f a j' | fault e ↦ g e j' | waiting ↦ (waiting, j') ]

  -- `reportStageComplete`: the orchestrator handles the event before the call returns.
  unfoldable pub report : Gh W → String → EventStatus → String → Run W Unit
  report gh stage status output j = elim j.orchestrator.current_task [
    | none ↦ (value tt, j)
    | some t ↦
        let e : WorkerEvent = record {
          issue_number = t.issue.number;
          stage = stage;
          status = status;
          output = output;
        } in
        (
          value tt,
          record j {
            orchestrator = handle_worker_event gh e j.orchestrator;
            reported = append j.reported (e ∷ []);
          },
        )
  ]
