-- ===== src/Mvp/Orchestrator.antt =====
-- internal/mvp/orchestrator.go: the state of the orchestrator and its operations but the polling
-- loop. The GitHub client acts on a remote world `W`; a failing call of the store is not modelled,
-- and the log lines are left out. `clock` is the time that `time.Now` gives.

pub mod Stages
pub mod Selection
use Prim.Native.String.{◌++◌}
use one_dev_army.Common.{
  ℕ, zero, suc, ◌+◌, ◌==◌, Bool, true, false, not, ◌&&◌, ◌||◌, Option, none, some, List, [], ◌∷◌,
  String, str_eq, starts_with, if◌then◌else◌, any, all, is_empty, first, ltb,
}
use one_dev_army.Common.Text.{equal_fold, lower_is}
use one_dev_army.Common.Effect.{Result, ok, err, Effect, try, ignore, pure, fail}
use one_dev_army.GitHub.Stage.{Stage, backlog, merge, done, code, unset}
use one_dev_army.GitHub.Stage
use one_dev_army.GitHub.Reason.{StageChangeReason, sync_closed_issue, sync_merged_pr, manual_retry}
use one_dev_army.GitHub.Reason
use one_dev_army.GitHub.Issue.{Issue}
use one_dev_army.GitHub.Client.{Gh, set_stage_label}
use one_dev_army.Store.Steps.{Steps, delete_steps, delete_steps_from}
use one_dev_army.Store.Cache.{
  Cache, get_issue_cache, save_issue_cache, get_open_issues_cache_by_milestone,
}
use one_dev_army.Store.Ledger.{Ledger, save_stage_change}
use one_dev_army.Mvp.Events.{WorkerEvent, EventStatus, failed, decide_next_stage}

pub data Broadcast : Type 0 where
  issue_update : Issue → Broadcast
  sprint_closable : Bool → Broadcast

pub data Action : Type 0 where
  approve decline : Action

pub record UserDecision : Type 0 where
  pub action : Action
  pub reason : String

-- The task that the worker holds; of its fields these matter here.
pub record Task : Type 0 where
  pub issue : Issue
  pub session_id : String

pub record Orchestrator (W : Type 0) : Type 0 where
  pub running : Bool
  pub paused : Bool
  pub processing : Bool
  pub current_task : Option Task
  pub manual_next : ℕ
  -- `completionCh` and the worker's `decisionCh`, each with room for one message
  pub completion_ch : Option ℕ
  pub decision_ch : Option UserDecision
  pub stop_closed : Bool
  -- whether `store`, `hub` and `gh` are not nil
  pub has_store : Bool
  pub has_hub : Bool
  pub has_gh : Bool
  pub steps : Steps
  pub cache : Cache
  pub ledger : Ledger
  pub broadcasts : List Broadcast
  -- `GetActiveMilestone().Title`
  pub milestone_title : Option String
  pub clock : ℕ
  pub remote : W

module _ {W : Type 0} where
  unfoldable pub start : Orchestrator W → Orchestrator W
  start o = record o { paused = false }

  unfoldable pub pause : Orchestrator W → Orchestrator W
  pause o = record o { paused = true }

  -- A second call closes a closed channel, which is a panic: `none`.
  unfoldable pub stop : Orchestrator W → Option (Orchestrator W)
  stop o = if o.stop_closed then none else some (record o { running = false; stop_closed = true })

  -- `o.currentTask != nil && o.currentTask.Issue.Number == issueNumber`
  abbrev pub is_processing : ℕ → Orchestrator W → Bool
  is_processing n o = elim o.current_task [ none ↦ false | some t ↦ t.issue.number == n ]

  unfoldable pub queue_manual_process : ℕ → Effect (Orchestrator W) Unit
  queue_manual_process n o =
      if is_processing n o
      then (err "ticket is already being processed", o)
      else (ok tt, record o { manual_next = n; paused = false })

  -- The `select` with a `default` never blocks: a full channel is an error.
  unfoldable pub send_decision : ℕ → UserDecision → Effect (Orchestrator W) Unit
  send_decision n d o =
      if is_processing n o
      then (elim o.decision_ch [
        | none ↦ (ok tt, record o { decision_ch = some d })
        | some _ ↦ (err "decision channel full (worker may not be waiting)", o)
      ])
      else (err "worker is not processing issue", o)

  unfoldable pub notify_ticket_completed : ℕ → Orchestrator W → Orchestrator W
  notify_ticket_completed n o = elim o.completion_ch [
    | none ↦ record o { completion_ch = some n }
    | some _ ↦ o
  ]

-- `getStageLabel`: the first label with the prefix, or "".
unfoldable pub get_stage_label : Issue → String
get_stage_label i = elim (first (λ l. starts_with l "stage:") i.labels) [ none ↦ "" | some l ↦ l ]

-- `getStageFromIssue`: an error where there is no such label.
unfoldable pub get_stage_from_issue : Issue → Option String
get_stage_from_issue i = first (λ l. starts_with l "stage:") i.labels

unfoldable pub is_worker_stage : String → Bool
is_worker_stage s =
    str_eq s "stage:analysis"
    || str_eq s "stage:coding"
    || str_eq s "stage:code-review"
    || str_eq s "stage:create-pr"
    || str_eq s "stage:check-pipeline"
    || str_eq s "stage:awaiting-approval"

unfoldable pub has_label : Issue → String → Bool
has_label i name = any (λ l. str_eq l name) i.labels

unfoldable pub stage_to_step_name : String → String
stage_to_step_name s =
    if str_eq s "stage:analysis"
    then "technical-planning"
    else (if str_eq s "stage:coding"
        then "implement"
        else (if str_eq s "stage:code-review"
            then "code-review"
            else (if str_eq s "stage:create-pr"
                then "create-pr"
                else (if str_eq s "stage:check-pipeline"
                    then "check-pipeline"
                    else (if str_eq s "stage:awaiting-approval"
                        then "awaiting-approval"
                        else (if str_eq s "stage:merging" then "merge" else ""))))))

abbrev pub is_failed_label : String → Bool
is_failed_label l = lower_is l "stage:failed" || lower_is l "failed"

abbrev pub active_labels : List String
active_labels =
    "stage:blocked" ∷ "blocked" ∷ "stage:merging" ∷ "stage:awaiting-approval" ∷ "awaiting-approval"
    ∷ "stage:create-pr" ∷ "stage:code-review" ∷ "stage:coding" ∷ "stage:testing" ∷ "in-progress"
    ∷ "stage:analysis" ∷ "stage:planning" ∷ "stage:check-pipeline" ∷ []

unfoldable pub infer_column_for_closable_check : Issue → String
infer_column_for_closable_check i =
    if any is_failed_label i.labels
    then "Failed"
    else (if equal_fold i.state "CLOSED"
        then "Done"
        else (if any (λ l. any (lower_is l) active_labels) i.labels then "Active" else "Backlog"))
