-- ===== src/Mvp/Events/Transitions.antt =====
-- The transitions that the orchestrator takes on the events of its worker.
use one_dev_army.Common.{
  ℕ, ◌≤◌, ◌≡◌, ◌≢◌, refl, Option, none, some, String, str_eq, eq_iff, arith, if◌then◌else◌,
}
use one_dev_army.GitHub.Stage.{code, needs_user}
use one_dev_army.GitHub.Stage as GitHubStage
use one_dev_army.GitHub.Reason.{
  check_pipeline_failed, worker_failed, worker_blocked, worker_fixing_from_review,
}
use one_dev_army.Pipeline.Stage.{
  Stage, queued, analysis, coding, code_review, create_pr, check_pipeline, approve, rank, text,
  label, next,
}
use one_dev_army.Mvp.Events.{
  EventStatus, success, failed, blocked, in_progress, WorkerEvent, Transition, decide_next_stage,
  or_else, by_stage, by_status,
}

-- The label of the stage that a transition leads to.
abbrev pub label_of : Option Transition → Option String
label_of none = none
label_of (some (s, _)) = some (GitHubStage.label s)

abbrev pub event : ℕ → String → EventStatus → String → WorkerEvent
event n stage status output = record {
  issue_number = n;
  stage = stage;
  status = status;
  output = output;
}

-- On the success of a stage from `analysis` to `awaiting-approval`, the orchestrator sets the label
-- of the stage that the pipeline's order puts next.
pub decide-next :
    (s : Stage) (n : ℕ) (output : String)
    → 1 ≤ rank s
    → rank s ≤ 6
    → label_of (decide_next_stage (event n (text s) success output)) ≡ some (label (next s))
unfolding decide_next_stage text label next GitHubStage.label
decide-next queued n output h k = absurd (omega arith)
decide-next analysis n output h k = refl
decide-next coding n output h k = refl
decide-next code_review n output h k = refl
decide-next create_pr n output h k = refl
decide-next check_pipeline n output h k = refl
decide-next approve n output h k = refl
decide-next s n output h k = absurd (omega arith)

-- What an event that is no success leads to, read off its status: a failure goes to `failed`, but
-- back to coding for the CI checks; a block asks for the user; work in progress changes the stage
-- for coding alone.
abbrev pub setback : EventStatus → String → Option Transition
setback success stage = none
setback failed stage =
    if str_eq stage "check-pipeline"
    then some (code, check_pipeline_failed)
    else some (GitHubStage.failed, worker_failed)
setback blocked stage = some (needs_user, worker_blocked)
setback in_progress stage =
    if str_eq stage "coding" then some (code, worker_fixing_from_review) else none

decide_by-status :
    (stage : String) (status : EventStatus)
    → status ≢ success
    → or_else (by_stage stage status) (by_status status) ≡ setback status stage
decide_by-status stage success h = absurd (h refl)
decide_by-status stage failed h = ground (
  arith,
  eq_iff stage "analysis",
  eq_iff stage "coding",
  eq_iff stage "code-review",
  eq_iff stage "create-pr",
  eq_iff stage "check-pipeline",
  eq_iff "analysis" "check-pipeline",
  eq_iff "coding" "check-pipeline",
  eq_iff "code-review" "check-pipeline",
  eq_iff "create-pr" "check-pipeline",
)
decide_by-status stage blocked h = ground arith
decide_by-status stage in_progress h =
    ground (arith, eq_iff stage "analysis", eq_iff stage "coding", eq_iff "analysis" "coding")

-- Every event that is no success has exactly that effect, whatever stage it names.
pub decide-setback :
    (e : WorkerEvent) → e.status ≢ success → decide_next_stage e ≡ setback e.status e.stage
unfolding decide_next_stage
decide-setback e h = decide_by-status e.stage e.status h
