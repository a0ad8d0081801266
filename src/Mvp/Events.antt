-- ===== src/Mvp/Events.antt =====
-- internal/mvp/worker_events.go and `decideNextStage` of orchestrator.go: what the worker reports
-- of a stage, and the stage that follows.
pub mod Transitions
use one_dev_army.Common.{ℕ, Bool, Option, none, some, String, str_eq, if◌then◌else◌}
use one_dev_army.GitHub.Stage.{
  Stage, code, review, create_pr, check_pipeline, approve, merge, done, needs_user,
}
use one_dev_army.GitHub.Stage
use one_dev_army.GitHub.Reason.{
  StageChangeReason, worker_completed_analysis, worker_completed_coding, worker_fixing_from_review,
  worker_completed_code_review, worker_completed_create_pr, worker_completed_check_pipeline,
  check_pipeline_failed, manual_merge, worker_completed_merge, worker_failed, worker_blocked,
}

pub data EventStatus : Type 0 where
  success failed blocked in_progress : EventStatus

pub record WorkerEvent : Type 0 where
  pub issue_number : ℕ
  pub stage : String
  pub status : EventStatus
  pub output : String

abbrev pub Transition : Type 0
Transition = Stage × StageChangeReason

-- A case with the one test `event.Status == EventSuccess`.
abbrev pub on_success : Stage → StageChangeReason → EventStatus → Option Transition
on_success s r success = some (s, r)
on_success s r _ = none

abbrev pub after_coding : EventStatus → Option Transition
after_coding success = some (review, worker_completed_coding)
after_coding in_progress = some (code, worker_fixing_from_review)
after_coding _ = none

abbrev pub after_check : EventStatus → Option Transition
after_check success = some (approve, worker_completed_check_pipeline)
after_check failed = some (code, check_pipeline_failed)
after_check _ = none

-- The `switch` on the stage; `none` falls through to what stands behind it.
abbrev pub by_stage : String → EventStatus → Option Transition
by_stage stage status =
    if str_eq stage "analysis"
    then on_success code worker_completed_analysis status
    else (if str_eq stage "coding"
        then after_coding status
        else (if str_eq stage "code-review"
            then on_success create_pr worker_completed_code_review status
            else (if str_eq stage "create-pr"
                then on_success check_pipeline worker_completed_create_pr status
                else (if str_eq stage "check-pipeline"
                    then after_check status
                    else (if str_eq stage "awaiting-approval"
                        then on_success merge manual_merge status
                        else (if str_eq stage "merge"
                            then on_success done worker_completed_merge status
                            else none))))))

-- The tests behind the `switch`.
abbrev pub by_status : EventStatus → Option Transition
by_status failed = some (Stage.failed, worker_failed)
by_status blocked = some (needs_user, worker_blocked)
by_status _ = none

abbrev pub or_else : Option Transition → Option Transition → Option Transition
or_else (some t) _ = some t
or_else none o = o

-- `none` is the result `("", "", false)`.
unfoldable pub decide_next_stage : WorkerEvent → Option Transition
decide_next_stage e = or_else (by_stage e.stage e.status) (by_status e.status)
