-- ===== src/Mvp/Round.antt =====
-- internal/mvp/orchestrator.go: one round of `Run`, from the milestone to the outcome of the worker.
-- The waits between the rounds, the log monitor and the goroutine that listens for completions are
-- left out. `llm` is the model's choice of a ticket.
pub mod Outcomes
use Prim.Native.String.{◌++◌}
use one_dev_army.Common.{
  ℕ, Bool, true, false, not, Option, none, some, List, [], String, if◌then◌else◌,
}
use one_dev_army.Common.Effect.{Result, ok, err, Effect, ignore}
use one_dev_army.GitHub.Stage.{Stage, plan, done}
use one_dev_army.GitHub.Stage as GitHubStage
use one_dev_army.GitHub.Reason.{
  StageChangeReason, worker_picked_up, worker_already_done, worker_failed,
}
use one_dev_army.GitHub.Issue.{Issue}
use one_dev_army.Store.Steps.{insert_step, finish_step}
use one_dev_army.Store.Cache.{get_open_issues_cache_by_milestone}
use one_dev_army.Mvp.Orchestrator.{Orchestrator, Task}
use one_dev_army.Mvp.Orchestrator.Stages.{change_stage}
use one_dev_army.Mvp.Orchestrator.Selection.{Pick, pick_issue}
use one_dev_army.Mvp.Worker.{
  TaskStatus, Fault, already_done, cancelled, plain, Outcome, value, fault, waiting, Job, Tools,
  message,
}
use one_dev_army.Mvp.Worker
use one_dev_army.Mvp.Worker.Process.{Config, process}

-- How a round ends: `Run` returns, nothing was taken up, or an issue was taken up. `busy` is a round
-- whose worker the fuel cut off.
pub data RoundEnd : Type 0 where
  stopped idle busy : RoundEnd
  processed : Issue → RoundEnd

module _ {W : Type 0} where
  -- `recordStep`: a row that is done at once.
  unfoldable pub record_step : ℕ → String → String → Orchestrator W → Orchestrator W
  record_step n name response o =
      let (id, t) = insert_step n name name "" "" o.steps in
      record o { steps = if o.has_store then finish_step id response t else o.steps }

  module _ (tools : Tools W) where
    -- A `ChangeStage` whose error is logged.
    abbrev pub move : ℕ → Stage → StageChangeReason → Orchestrator W → Orchestrator W
    move n s reason o = (change_stage tools.gh n s reason o).1

    abbrev pub on_remote : {A : Type 0} → Effect W A → Orchestrator W → Orchestrator W
    on_remote m o = record o { remote = (m o.remote).1 }

    abbrev pub is_already_done : Fault → Bool
    is_already_done (already_done _) = true
    is_already_done _ = false

    -- The `switch` on the worker's error.
    unfoldable pub settle_failure : ℕ → Fault → Orchestrator W → Orchestrator W
    settle_failure n e o =
        if is_already_done e
        then move n done worker_already_done (
            on_remote
              (tools.add_comment n
                ("Ticket already done — closing automatically.\n\n" ++ message e))
              (record_step n "already-done" (message e) o))
        else move n GitHubStage.failed worker_failed (record_step n "failed" (message e) o)

    abbrev pub settle_round : Issue → Outcome Unit × Orchestrator W → RoundEnd × Orchestrator W
    settle_round i (value _, o) =
        (processed i, record_step i.number "done" "Ticket completed and merged" o)
    settle_round i (fault e, o) = (processed i, settle_failure i.number e o)
    settle_round i (waiting, o) = (busy, o)

    -- The worker on the issue; the task is the orchestrator's for as long as it lasts.
    unfoldable pub work : Config → ℕ → ℕ → Issue → Orchestrator W → Outcome Unit × Orchestrator W
    work cfg polls rounds i o =
        let task : Task = record { issue = i; session_id = "" } in
        let o1 = record o { processing = true; current_task = some task } in
        let job : Job W = record {
          orchestrator = o1;
          status = TaskStatus.pending;
          result = none;
          branch = "";
          reported = [];
        } in
        let (r, j) = process tools cfg i polls rounds job in
        (r, record j.orchestrator { processing = false; current_task = none })

    -- An issue that is taken up: a new one goes to `stage:analysis`, one that is resumed keeps its
    -- stage.
    unfoldable pub take_up : Pick → Issue → Orchestrator W → Orchestrator W
    take_up p i o =
        let o1 = on_remote (tools.gh.remove_label i.number "merge-failed") o in
        if p.is_resume then o1 else move i.number plan worker_picked_up o1

    module _ (llm : List Issue → Option ℕ) (cfg : Config) (polls rounds : ℕ) where
      abbrev pub on_issue : Pick → Option Issue → Orchestrator W → RoundEnd × Orchestrator W
      on_issue p none o = (idle, o)
      on_issue p (some i) o = settle_round i (work cfg polls rounds i (take_up p i o))

      abbrev pub on_milestone : Result (Option String) → Orchestrator W → RoundEnd × Orchestrator W
      on_milestone (err e) o = (idle, o)
      on_milestone (ok none) o = (idle, o)
      on_milestone (ok (some title)) o =
          let (p, o') = pick_issue llm (get_open_issues_cache_by_milestone title o.cache) o in
          on_issue p p.next_issue o'

      unfoldable pub round : Effect W (Option String) → Orchestrator W → RoundEnd × Orchestrator W
      round oldest_milestone o =
          let (m, w) = oldest_milestone o.remote in
          if not o.running
          then (stopped, o)
          else (if o.paused then (idle, o) else on_milestone m (record o { remote = w }))
