-- ===== src/Mvp/Orchestrator/Stages.antt =====
-- internal/mvp/orchestrator.go: `ChangeStage`, through which every stage changes, and its callers:
-- the events of the worker, the events of the sync, and the two restarts.
pub mod Closable
pub mod Changes
pub mod Restart
pub mod Sync
pub mod Remote
use Prim.Native.String.{◌++◌}
use one_dev_army.Common.{
  ℕ, suc, ◌+◌, ◌==◌, Bool, true, false, not, ◌&&◌, ◌||◌, Option, none, some, List, [], ◌∷◌,
  ◌++◌ as append, String, str_eq, if◌then◌else◌, any, all, is_empty,
}
use one_dev_army.Common.Text.{equal_fold}
use one_dev_army.Common.Effect.{Result, ok, err, Effect, try, ignore, pure, fail}
use one_dev_army.GitHub.Stage.{Stage, backlog, merge, done, code}
use one_dev_army.GitHub.Stage as GitHubStage
use one_dev_army.GitHub.Reason.{StageChangeReason, sync_closed_issue, sync_merged_pr, manual_retry}
use one_dev_army.GitHub.Reason
use one_dev_army.GitHub.Issue.{Issue}
use one_dev_army.GitHub.Client.{Gh, set_stage_label}
use one_dev_army.Store.Steps.{delete_steps, delete_steps_from}
use one_dev_army.Store.Cache.{get_issue_cache, save_issue_cache, get_open_issues_cache_by_milestone}
use one_dev_army.Store.Ledger.{save_stage_change}
use one_dev_army.Mvp.Events.{WorkerEvent, EventStatus, decide_next_stage}
use one_dev_army.Mvp.Orchestrator.{
  Orchestrator, Task, Broadcast, issue_update, sprint_closable, is_processing, get_stage_label,
  get_stage_from_issue, is_worker_stage, has_label, stage_to_step_name,
  infer_column_for_closable_check,
}

abbrev pub or_empty : Option String → String
or_empty none = ""
or_empty (some s) = s

abbrev pub is_terminal : Issue → Bool
is_terminal i =
    str_eq (infer_column_for_closable_check i) "Done"
    || str_eq (infer_column_for_closable_check i) "Failed"

-- `toStage == github.StageDone || toStage == github.StageFailed`
abbrev pub ends_ticket : Stage → Bool
ends_ticket done = true
ends_ticket GitHubStage.failed = true
ends_ticket _ = false

abbrev pub is_code : Stage → Bool
is_code code = true
is_code _ = false

abbrev pub is_failed_event : EventStatus → Bool
is_failed_event EventStatus.failed = true
is_failed_event _ = false

-- `MergedAt.IsZero()`, `none` where the pointer is nil: the call panics. The zero time is 0 here.
abbrev pub is_zero_time : Option ℕ → Option Bool
is_zero_time none = none
is_zero_time (some t) = some (t == 0)

module _ {W : Type 0} where
  -- `activeMilestone`
  unfoldable pub active_milestone : Orchestrator W → String
  active_milestone o = if o.has_gh then or_empty o.milestone_title else ""

  abbrev pub broadcast : Broadcast → Orchestrator W → Orchestrator W
  broadcast b o = record o { broadcasts = append o.broadcasts (b ∷ []) }

  -- Each early `return` leaves the broadcasts as they are.
  unfoldable pub check_and_broadcast_sprint_closable : Orchestrator W → Orchestrator W
  unfolding active_milestone
  check_and_broadcast_sprint_closable o =
      let issues = get_open_issues_cache_by_milestone (active_milestone o) o.cache in
      record o {
        broadcasts =
            if not o.has_hub || not o.has_store
            then o.broadcasts
            else (if str_eq (active_milestone o) ""
                then o.broadcasts
                else (if is_empty issues
                    then o.broadcasts
                    else (if all is_terminal issues
                        then append o.broadcasts (sprint_closable true ∷ [])
                        else o.broadcasts)));
      }

  -- The stage that the cache knows, for the ledger.
  unfoldable pub cached_stage : ℕ → Orchestrator W → String
  cached_stage n o =
      if o.has_store
      then (elim (get_issue_cache n o.cache) [
        | none ↦ "unknown"
        | some i ↦ elim (get_stage_from_issue i) [ none ↦ "unknown" | some s ↦ s ]
      ])
      else "unknown"

  -- What `ChangeStage` does with the issue that GitHub has relabelled, step by step.
  unfoldable pub update_cache : Issue → Orchestrator W → Orchestrator W
  update_cache i o = record o {
    cache =
        if o.has_store
        then save_issue_cache (record i { updated_at = some o.clock }) (active_milestone o) true
            o.cache
        else o.cache;
  }

  -- The issue that is broadcast carries the new time if there is a store.
  unfoldable pub announce : Issue → Orchestrator W → Orchestrator W
  announce i o =
      let stamped = if o.has_store then record i { updated_at = some o.clock } else i in
      record o {
        broadcasts =
            if o.has_hub then append o.broadcasts (issue_update stamped ∷ []) else o.broadcasts;
      }

  unfoldable pub check_closable : Stage → Orchestrator W → Orchestrator W
  check_closable s o = record o {
    broadcasts =
        if ends_ticket s then (check_and_broadcast_sprint_closable o).broadcasts else o.broadcasts;
  }

  unfoldable pub record_change :
      ℕ → String → Stage → StageChangeReason → Orchestrator W → Orchestrator W
  record_change n from s reason o = record o {
    ledger =
        if o.has_store
        then save_stage_change o.clock n from (GitHubStage.label s) (Reason.label reason)
            "orchestrator" o.ledger
        else o.ledger;
  }

  unfoldable pub commit :
      ℕ → String → Stage → StageChangeReason → Issue → Orchestrator W → Orchestrator W
  unfolding update_cache announce check_closable record_change
  commit n from s reason i o =
      record_change n from s reason (check_closable s (announce i (update_cache i o)))

  -- `ChangeStage` behind the answer of GitHub.
  unfoldable pub settle :
      ℕ
      → Stage
      → StageChangeReason
      → Orchestrator W
      → Result Issue × W
      → Result Unit × Orchestrator W
  settle n s reason o (ok i, w) =
      (ok tt, commit n (cached_stage n o) s reason i (record o { remote = w }))
  settle n s reason o (err e, w) = (err ("setting stage: " ++ e), record o { remote = w })

  module _ (gh : Gh W) where
    unfoldable pub change_stage : ℕ → Stage → StageChangeReason → Effect (Orchestrator W) Unit
    unfolding settle
    change_stage n s reason o =
        if o.has_gh
        then settle n s reason o (set_stage_label gh n s o.remote)
        else (err "github client not configured", o)

    -- An event that gives no transition changes nothing; the error of `ChangeStage` is logged.
    unfoldable pub handle_worker_event : WorkerEvent → Orchestrator W → Orchestrator W
    handle_worker_event e o = elim (decide_next_stage e) [
      | none ↦ o
      | some (s, reason) ↦
          let retries = str_eq e.stage "check-pipeline" && is_failed_event e.status && is_code s in
          let o1 =
            if retries && o.has_store
            then record o { steps = delete_steps_from e.issue_number "implement" o.steps }
            else o in
          (change_stage e.issue_number s reason o1).1
    ]

    -- What follows the test of the time, where the pull request is merged.
    abbrev pub on_merge_time : Issue → Orchestrator W → Option Bool → Option (Orchestrator W)
    on_merge_time i o none = none
    on_merge_time i o (some true) = some o
    on_merge_time i o (some false) =
        if has_label i "stage:merging"
        then some o
        else some (change_stage i.number merge sync_merged_pr o).1

    -- `none` is the panic at a merged pull request without a time.
    unfoldable pub handle_sync_event : Issue → Orchestrator W → Option (Orchestrator W)
    handle_sync_event i o =
        if is_processing i.number o
        then some o
        else (if equal_fold i.state "CLOSED"
            then (if has_label i "stage:done"
                then some o
                else some (change_stage i.number done sync_closed_issue o).1)
            else (if i.pr_merged then on_merge_time i o (is_zero_time i.merged_at) else some o))

    unfoldable pub restart_from_beginning : ℕ → Effect (Orchestrator W) Unit
    restart_from_beginning n o =
        if is_processing n o
        then (err "cannot restart task while it is actively being processed", o)
        else (let o1 = if o.has_store then record o { steps = delete_steps n o.steps } else o in
            try (λ e. "resetting stage to backlog: " ++ e) (change_stage n backlog manual_retry)
              pure o1)

  -- `o.currentTask.SetSessionID("")`
  abbrev pub clear_session : Orchestrator W → Orchestrator W
  clear_session o = elim o.current_task [
    | none ↦ o
    | some t ↦ record o { current_task = some (record t { session_id = "" }) }
  ]

  -- The end of `RestartCurrentStage`, with the stage and the step known.
  abbrev pub restart_step : ℕ → String → Issue → Effect (Orchestrator W) Unit
  restart_step n step i o =
      let o1 = record o { steps = delete_steps_from n step o.steps } in
      let o2 = if is_processing n o1 then clear_session o1 else o1 in
      (ok tt, if o2.has_hub then broadcast (issue_update i) o2 else o2)

  abbrev pub restart_issue : ℕ → Issue → Effect (Orchestrator W) Unit
  restart_issue n i o =
      let stage = get_stage_label i in
      if str_eq stage ""
      then (err "issue has no stage label", o)
      else (if is_worker_stage stage
          then (if str_eq (stage_to_step_name stage) ""
              then (err "unknown stage", o)
              else restart_step n (stage_to_step_name stage) i o)
          else (err "cannot restart stage: not an active worker stage", o))

  unfoldable pub restart_current_stage : ℕ → Effect (Orchestrator W) Unit
  restart_current_stage n o =
      if is_processing n o
      then (err "cannot restart stage while task is actively being processed", o)
      else (if o.has_store
          then (elim (get_issue_cache n o.cache) [
            | none ↦ (err "getting issue from cache: issue not found in cache", o)
            | some i ↦ restart_issue n i o
          ])
          else (err "store not configured", o))
