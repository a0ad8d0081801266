-- ===== src/GitHub/Reason.antt =====
-- internal/github/reasons.go: why a stage changed. The constructors are named by their labels.
use one_dev_army.Common.{String}

pub data StageChangeReason : Type 0 where
  manual_approve manual_reject manual_retry manual_retry_fresh manual_block : StageChangeReason
  manual_unblock manual_decline manual_merge manual_merge_failed manual_process : StageChangeReason
  worker_picked_up worker_already_done worker_failed worker_approve : StageChangeReason
  worker_completed_analysis worker_completed_coding worker_completed_code_review : StageChangeReason
  worker_completed_create_pr worker_completed_check_pipeline : StageChangeReason
  check_pipeline_failed worker_completed_merge worker_declined : StageChangeReason
  worker_fixing_from_review worker_needs_user worker_blocked worker_stage_update : StageChangeReason
  sync_initial sync_periodic sync_manual sync_closed_issue sync_merged_pr : StageChangeReason

unfoldable pub label : StageChangeReason → String
label manual_approve = "manual_approve"
label manual_reject = "manual_reject"
label manual_retry = "manual_retry"
label manual_retry_fresh = "manual_retry_fresh"
label manual_block = "manual_block"
label manual_unblock = "manual_unblock"
label manual_decline = "manual_decline"
label manual_merge = "manual_merge"
label manual_merge_failed = "manual_merge_failed"
label manual_process = "manual_process"
label worker_picked_up = "worker_picked_up"
label worker_already_done = "worker_already_done"
label worker_failed = "worker_failed"
label worker_approve = "worker_approve"
label worker_completed_analysis = "worker_completed_analysis"
label worker_completed_coding = "worker_completed_coding"
label worker_completed_code_review = "worker_completed_code_review"
label worker_completed_create_pr = "worker_completed_create_pr"
label worker_completed_check_pipeline = "worker_completed_check_pipeline"
label check_pipeline_failed = "check_pipeline_failed"
label worker_completed_merge = "worker_completed_merge"
label worker_declined = "worker_declined"
label worker_fixing_from_review = "worker_fixing_from_review"
label worker_needs_user = "worker_needs_user"
label worker_blocked = "worker_blocked"
label worker_stage_update = "worker_stage_update"
label sync_initial = "sync_initial"
label sync_periodic = "sync_periodic"
label sync_manual = "sync_manual"
label sync_closed_issue = "sync_closed_issue"
label sync_merged_pr = "sync_merged_pr"

unfoldable pub description : StageChangeReason → String
description manual_approve = "User approved issue via dashboard"
description manual_reject = "User rejected issue via dashboard, moved to backlog"
description manual_retry = "User requested retry via dashboard"
description manual_retry_fresh =
    "User requested fresh retry via dashboard, PR closed and steps cleared"
description manual_block = "User blocked issue via dashboard"
description manual_unblock = "User unblocked issue via dashboard, moved to backlog"
description manual_decline = "User declined PR via dashboard, sent back for fixes"
description manual_merge = "User approved and merged PR via dashboard"
description manual_merge_failed = "Merge failed (likely conflict), PR closed"
description manual_process = "User manually selected ticket for processing via dashboard"
description worker_picked_up = "Orchestrator picked up ticket for processing"
description worker_already_done = "Worker detected ticket already completed, closing"
description worker_failed = "Worker pipeline failed"
description worker_approve = "Worker completed pipeline, awaiting manual approval"
description worker_completed_analysis = "Worker completed analysis, advancing to coding"
description worker_completed_coding = "Worker completed coding, advancing to code-review"
description worker_completed_code_review = "Worker completed code-review, advancing to create-pr"
description worker_completed_create_pr = "Worker completed PR creation, advancing to check pipeline"
description worker_completed_check_pipeline =
    "Worker completed pipeline check, advancing to approval"
description check_pipeline_failed = "CI pipeline checks failed, returning to coding"
description worker_completed_merge = "Worker completed merge, ticket done"
description worker_declined = "User declined PR via worker, sent back for fixes"
description worker_fixing_from_review = "Worker fixing code based on review feedback"
description worker_needs_user = "Worker needs user intervention"
description worker_blocked = "Worker pipeline blocked"
description worker_stage_update = "Worker stage update (async)"
description sync_initial = "Initial sync from GitHub"
description sync_periodic = "Periodic sync from GitHub"
description sync_manual = "Manual sync from GitHub"
description sync_closed_issue = "Sync detected closed issue without stage:done"
description sync_merged_pr = "Sync detected merged PR without stage:merging"
