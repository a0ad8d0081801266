-- ===== src/Dashboard/Tickets.antt =====
-- internal/dashboard/api_v2.go and handlers.go: the actions on a ticket, of the API and of the pages.
-- A handler takes the `id` of the path (on code points; the pages read it with `Sscanf`, whose number
-- is the argument here, 0 where it reads none) and acts on the orchestrator, whose store is the
-- server's. `Desk` holds the server's fields and the calls of gh and git; log lines are left out.
pub mod Retry
pub mod Decisions
use Prim.Native.String.{◌++◌}
use one_dev_army.Common.{
  ℕ, zero, suc, ◌==◌, Bool, true, false, not, ◌&&◌, ◌||◌, Option, none, some, List, [], ◌∷◌, String,
  str_eq, if◌then◌else◌,
}
use one_dev_army.Common.Int.{ℤ, pos, negsuc}
use one_dev_army.Common.Decimal.{atoi}
use one_dev_army.Common.Effect.{Result, ok, err, Effect}
use one_dev_army.GitHub.Stage.{Stage, backlog, code, approve, merge, done, failed, blocked}
use one_dev_army.GitHub.Reason.{
  StageChangeReason, manual_approve, manual_reject, manual_retry, manual_retry_fresh, manual_block,
  manual_unblock, manual_decline, manual_merge, manual_merge_failed,
}
use one_dev_army.GitHub.Client.{Gh}
use one_dev_army.Mvp.Orchestrator.{
  Orchestrator, UserDecision, Action, queue_manual_process, send_decision,
}
use one_dev_army.Mvp.Orchestrator.Stages.{
  change_stage, restart_current_stage, restart_from_beginning,
}
use one_dev_army.Store.Steps.{insert_step, finish_step, delete_steps}

-- The answer: a status of the API with its error text, or the redirection of a page.
pub data Reply : Type 0 where
  success redirect : Reply
  bad_request unavailable not_found conflict internal_error : String → Reply

-- The flags say which fields of the server are not nil. A branch that is not there is "".
pub record Desk (W : Type 0) : Type 0 where
  pub gh : Gh W
  pub has_orchestrator : Bool
  pub has_gh : Bool
  pub has_store : Bool
  pub has_branches : Bool
  pub find_pr_branch : ℕ → Effect W String
  pub close_pr : String → Effect W (Unit {0})
  pub merge_pr : String → Effect W (Unit {0})
  pub add_comment : ℕ → String → Effect W (Unit {0})
  pub find_branch_of : ℕ → W → String × W
  pub remove_branch : String → Effect W (Unit {0})
  pub checkout_default : W → W

-- `parseIssueID`
abbrev pub positive : Option ℤ → Option ℕ
positive (some (pos (suc n))) = some (suc n)
positive _ = none

unfoldable pub parse_issue_id : List ℕ → Option ℕ
unfolding atoi
parse_issue_id id = positive (atoi id)

abbrev pub Handler : Type 0 → Type 0
Handler W = Orchestrator W → Reply × Orchestrator W

module _ {W : Type 0} (d : Desk W) where
  -- A call on the remote world, its error logged at most.
  abbrev pub remotely : (W → W) → Orchestrator W → Orchestrator W
  remotely f o = record o { remote = f o.remote }

  abbrev pub with_id : Option ℕ → (ℕ → Handler W) → Handler W
  with_id none f o = (bad_request "invalid issue ID", o)
  with_id (some n) f o = f n o

  abbrev pub needs : Bool → String → Handler W → Handler W
  needs b text f o = if b then f o else (unavailable text, o)

  abbrev pub changed : String → Result (Unit {0}) × Orchestrator W → Reply × Orchestrator W
  changed text (ok u, o) = (success, o)
  changed text (err e, o) = (internal_error (text ++ e), o)

  -- `handleApproveV2`, `handleRejectV2`, `handleBlockV2` and `handleUnblockV2`
  unfoldable pub move_v2 : String → Stage → StageChangeReason → List ℕ → Handler W
  unfolding parse_issue_id
  move_v2 text s reason id = with_id (parse_issue_id id) λ n.
      needs (d.has_orchestrator && d.has_gh) "orchestrator or GitHub client not configured"
        λ o. changed text (change_stage d.gh n s reason o)

  abbrev pub handle_approve_v2 : List ℕ → Handler W
  handle_approve_v2 = move_v2 "failed to approve: " approve manual_approve

  abbrev pub handle_reject_v2 : List ℕ → Handler W
  handle_reject_v2 = move_v2 "failed to reject: " backlog manual_reject

  abbrev pub handle_block_v2 : List ℕ → Handler W
  handle_block_v2 = move_v2 "failed to block: " blocked manual_block

  abbrev pub handle_unblock_v2 : List ℕ → Handler W
  handle_unblock_v2 = move_v2 "failed to unblock: " backlog manual_unblock

  -- The pages' handlers of the same actions.
  unfoldable pub move_page : Stage → StageChangeReason → ℕ → Handler W
  move_page s reason n o =
      if n == 0 || not d.has_gh
      then (redirect, o)
      else (redirect, (change_stage d.gh n s reason o).1)

  abbrev pub handle_approve : ℕ → Handler W
  handle_approve = move_page approve manual_approve

  abbrev pub handle_reject : ℕ → Handler W
  handle_reject = move_page backlog manual_reject

  abbrev pub handle_block : ℕ → Handler W
  handle_block = move_page blocked manual_block

  abbrev pub handle_unblock : ℕ → Handler W
  handle_unblock = move_page backlog manual_unblock

  -- The pull request is closed if there is one.
  abbrev pub close_found : Result String × W → W
  close_found (ok branch, w) = (d.close_pr branch w).1
  close_found (err e, w) = w

  unfoldable pub close_open_pr : ℕ → W → W
  close_open_pr n w = close_found (d.find_pr_branch n w)

  unfoldable pub remove_local_branch : ℕ → W → W
  remove_local_branch n w =
      let (branch, w1) = d.find_branch_of n w in
      if d.has_branches then (if str_eq branch "" then w1 else (d.remove_branch branch w1).1) else w

  abbrev pub clear_steps : ℕ → Orchestrator W → Orchestrator W
  clear_steps n o = if d.has_store then record o { steps = delete_steps n o.steps } else o

  -- What the two retries do before the stage changes.
  unfoldable pub prepare_retry : ℕ → Orchestrator W → Orchestrator W
  unfolding close_open_pr remove_local_branch
  prepare_retry n o = clear_steps n (remotely (λ w. remove_local_branch n (close_open_pr n w)) o)

  unfoldable pub retry_with : String → StageChangeReason → List ℕ → Handler W
  unfolding parse_issue_id prepare_retry
  retry_with text reason id = with_id (parse_issue_id id) λ n.
      needs (d.has_orchestrator && d.has_gh) "orchestrator or GitHub client not configured"
        λ o. changed text (change_stage d.gh n backlog reason (prepare_retry n o))

  abbrev pub handle_retry_v2 : List ℕ → Handler W
  handle_retry_v2 = retry_with "failed to retry: " manual_retry

  abbrev pub handle_retry_fresh_v2 : List ℕ → Handler W
  handle_retry_fresh_v2 = retry_with "failed to retry-fresh: " manual_retry_fresh

  unfoldable pub retry_page : StageChangeReason → ℕ → Handler W
  unfolding prepare_retry
  retry_page reason n o =
      if n == 0 || not d.has_gh
      then (redirect, o)
      else (redirect, (change_stage d.gh n backlog reason (prepare_retry n o)).1)

  abbrev pub handle_retry : ℕ → Handler W
  handle_retry = retry_page manual_retry

  abbrev pub handle_retry_fresh : ℕ → Handler W
  handle_retry_fresh = retry_page manual_retry_fresh

  -- `recordStep`: a finished step of that name.
  unfoldable pub record_step : ℕ → String → String → Orchestrator W → Orchestrator W
  record_step n name response o =
      let (id, t) = insert_step n name name "" "" o.steps in
      if d.has_store then record o { steps = finish_step id response t } else o

  -- `handleDirectMergeV2` behind the merge.
  abbrev pub merged : ℕ → String → Result (Unit {0}) × W → Handler W
  merged n branch (ok u, w) o =
      let o1 = (change_stage d.gh n done manual_merge (record o { remote = w })).1 in
      (success, remotely d.checkout_default o1)
  merged n branch (err e, w) o =
      let o1 = record o { remote = (d.close_pr branch w).1 } in
      let o2 = (change_stage d.gh n failed manual_merge_failed o1).1 in
      (
        internal_error ("merge failed: " ++ e),
        remotely
            (λ w1.
              (d.add_comment n
                ("Merge failed (likely conflict). PR closed, task moved to Failed.\n\nError: " ++ e)
                w1).1)
            o2,
      )

  abbrev pub merge_found : ℕ → Result String × W → Handler W
  merge_found n (err e, w) o = (not_found ("no PR found: " ++ e), record o { remote = w })
  merge_found n (ok branch, w) o =
      let o1 = (change_stage d.gh n merge manual_merge (record o { remote = w })).1 in
      merged n branch (d.merge_pr branch o1.remote) o1

  unfoldable pub handle_direct_merge_v2 : ℕ → Handler W
  handle_direct_merge_v2 n o =
      if d.has_gh
      then merge_found n (d.find_pr_branch n o.remote) o
      else (unavailable "GitHub client not configured", o)

  abbrev pub or_merge : ℕ → Result (Unit {0}) × Orchestrator W → Reply × Orchestrator W
  or_merge n (ok u, o) = (success, o)
  or_merge n (err e, o) = handle_direct_merge_v2 n o

  unfoldable pub handle_approve_merge_v2 : List ℕ → Handler W
  unfolding parse_issue_id record_step
  handle_approve_merge_v2 id = with_id (parse_issue_id id) λ n.
      needs d.has_orchestrator "orchestrator not configured" λ o. or_merge n (
        send_decision n (record { action = Action.approve; reason = "" })
          (record_step n "approved" "Manual approval granted" o))

  -- The fallback of a decline, where the worker does not hold the ticket.
  unfoldable pub send_back : ℕ → String → Orchestrator W → Orchestrator W
  send_back n reason o =
      let o1 = (change_stage d.gh n code manual_decline o).1 in
      let o2 =
        if str_eq reason ""
        then o1
        else remotely
            (λ w. (d.add_comment n ("**Declined** — sent back for fixes.\n\n" ++ reason) w).1) o1 in
      clear_steps n o2

  abbrev pub or_send_back : ℕ → String → Result (Unit {0}) × Orchestrator W → Reply × Orchestrator W
  or_send_back n reason (ok u, o) = (success, o)
  or_send_back n reason (err e, o) = (success, send_back n reason o)

  -- With the reason of the decoded body; `none` is a body that is not JSON.
  abbrev pub decline : ℕ → Option String → Handler W
  decline n none o = (bad_request "invalid JSON body", o)
  decline n (some reason) o = or_send_back n reason (
      send_decision n (record { action = Action.decline; reason = reason })
        (record_step n "declined" reason o))

  unfoldable pub handle_decline_v2 : List ℕ → Option String → Handler W
  unfolding parse_issue_id record_step send_back
  handle_decline_v2 id body =
      with_id (parse_issue_id id)
        λ n. needs d.has_orchestrator "orchestrator not configured" (decline n body)

  abbrev pub or_conflict : Result (Unit {0}) × Orchestrator W → Reply × Orchestrator W
  or_conflict (ok u, o) = (success, o)
  or_conflict (err e, o) = (conflict e, o)

  unfoldable pub handle_process_v2 : List ℕ → Handler W
  unfolding parse_issue_id
  handle_process_v2 id = with_id (parse_issue_id id) λ n.
      needs d.has_orchestrator "orchestrator not configured"
        λ o. or_conflict (queue_manual_process n o)

  unfoldable pub handle_restart_stage : ℕ → Handler W
  handle_restart_stage n o =
      if n == 0
      then (bad_request "invalid issue ID", o)
      else (needs d.has_orchestrator "orchestrator not configured"
          (λ o1. or_conflict (restart_current_stage n o1)) o)

  unfoldable pub handle_restart_full : ℕ → Handler W
  unfolding close_open_pr remove_local_branch
  handle_restart_full n o =
      let close = λ (w : W). if d.has_gh then close_open_pr n w else w in
      if n == 0
      then (bad_request "invalid issue ID", o)
      else (needs d.has_orchestrator "orchestrator not configured"
          (λ o1.
            or_conflict
              (restart_from_beginning d.gh n (remotely (λ w. remove_local_branch n (close w)) o1)))
          o)
