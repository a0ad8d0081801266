-- ===== src/Examples/OfDesk.antt =====
-- The tickets, the board and the sync of internal/dashboard on concrete states.
use one_dev_army.Common.{
  ℕ, ◌≡◌, ◌≢◌, ◌↔◌, ◌⊎◌, inl, inr, refl, sym, ap, Bool, true, false, not, Option, none, some, List,
  [], ◌∷◌, String, str_eq, if◌then◌else◌, arith, select, map, length, is_empty, All,
}
use one_dev_army.Common.Decimal.{atoi, read_nat, read_digits}
use one_dev_army.Common.Effect.{Result, ok, err, try}
use one_dev_army.GitHub.Issue.{Issue}
use one_dev_army.GitHub.Stage as GitHubStage
use one_dev_army.GitHub.Reason.{manual_retry}
use one_dev_army.GitHub.Client.{set_stage_label}
use one_dev_army.GitHub.Client
use one_dev_army.Store.Steps.{insert_step, finish_step, get_last_completed_step}
use one_dev_army.Mvp.Orchestrator.{Orchestrator, Task, Action, is_processing, send_decision}
use one_dev_army.Mvp.Orchestrator.Stages.{change_stage, settle}
use one_dev_army.Mvp.Orchestrator.Stages.Changes.{AnswersNumber}
use one_dev_army.Dashboard.Tickets.{
  Desk, success, parse_issue_id, prepare_retry, retry_with, handle_decline_v2,
  handle_approve_merge_v2, handle_direct_merge_v2, record_step,
}
use one_dev_army.Dashboard.Tickets.Retry.{IsRetried, retry_with-IsRetried}
use one_dev_army.Dashboard.Tickets.Decisions.{
  IsForge, handle_decline_v2-delivered, handle_approve_merge_v2-merged,
}
use one_dev_army.Examples.{issue_of, kind_gh, office}

abbrev desk : Desk Bool
desk = record {
  gh = kind_gh;
  has_orchestrator = true;
  has_gh = true;
  has_store = true;
  has_branches = false;
  find_pr_branch = λ n w. (ok "oda-4-fix", w);
  close_pr = λ b w. (ok tt, w);
  merge_pr = λ b w. (ok tt, w);
  add_comment = λ n s w. (ok tt, w);
  find_branch_of = λ n w. ("", w);
  remove_branch = λ b w. (ok tt, w);
  checkout_default = λ w. w;
}

-- The text "4".
abbrev four : List ℕ
four = 52 ∷ []

four_is_id : parse_issue_id four ≡ some 4
unfolding parse_issue_id atoi read_nat read_digits
four_is_id = refl

abbrev answered_number : Result Issue → ℕ
answered_number (ok i) = i.number
answered_number (err e) = 0

answers : AnswersNumber kind_gh
answers n w i e = ap answered_number (sym e)

retried : (retry_with desk "failed to retry: " manual_retry four office).0 ≡ success
unfolding retry_with parse_issue_id atoi read_nat read_digits prepare_retry change_stage settle
    set_stage_label Client.attach Client.get_stage_labels_to_remove Client.join
    GitHubStage.is_stage_label try one_dev_army.Common.Effect.ignore
retried = refl

retry_with-IsRetried_example :
    IsRetried 4 manual_retry office
      (prepare_retry desk 4 office)
      (retry_with desk "failed to retry: " manual_retry four office).1
retry_with-IsRetried_example =
    retry_with-IsRetried desk answers "failed to retry: " manual_retry office refl refl 4 four
      four_is_id retried

abbrev ticket : Task
ticket = record { issue = issue_of 4 ("stage:awaiting-approval" ∷ []); session_id = "" }

-- The worker holds ticket 4 and waits for the user.
abbrev waiting : Orchestrator Bool
waiting = record office { processing = true; current_task = some ticket }

handle_decline_v2-delivered_example :
    ((handle_decline_v2 desk four (some "too slow") waiting).0 ≡ success)
    × ((handle_decline_v2 desk four (some "too slow") waiting).1.decision_ch
        ≡ some (record { action = Action.decline; reason = "too slow" }))
    × ((handle_decline_v2 desk four (some "too slow") waiting).1.remote ≡ waiting.remote)
    × ((handle_decline_v2 desk four (some "too slow") waiting).1.cache ≡ waiting.cache)
    × ((handle_decline_v2 desk four (some "too slow") waiting).1.ledger ≡ waiting.ledger)
    × (get_last_completed_step 4 (handle_decline_v2 desk four (some "too slow") waiting).1.steps
        ≡ "declined")
handle_decline_v2-delivered_example =
    handle_decline_v2-delivered desk 4 four waiting four_is_id refl "too slow" (refl, refl) tt refl

-- A desk whose world says whether the branch of the ticket is merged.
abbrev forge : Desk Bool
forge = record desk { merge_pr = λ b w. (ok tt, str_eq b "oda-4-fix") }

abbrev IsMergedAt : String → Bool → Type 0
IsMergedAt b w = w ≡ str_eq b "oda-4-fix"

forge-IsForge : IsForge forge IsMergedAt
forge-IsForge = record {
  merges = λ b w e. refl;
  labels = λ b. record {
    viewed = λ n w h. h;
    removed = λ n l w h. h;
    added = λ n l w h. h;
    closed = λ n w h. h;
  };
  checked_out = λ b w h. h;
}

-- The worker does not hold the ticket, so that the handler merges.
merges : (handle_approve_merge_v2 forge four office).0 ≡ success
unfolding handle_approve_merge_v2 handle_direct_merge_v2 parse_issue_id atoi read_nat read_digits
    record_step send_decision insert_step finish_step
merges = refl

handle_approve_merge_v2-merged_example :
    let r = handle_approve_merge_v2 forge four office in
    (((is_processing 4 office ≡ true) × (office.decision_ch ≡ none))
      × (r.1.decision_ch ≡ some (record { action = Action.approve; reason = "" })))
    ⊎ ((branch : String) × (w : Bool) × (forge.find_pr_branch 4 office.remote ≡ (ok branch, w))
        × IsMergedAt branch r.1.remote)
handle_approve_merge_v2-merged_example =
    handle_approve_merge_v2-merged forge 4 four office four_is_id refl IsMergedAt forge-IsForge
      merges
