-- ===== src/Examples/OfMvp.antt =====
-- The orchestrator of internal/mvp on concrete states.
use one_dev_army.Common.{
  ℕ, inl, inr, ◌<◌, ◌≤◌, ◌≡◌, ◌≢◌, refl, sym, ap, Bool, true, false, not, ◌&&◌, ◌==◌, if◌then◌else◌,
  Option, none, some, List, [], ◌∷◌, String, str_eq, is_empty, all, All, first, select, arith,
}
use one_dev_army.Common.Effect.{Result, ok, err, try}
use one_dev_army.GitHub.Issue.{Issue}
use one_dev_army.GitHub.Stage.{Stage, code, unset, get_stage_from_labels, stage_from_label}
use one_dev_army.GitHub.Reason.{manual_retry}
use one_dev_army.GitHub.Client.{Gh, set_stage_label}
use one_dev_army.GitHub.Client
use one_dev_army.GitHub.Stage as GitHubStage
use one_dev_army.Store.Cache.{save_issue_cache}
use one_dev_army.Mvp.Orchestrator.{Orchestrator, sprint_closable, get_stage_label, is_worker_stage}
use one_dev_army.Mvp.Orchestrator.Stages.{
  active_milestone, broadcast, check_and_broadcast_sprint_closable, change_stage, settle,
}
use one_dev_army.Mvp.Orchestrator.Stages.Closable.{
  open_issues, is_marked_failed, check_and_broadcast_sprint_closable_lem,
}
use one_dev_army.Mvp.Orchestrator.Stages.Changes.{AnswersNumber, IsMoved, change_stage-IsMoved}
use one_dev_army.Mvp.Orchestrator.Selection.{pick_issue}
use one_dev_army.Mvp.Orchestrator.Selection.Choice.{
  waits, is_begun, pick_issue-found, pick_issue-manual,
}
use one_dev_army.Common.Text.{equal_fold, codes, lower, codes_eq, lower_is}
use one_dev_army.Dashboard.Board.{Column, same, column_name}
use one_dev_army.Dashboard.Board.Labels.{IsPlain}
use one_dev_army.Dashboard.Board.Moved.{cards_of, change_stage-shown}
use one_dev_army.Examples.{issue_of, kind_gh, office}

code-≢-unset : code ≢ unset
code-≢-unset e = cc

abbrev number_in : Result Issue → ℕ
number_in (ok i) = i.number
number_in (err e) = 0

kind_gh-AnswersNumber : AnswersNumber kind_gh
kind_gh-AnswersNumber n w i e = ap number_in (sym e)

moves : (change_stage kind_gh 4 code manual_retry office).0 ≡ ok tt
unfolding change_stage settle set_stage_label Client.attach Client.get_stage_labels_to_remove
    Client.join GitHubStage.is_stage_label try one_dev_army.Common.Effect.ignore
moves = refl

change_stage-IsMoved_example :
    IsMoved 4 code manual_retry office (change_stage kind_gh 4 code manual_retry office).1
change_stage-IsMoved_example =
    change_stage-IsMoved kind_gh kind_gh-AnswersNumber 4 code manual_retry office code-≢-unset refl
      moves

-- What GitHub answers for ticket 4.
abbrev viewed : Issue
viewed = issue_of 4 ("bug" ∷ "stage:coding" ∷ [])

viewed-IsPlain : IsPlain viewed
unfolding GitHubStage.is_stage_label lower_is codes lower codes_eq
viewed-IsPlain = (
  refl,
  (
    refl,
    (
      refl,
      (
        refl,
        (refl, (refl, (refl, (refl, (refl, (refl, (refl, (refl, (refl, (refl, (refl, tt))))))))))),
      ),
    ),
  ),
)

viewed_open : equal_fold viewed.state "CLOSED" ≡ false
unfolding equal_fold codes lower codes_eq
viewed_open = refl

change_stage-shown_example :
    ((c : Column)
      → cards_of kind_gh kind_gh-AnswersNumber 4 code manual_retry office code-≢-unset refl
          (omega arith)
          viewed
          refl
          viewed_open
          viewed-IsPlain
          (change_stage kind_gh 4 code manual_retry office).1
          c
        ≡ (if same c Column.code then (4, "Fix the bug", Column.code) ∷ [] else []))
    × (code ≢ GitHubStage.needs_user → column_name Column.code ≡ GitHubStage.column code)
change_stage-shown_example =
    change_stage-shown kind_gh kind_gh-AnswersNumber 4 code manual_retry office code-≢-unset refl
      (omega arith) viewed refl viewed_open viewed-IsPlain moves

abbrev begun : Issue
begun = issue_of 4 ("stage:coding" ∷ [])

abbrev fresh : Issue
fresh = issue_of 6 ("bug" ∷ [])

abbrev stocked : Orchestrator Bool
stocked = record office { cache = save_issue_cache begun "Sprint 1" true [] }

check_and_broadcast_sprint_closable_example : check_and_broadcast_sprint_closable stocked ≡ (
    if true
      && true
      && not (str_eq (active_milestone stocked) "")
      && not (is_empty (open_issues stocked))
      && all is_marked_failed (open_issues stocked)
    then broadcast (sprint_closable true) stocked
    else stocked)
check_and_broadcast_sprint_closable_example = check_and_broadcast_sprint_closable_lem stocked

abbrev silent : List Issue → Option ℕ
silent is = none

abbrev backlog_issues : List Issue
backlog_issues = issue_of 5 [] ∷ fresh ∷ []

abbrev asked : Orchestrator Bool
asked = record office { manual_next = 6 }

none_begun : first is_begun backlog_issues ≡ none
unfolding get_stage_label is_worker_stage equal_fold codes lower codes_eq
none_begun = refl

is_waiting : first (λ j. j.number == 6) (select waits backlog_issues) ≡ some fresh
unfolding get_stage_label equal_fold codes lower codes_eq
is_waiting = refl

manual_found : (pick_issue silent backlog_issues asked).0.next_issue ≡ some fresh
manual_found = (pick_issue-manual silent backlog_issues asked none_begun (omega arith) is_waiting).0

abbrev IsKnown : Issue → Type 0
IsKnown i = i.number ≤ 6

pick_issue-found_example :
    IsKnown fresh
    × ((if (pick_issue silent backlog_issues asked).0.is_resume
          then is_begun fresh
          else waits fresh)
        ≡ true)
pick_issue-found_example =
    pick_issue-found silent backlog_issues asked IsKnown (omega arith, (omega arith, tt))
      manual_found
