-- ===== src/Dashboard/Board.antt =====
-- internal/dashboard/handlers.go: the data of the board. A ticket's column comes from its labels and
-- its state. The ten lists of cards are one function of the column; the numbers of the worker pool and
-- of the settings, which are shown as they are, and the percentage are left out, as are the log lines.
-- The cache is read without failing. The task's status is an argument, for the task has no field of it.
pub mod Columns
pub mod Closing
pub mod Announced
pub mod Labels
pub mod Once
pub mod Moved
use one_dev_army.Common.{
  ℕ, ◌+◌, ◌==◌, Bool, true, false, not, ◌&&◌, ◌||◌, Option, none, some, List, [], ◌∷◌, ◌++◌, String,
  str_eq, starts_with, if◌then◌else◌, any, is_empty, length,
}
use one_dev_army.Common.Text.{equal_fold, lower_is}
use one_dev_army.GitHub.Issue.{Issue, get_assignee, get_label_names}
use one_dev_army.Store.Cache.{Cache, get_issues_cache_by_milestone}
use one_dev_army.Store.Steps.{Steps, get_step_response}
use one_dev_army.Mvp.Orchestrator.{Orchestrator}

pub data Column : Type 0 where
  backlog blocked plan code ai_review check_pipeline approve merge done failed : Column

abbrev pub index : Column → ℕ
index backlog = 0
index blocked = 1
index plan = 2
index code = 3
index ai_review = 4
index check_pipeline = 5
index approve = 6
index merge = 7
index done = 8
index failed = 9

-- The texts of the constants, which are the board's names of the columns.
unfoldable pub column_name : Column → String
column_name backlog = "Backlog"
column_name blocked = "Blocked"
column_name plan = "Plan"
column_name code = "Code"
column_name ai_review = "AI Review"
column_name check_pipeline = "Pipeline"
column_name approve = "Approve"
column_name merge = "Merge"
column_name done = "Done"
column_name failed = "Failed"

abbrev pub same : Column → Column → Bool
same c d = index c == index d

-- `labelSet[l]`: the set holds the labels in lower case.
abbrev pub in_set : String → Issue → Bool
in_set l issue = any (λ x. lower_is x l) (get_label_names issue)

unfoldable pub infer_column_from_issue : Issue → Column
unfolding get_label_names
infer_column_from_issue issue =
    if in_set "stage:blocked" issue || in_set "blocked" issue
    then blocked
    else (if in_set "stage:failed" issue || in_set "failed" issue
        then failed
        else (if in_set "stage:merging" issue
            then merge
            else (if in_set "stage:awaiting-approval" issue || in_set "awaiting-approval" issue
                then approve
                else (if in_set "stage:check-pipeline" issue
                    then check_pipeline
                    else (if in_set "stage:create-pr" issue || in_set "stage:code-review" issue
                        then ai_review
                        else (if in_set "stage:coding" issue
                              || in_set "stage:testing" issue
                              || in_set "in-progress" issue
                            then code
                            else (if in_set "stage:analysis" issue || in_set "stage:planning" issue
                                then plan
                                else (if equal_fold issue.state "CLOSED"
                                    then done
                                    else backlog))))))))

pub record TaskCard : Type 0 where
  pub id : ℕ
  pub title : String
  pub status : Column
  pub assignee : String
  pub labels : List String
  pub pr_url : String
  pub is_merged : Bool

abbrev pub Cards : Type 0
Cards = Column → List TaskCard

-- The card of an issue; only the approval column looks for the pull request.
unfoldable pub card_of : Option Steps → Column → Issue → TaskCard
unfolding get_assignee get_label_names get_step_response
card_of store col issue = record {
  id = issue.number;
  title = issue.title;
  status = col;
  assignee = get_assignee issue;
  labels = get_label_names issue;
  pr_url = elim store [
    | none ↦ ""
    | some steps ↦ if same col approve then get_step_response issue.number "create-pr" steps else ""
  ];
  is_merged = issue.pr_merged;
}

unfoldable pub add_card_to_column : Option Steps → Cards → Column → Issue → Cards
unfolding card_of
add_card_to_column store cards col issue c =
    if same c col then cards c ++ (card_of store col issue ∷ []) else cards c

abbrev pub add_all : Option Steps → Cards → List Issue → Cards
add_all store cards [] = cards
add_all store cards (i ∷ is) =
    add_all store (add_card_to_column store cards (infer_column_from_issue i) i) is

abbrev pub no_cards : Cards
no_cards _ = []

pub record BoardData : Type 0 where
  pub paused : Bool
  pub processing : Bool
  pub can_close_sprint : Bool
  pub can_plan_sprint : Bool
  pub sprint_name : String
  pub cards : Cards
  pub total_tickets : ℕ
  pub completed_tickets : ℕ

abbrev pub can_close : Bool → Cards → Bool
can_close busy cards =
    not busy
    && is_empty (cards blocked)
    && is_empty (cards backlog)
    && is_empty (cards plan)
    && is_empty (cards code)
    && is_empty (cards ai_review)
    && is_empty (cards check_pipeline)
    && is_empty (cards approve)
    && is_empty (cards merge)
    && is_empty (cards failed)
    && not (is_empty (cards done))

abbrev pub title_or_empty : Option String → String
title_or_empty none = ""
title_or_empty (some t) = t

-- The board before the cached issues are looked at.
abbrev pub blank : {W : Type 0} → Option (Orchestrator W) → Option String → BoardData
blank o milestone = record {
  paused = elim o [ none ↦ true | some x ↦ x.paused ];
  processing = elim o [ none ↦ false | some x ↦ x.processing ];
  can_close_sprint = false;
  can_plan_sprint = false;
  sprint_name = title_or_empty milestone;
  cards = no_cards;
  total_tickets = 0;
  completed_tickets = 0;
}

abbrev pub fill : Option Steps → List Issue → BoardData → BoardData
fill store issues data_ =
    let cards = add_all store no_cards issues in
    record data_ {
      can_close_sprint = can_close data_.processing cards;
      can_plan_sprint = is_empty issues;
      cards = cards;
      total_tickets = length issues;
      completed_tickets = length (cards done);
    }

-- With the server's orchestrator, its store (the steps and the cached issues), and the title of the
-- active milestone, `none` where there is no client or no such milestone.
unfoldable pub build_board_data :
    {W : Type 0} → Option (Orchestrator W) → Option (Steps × Cache) → Option String → BoardData
unfolding add_card_to_column infer_column_from_issue get_issues_cache_by_milestone
build_board_data o none milestone = record (blank o milestone) { can_plan_sprint = true }
build_board_data o (some store) none = record (blank o none) { can_plan_sprint = true }
build_board_data o (some (steps, cache)) (some milestone) =
    fill (some steps) (get_issues_cache_by_milestone milestone cache) (blank o (some milestone))
