-- ===== src/Dashboard/Board/Labels.antt =====
-- Which column the label of a stage leads to.
use one_dev_army.Common.{
  ◌≡◌, ◌≢◌, refl, ◌∙◌, ap, Bool, true, false, not, ◌||◌, List, [], ◌∷◌, String, str_eq, eq_iff,
  if◌then◌else◌, arith, any, All, select,
}
use one_dev_army.Common.Text.{lower_is, equal_fold, codes, lower, codes_eq}
use one_dev_army.GitHub.Stage.{Stage, done, unset, needs_user, is_stage_label}
use one_dev_army.GitHub.Stage as GitHubStage
use one_dev_army.GitHub.Issue.{Issue, get_label_names}
use one_dev_army.GitHub.Relabel.{IsRelabelled}
use one_dev_army.Dashboard.Board.{Column, column_name, infer_column_from_issue}

-- The labels that the board looks for.
abbrev pub board_labels : List String
board_labels =
    "stage:blocked" ∷ "blocked" ∷ "stage:failed" ∷ "failed" ∷ "stage:merging"
    ∷ "stage:awaiting-approval" ∷ "awaiting-approval" ∷ "stage:check-pipeline" ∷ "stage:create-pr"
    ∷ "stage:code-review" ∷ "stage:coding" ∷ "stage:testing" ∷ "in-progress" ∷ "stage:analysis"
    ∷ "stage:planning" ∷ []

-- The column where a ticket of the stage stands.
abbrev pub shown_column : Stage → Column
shown_column GitHubStage.backlog = Column.backlog
shown_column GitHubStage.plan = Column.plan
shown_column GitHubStage.code = Column.code
shown_column GitHubStage.review = Column.ai_review
shown_column GitHubStage.create_pr = Column.ai_review
shown_column GitHubStage.check_pipeline = Column.check_pipeline
shown_column GitHubStage.approve = Column.approve
shown_column GitHubStage.merge = Column.merge
shown_column done = Column.done
shown_column GitHubStage.failed = Column.failed
shown_column GitHubStage.blocked = Column.blocked
shown_column needs_user = Column.backlog
shown_column unset = Column.backlog

-- It is the column that `Stage.Column` names, but for `needs_user`, which `Stage.Column` puts among the
-- blocked ones.
pub column_name-shown_column :
    (s : Stage) → s ≢ needs_user → column_name (shown_column s) ≡ GitHubStage.column s
unfolding column_name GitHubStage.column
column_name-shown_column GitHubStage.backlog h = refl
column_name-shown_column GitHubStage.plan h = refl
column_name-shown_column GitHubStage.code h = refl
column_name-shown_column GitHubStage.review h = refl
column_name-shown_column GitHubStage.create_pr h = refl
column_name-shown_column GitHubStage.check_pipeline h = refl
column_name-shown_column GitHubStage.approve h = refl
column_name-shown_column GitHubStage.merge h = refl
column_name-shown_column done h = refl
column_name-shown_column GitHubStage.failed h = refl
column_name-shown_column GitHubStage.blocked h = refl
column_name-shown_column needs_user h = absurd (h refl)
column_name-shown_column unset h = refl

abbrev reads : String → List String → Bool
reads w = any (λ l. lower_is l w)

-- None of the labels that are no stage's is read by the board.
abbrev pub IsPlain : Issue → Type 0
IsPlain i = All (λ w. reads w (select (λ l. not (is_stage_label l)) i.labels) ≡ false) board_labels

any-split :
    (p q : String → Bool) (ls : List String)
    → any p ls ≡ (any p (select q ls) || any p (select (λ l. not (q l)) ls))
any-split p q [] = refl
any-split p q (l ∷ ls) = ground (arith, any-split p q ls)

alone :
    {all one others b : Bool}
    → all ≡ (one || others)
    → one ≡ (b || false)
    → others ≡ false
    → all ≡ b
alone h k e = ground arith

All-at :
    (P : String → Type 0) (w : String) (ws : List String)
    → All P ws
    → any (str_eq w) ws ≡ true
    → P w
All-at P w [] h k = absurd (cc)
All-at P w (x ∷ ws) (h, hs) k = ground (arith, eq_iff w x, All-at P w ws hs)

-- The switch of the board, over what it reads of the labels.
abbrev column_by : (String → Bool) → Bool → Column
column_by has closed =
    if has "stage:blocked" || has "blocked"
    then Column.blocked
    else (if has "stage:failed" || has "failed"
        then Column.failed
        else (if has "stage:merging"
            then Column.merge
            else (if has "stage:awaiting-approval" || has "awaiting-approval"
                then Column.approve
                else (if has "stage:check-pipeline"
                    then Column.check_pipeline
                    else (if has "stage:create-pr" || has "stage:code-review"
                        then Column.ai_review
                        else (if has "stage:coding" || has "stage:testing" || has "in-progress"
                            then Column.code
                            else (if has "stage:analysis" || has "stage:planning"
                                then Column.plan
                                else (if closed then Column.done else Column.backlog))))))))

abbrev is_done : Stage → Bool
is_done done = true
is_done _ = false

column_by-label :
    (s : Stage)
    → s ≢ unset
    → column_by (λ w. lower_is (GitHubStage.label s) w) (is_done s) ≡ shown_column s
unfolding lower_is codes lower codes_eq GitHubStage.label
column_by-label done h = refl
column_by-label unset h = absurd (h refl)
column_by-label s h = refl

closed_by :
    (s : Stage) (old new : String)
    → (s ≡ done → new ≡ "closed")
    → (s ≢ done → new ≡ old)
    → equal_fold old "CLOSED" ≡ false
    → equal_fold new "CLOSED" ≡ is_done s
unfolding equal_fold codes lower codes_eq
closed_by done old new h k e = ap (λ t. equal_fold t "CLOSED") (h refl)
closed_by s old new h k e = ap (λ t. equal_fold t "CLOSED") (k (λ d. cc)) ∙ e

module _ (s : Stage) (real : s ≢ unset) (before i : Issue) (rel : IsRelabelled s before i)
    (opened : equal_fold before.state "CLOSED" ≡ false) (plain : IsPlain before) where
  reads_alone :
      (w : String)
      → any (str_eq w) board_labels ≡ true
      → reads w i.labels ≡ lower_is (GitHubStage.label s) w
  reads_alone w h =
      let others =
        ap (reads w) rel.others_kept
        ∙ All-at (λ v. reads v (select (λ l. not (is_stage_label l)) before.labels) ≡ false) w
            board_labels plain h in
      alone (any-split (λ l. lower_is l w) is_stage_label i.labels)
        (ap (reads w) rel.one_stage_label) others

  closed_iff : equal_fold i.state "CLOSED" ≡ is_done s
  closed_iff = closed_by s before.state i.state rel.done_closes rel.state_kept opened

  -- An issue that was open and is now relabelled for the stage, with labels besides that the board does
  -- not read, stands in the column of the stage.
  pub infer_column_from_issue-relabelled : infer_column_from_issue i ≡ shown_column s
  unfolding infer_column_from_issue get_label_names
  infer_column_from_issue-relabelled =
      rw
        (
          reads_alone "stage:blocked" refl,
          reads_alone "blocked" refl,
          reads_alone "stage:failed" refl,
          reads_alone "failed" refl,
          reads_alone "stage:merging" refl,
          reads_alone "stage:awaiting-approval" refl,
          reads_alone "awaiting-approval" refl,
          reads_alone "stage:check-pipeline" refl,
          reads_alone "stage:create-pr" refl,
          reads_alone "stage:code-review" refl,
          reads_alone "stage:coding" refl,
          reads_alone "stage:testing" refl,
          reads_alone "in-progress" refl,
          reads_alone "stage:analysis" refl,
          reads_alone "stage:planning" refl,
          closed_iff,
        )
        (column_by-label s real)
