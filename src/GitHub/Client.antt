-- ===== src/GitHub/Client.antt =====
-- internal/github/labels.go, issues.go: the calls of the GitHub client that change labels. The `gh`
-- program is not part of the repository: `Gh` holds its calls, which act on a remote world `W`.
-- Error messages keep their fixed part and the cause; the numbers in them are left out.
use Prim.Native.String.{◌++◌}
use one_dev_army.Common.{
  is_empty, ℕ, Bool, true, false, none, List, [], ◌∷◌, String, if◌then◌else◌, any,
}
use one_dev_army.Common.Effect.{Effect, try, ignore, pure, fail}
use one_dev_army.GitHub.Stage.{Stage, done, is_stage_label, stage_label_prefixes, has_stage_prefix}
use one_dev_army.GitHub.Stage
use one_dev_army.GitHub.Issue.{Issue}

pub record Gh (W : Type 0) : Type 0 where
  -- `gh issue view`, `gh issue edit --remove-label` and `--add-label`, `gh issue close`
  pub view_issue : ℕ → Effect W Issue
  pub remove_label : ℕ → String → Effect W Unit
  pub add_label : ℕ → String → Effect W Unit
  pub close_issue : ℕ → Effect W Unit

-- `strings.Join(labels, ",")`
unfoldable pub join : List String → String
join [] = ""
join (l ∷ []) = l
join (l ∷ m ∷ ls) = l ++ "," ++ join (m ∷ ls)

-- The labels that `SetStageLabel` takes off: those with one of the prefixes.
unfoldable pub get_stage_labels_to_remove : List String → List String
get_stage_labels_to_remove [] = []
get_stage_labels_to_remove (l ∷ ls) =
    if any (has_stage_prefix l) stage_label_prefixes
    then l ∷ get_stage_labels_to_remove ls
    else get_stage_labels_to_remove ls

-- `updatedIssue.Labels`: the loop over the old labels, and the new one behind.
unfoldable pub rebuild_labels : Stage → List String → List String
rebuild_labels stage [] = Stage.label stage ∷ []
rebuild_labels stage (l ∷ ls) =
    if is_stage_label l then rebuild_labels stage ls else l ∷ rebuild_labels stage ls

abbrev pub is_done : Stage → Bool
is_done done = true
is_done _ = false

-- The issue that `SetStageLabel` builds and returns. It has no merge data.
unfoldable pub updated_issue : Stage → Issue → Issue
updated_issue stage issue = record {
  number = issue.number;
  title = issue.title;
  body = issue.body;
  state = if is_done stage then "closed" else issue.state;
  assignees = issue.assignees;
  labels = rebuild_labels stage issue.labels;
  pr_merged = false;
  merged_at = none;
  updated_at = issue.updated_at;
}

module _ {W : Type 0} (gh : Gh W) where
  unfoldable pub add_label : ℕ → String → Effect W Unit
  add_label number label =
      if is_stage_label label
      then fail "cannot add stage label via AddLabel — use SetStageLabel instead"
      else try (λ e. "adding label: " ++ e) (gh.add_label number label) pure

  -- The part of `SetStageLabel` behind the removal of the old labels.
  unfoldable pub attach : ℕ → Stage → Issue → Effect W Issue
  attach number stage issue =
      try (λ e. "adding label to issue: " ++ e) (gh.add_label number (Stage.label stage))
        λ _.
          if is_done stage
          then (try (λ e. "closing issue: " ++ e) (gh.close_issue number)
              (λ _. pure (updated_issue stage issue)))
          else pure (updated_issue stage issue)

  -- The result of the removal is not looked at.
  unfoldable pub set_stage_label : ℕ → Stage → Effect W Issue
  unfolding attach
  set_stage_label number stage =
      try (λ e. "getting issue: " ++ e) (gh.view_issue number)
        λ issue.
          let to_remove = get_stage_labels_to_remove issue.labels in
          if is_empty to_remove
          then attach number stage issue
          else ignore (gh.remove_label number (join to_remove)) (attach number stage issue)
