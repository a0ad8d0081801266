-- ===== src/GitHub/Stage.antt =====
-- internal/github/labels.go: the workflow stages, their labels and columns, and the tests on labels.
-- `Stage` is a string type in Go; every value of it that the program makes is one of the twelve
-- constants or the zero value, `unset`.
use one_dev_army.Common.{
  Bool, true, false, ◌||◌, List, [], ◌∷◌, String, str_eq, starts_with, if◌then◌else◌, any,
}

pub data Stage : Type 0 where
  backlog plan code review create_pr check_pipeline approve merge done failed : Stage
  blocked needs_user unset : Stage

abbrev pub all_stages : List Stage
all_stages =
    backlog ∷ plan ∷ code ∷ review ∷ create_pr ∷ check_pipeline ∷ approve ∷ merge ∷ done ∷ failed
    ∷ blocked ∷ needs_user ∷ []

unfoldable pub label : Stage → String
label backlog = "stage:backlog"
label plan = "stage:analysis"
label code = "stage:coding"
label review = "stage:code-review"
label create_pr = "stage:create-pr"
label check_pipeline = "stage:check-pipeline"
label approve = "stage:awaiting-approval"
label merge = "stage:merging"
label done = "stage:done"
label failed = "stage:failed"
label blocked = "stage:blocked"
label needs_user = "stage:needs-user"
label unset = ""

unfoldable pub column : Stage → String
column backlog = "Backlog"
column plan = "Plan"
column code = "Code"
column review = "AI Review"
column create_pr = "AI Review"
column check_pipeline = "Pipeline"
column approve = "Approve"
column merge = "Merge"
column done = "Done"
column failed = "Failed"
column blocked = "Blocked"
column needs_user = "Blocked"
column unset = "Backlog"

-- A map as the list of its writes, newest first; a missing key reads as the zero value and `false`.
abbrev pub find_in : String → List (String × Stage) → Stage × Bool
find_in l [] = (unset, false)
find_in l ((k, s) ∷ m) = if str_eq l k then (s, true) else find_in l m

-- The loop of `init` over the stages.
abbrev pub write_stages : List Stage → List (String × Stage) → List (String × Stage)
write_stages [] m = m
write_stages (s ∷ ss) m = write_stages ss ((label s, s) ∷ m)

unfoldable pub stages_by_label : List (String × Stage)
unfolding label
stages_by_label = write_stages all_stages []

unfoldable pub stage_from_label : String → Stage × Bool
unfolding stages_by_label
stage_from_label l = find_in l stages_by_label

abbrev pub stage_label_prefixes : List String
stage_label_prefixes = "stage:" ∷ "awaiting-approval" ∷ "failed" ∷ "blocked" ∷ "in-progress" ∷ []

-- `strings.HasPrefix(label, prefix) || label == prefix`
abbrev pub has_stage_prefix : String → String → Bool
has_stage_prefix l prefix = starts_with l prefix || str_eq l prefix

unfoldable pub is_stage_label : String → Bool
is_stage_label l = any (has_stage_prefix l) stage_label_prefixes

unfoldable pub get_stage_from_labels : List String → Stage
get_stage_from_labels [] = backlog
get_stage_from_labels (l ∷ ls) =
    let (s, found) = stage_from_label l in if found then s else get_stage_from_labels ls
