-- ===== src/Pipeline/Stage.antt =====
-- internal/pipeline/stage.go: the stages of a ticket, their columns and labels, and the two moves,
-- forward (`Next`) and back (`RetryTarget`). `Stage` is a string type in Go: `other s` is any text
-- that is none of the constants, and `other ""` the zero value.
use one_dev_army.Common.{ℕ, Bool, true, false, List, [], ◌∷◌, String, str_eq, if◌then◌else◌}

pub data Stage : Type 0 where
  queued analysis coding code_review create_pr check_pipeline approve : Stage
  merging done failed blocked : Stage
  other : String → Stage

pub data Column : Type 0 where
  column_backlog column_plan column_code column_ai_review column_check_pipeline : Column
  column_approve column_merge column_done column_failed column_blocked : Column

-- The text of a stage, by which Go compares stages.
unfoldable pub text : Stage → String
text queued = "queued"
text analysis = "analysis"
text coding = "coding"
text code_review = "code-review"
text create_pr = "create-pr"
text check_pipeline = "check-pipeline"
text approve = "awaiting-approval"
text merging = "merging"
text done = "done"
text failed = "failed"
text blocked = "blocked"
text (other s) = s

-- `a == b` on two stages.
abbrev pub same : Stage → Stage → Bool
same queued queued = true
same analysis analysis = true
same coding coding = true
same code_review code_review = true
same create_pr create_pr = true
same check_pipeline check_pipeline = true
same approve approve = true
same merging merging = true
same done done = true
same failed failed = true
same blocked blocked = true
same (other s) (other t) = str_eq s t
same _ _ = false

abbrev pub stage_order : List Stage
stage_order =
    queued ∷ analysis ∷ coding ∷ code_review ∷ create_pr ∷ check_pipeline ∷ approve ∷ merging ∷ done
    ∷ []

-- The place of a stage in `stage_order`, and 9 for a stage that is not in it.
abbrev pub rank : Stage → ℕ
rank queued = 0
rank analysis = 1
rank coding = 2
rank code_review = 3
rank create_pr = 4
rank check_pipeline = 5
rank approve = 6
rank merging = 7
rank done = 8
rank _ = 9

unfoldable pub column : Stage → Column
column queued = column_backlog
column analysis = column_plan
column coding = column_code
column code_review = column_ai_review
column create_pr = column_ai_review
column check_pipeline = column_check_pipeline
column approve = column_approve
column merging = column_merge
column done = column_done
column failed = column_failed
column blocked = column_blocked
column (other s) = column_backlog

unfoldable pub label : Stage → String
label analysis = "stage:analysis"
label coding = "stage:coding"
label code_review = "stage:code-review"
label create_pr = "stage:create-pr"
label check_pipeline = "stage:check-pipeline"
label approve = "stage:awaiting-approval"
label merging = "stage:merging"
label failed = "stage:failed"
label blocked = "stage:blocked"
label _ = ""

-- The scan of `Next`: the element behind the first occurrence of the stage, or the stage itself.
abbrev pub next_in : Stage → List Stage → Stage
next_in s [] = s
next_in s (x ∷ []) = s
next_in s (x ∷ y ∷ rest) = let later = next_in s (y ∷ rest) in if same x s then y else later

unfoldable pub next : Stage → Stage
next s = next_in s stage_order

unfoldable pub retry_target : Stage → Stage
retry_target code_review = coding
retry_target create_pr = coding
retry_target check_pipeline = coding
retry_target merging = coding
retry_target s = s
