-- ===== src/GitHub/Issue.antt =====
-- internal/github/issues.go: the issue, its assignee and the names of its labels. A label is its
-- name, an assignee its login; times are numbers.
use one_dev_army.Common.{ℕ, Bool, Option, List, [], ◌∷◌, String}

pub record Issue : Type 0 where
  pub number : ℕ
  pub title : String
  pub body : String
  pub state : String
  pub assignees : List String
  pub labels : List String
  pub pr_merged : Bool
  pub merged_at : Option ℕ
  pub updated_at : Option ℕ

first_or_empty : List String → String
first_or_empty [] = ""
first_or_empty (a ∷ _) = a

unfoldable pub get_assignee : Issue → String
unfolding first_or_empty
get_assignee i = first_or_empty i.assignees

-- The loop appends each label's name to a list of its own.
unfoldable pub get_label_names : Issue → List String
get_label_names i = i.labels
