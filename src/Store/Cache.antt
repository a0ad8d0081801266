-- ===== src/Store/Cache.antt =====
-- internal/db/db.go: the table `issue_cache`, one row for an issue number. The labels go through
-- JSON and come back as they were; of the assignees only the first is stored.
pub mod Lookup
use one_dev_army.Common.{
  ℕ, ◌==◌, Bool, true, false, not, ◌&&◌, Option, none, some, List, [], ◌∷◌, map, String, str_eq,
  if◌then◌else◌, ltb, leb, select,
}
use mathlib.Core.Option
use one_dev_army.Common.Text.{equal_fold}
use one_dev_army.GitHub.Issue.{Issue, get_assignee}

pub record IssueCache : Type 0 where
  pub issue_number : ℕ
  pub title : String
  pub body : String
  pub state : String
  pub labels : List String
  pub assignee : String
  pub milestone : String
  pub updated_at : Option ℕ
  pub pr_merged : Bool
  pub merged_at : Option ℕ

abbrev pub Cache : Type 0
Cache = List IssueCache

unfoldable pub to_row : Issue → String → IssueCache
to_row i milestone = record {
  issue_number = i.number;
  title = i.title;
  body = i.body;
  state = i.state;
  labels = i.labels;
  assignee = get_assignee i;
  milestone = milestone;
  updated_at = i.updated_at;
  pr_merged = i.pr_merged;
  merged_at = i.merged_at;
}

-- The issue that a row is read back as.
unfoldable pub of_row : IssueCache → Issue
of_row r = record {
  number = r.issue_number;
  title = r.title;
  body = r.body;
  state = r.state;
  assignees = if str_eq r.assignee "" then [] else r.assignee ∷ [];
  labels = r.labels;
  pr_merged = r.pr_merged;
  merged_at = r.merged_at;
  updated_at = r.updated_at;
}

-- `WHERE issue_number = ?`
unfoldable pub find_row : ℕ → Cache → Option IssueCache
find_row n [] = none
find_row n (r ∷ rs) = if r.issue_number == n then some r else find_row n rs

unfoldable pub get_issue_cache : ℕ → Cache → Option Issue
unfolding find_row of_row
get_issue_cache n t = Option.map of_row (find_row n t)

-- `INSERT OR REPLACE`
unfoldable pub replace_row : IssueCache → Cache → Cache
replace_row r [] = r ∷ []
replace_row r (s ∷ rs) = if s.issue_number == r.issue_number then r ∷ rs else s ∷ replace_row r rs

-- `existing.UpdatedAt.After(*issue.UpdatedAt)`, where both are known.
abbrev pub is_newer : Option ℕ → Option ℕ → Bool
is_newer (some a) (some b) = ltb b a
is_newer _ _ = false

abbrev pub is_stale : Option Issue → Issue → Bool
is_stale none i = false
is_stale (some old) i = is_newer old.updated_at i.updated_at

unfoldable pub save_issue_cache : Issue → String → Bool → Cache → Cache
unfolding get_issue_cache replace_row to_row
save_issue_cache i milestone force t =
    if not force && is_stale (get_issue_cache i.number t) i
    then t
    else replace_row (to_row i milestone) t

-- `ORDER BY issue_number`
abbrev pub insert_by_number : IssueCache → List IssueCache → List IssueCache
insert_by_number r [] = r ∷ []
insert_by_number r (s ∷ rs) =
    if leb r.issue_number s.issue_number then r ∷ s ∷ rs else s ∷ insert_by_number r rs

abbrev pub sort_by_number : List IssueCache → List IssueCache
sort_by_number [] = []
sort_by_number (r ∷ rs) = insert_by_number r (sort_by_number rs)

abbrev pub scan_issues : List IssueCache → List Issue
scan_issues rs = map of_row (sort_by_number rs)

unfoldable pub get_issues_cache_by_milestone : String → Cache → List Issue
get_issues_cache_by_milestone m t = scan_issues (select (λ r. str_eq r.milestone m) t)

abbrev pub is_open_in : String → IssueCache → Bool
is_open_in m r = str_eq r.milestone m && equal_fold r.state "OPEN"

unfoldable pub get_open_issues_cache_by_milestone : String → Cache → List Issue
get_open_issues_cache_by_milestone m t = scan_issues (select (is_open_in m) t)

unfoldable pub get_all_cached_issues : Cache → List Issue
get_all_cached_issues t = scan_issues t

unfoldable pub clear_issue_cache : Cache → Cache
clear_issue_cache t = []
