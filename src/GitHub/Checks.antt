-- ===== src/GitHub/Checks.antt =====
-- internal/github/issues.go: `GetPRChecks`, which sums up the checks of a pull request. The logs of
-- failed runs are fetched by the `gh` program, so they are a parameter.
pub mod Verdict
use one_dev_army.Common.{
  ℕ, zero, suc, ◌+◌, Bool, true, false, List, [], ◌∷◌, String, str_eq, if◌then◌else◌, length, ◌++◌,
}

pub record PrCheck : Type 0 where
  pub name : String
  pub status : String
  pub conclusion : String
  pub details_url : String

pub data Status : Type 0 where
  pass fail pending : Status

pub record PrChecksResult : Type 0 where
  pub status : Status
  pub logs : String
  pub total_count : ℕ
  pub completed_count : ℕ
  pub pending_checks : List String

-- The variables of the loop over the checks.
pub record Tally : Type 0 where
  pub failed_names : List String
  pub failed_links : List String
  pub pending_names : List String
  pub all_complete : Bool
  pub completed_count : ℕ

abbrev pub is_completed : PrCheck → Bool
is_completed c = str_eq c.status "COMPLETED"

abbrev pub is_failure : PrCheck → Bool
is_failure c = str_eq c.conclusion "FAILURE"

-- One round of the loop.
abbrev pub count_check : PrCheck → Tally → Tally
count_check c t =
    let t1 =
      if is_completed c
      then record t { completed_count = t.completed_count + 1 }
      else record t { all_complete = false; pending_names = t.pending_names ++ c.name ∷ [] } in
    if is_failure c
    then record t1 {
      failed_names = t1.failed_names ++ c.name ∷ [];
      failed_links = t1.failed_links ++ c.details_url ∷ [];
    }
    else t1

unfoldable pub tally : List PrCheck → Tally → Tally
tally [] t = t
tally (c ∷ cs) t = tally cs (count_check c t)

abbrev pub start : Tally
start = record {
  failed_names = [];
  failed_links = [];
  pending_names = [];
  all_complete = true;
  completed_count = 0;
}

-- `&PRChecksResult{Status: s}`, the other fields zero.
abbrev pub only : Status → PrChecksResult
only s = record { status = s; logs = ""; total_count = 0; completed_count = 0; pending_checks = [] }

abbrev pub has_failures : List String → Bool
has_failures [] = false
has_failures (_ ∷ _) = true

unfoldable pub get_pr_checks : (List String → List String → String) → List PrCheck → PrChecksResult
unfolding tally
get_pr_checks failure_logs [] = only pending
get_pr_checks failure_logs (c ∷ cs) =
    let t = tally (c ∷ cs) start in
    if t.all_complete
    then (if has_failures t.failed_names
        then record (only fail) { logs = failure_logs t.failed_names t.failed_links }
        else only pass)
    else record (only pending) {
      total_count = length (c ∷ cs);
      completed_count = t.completed_count;
      pending_checks = t.pending_names;
    }
