-- ===== src/Mvp/Orchestrator/Selection.antt =====
-- internal/mvp/orchestrator.go: which issue a round of `Run` picks up (the loop that sorts the open
-- issues of the milestone, the manual request, and `pickNextTicket`). The model's answer is a
-- parameter: the number behind `NEXT: #` in it, or `none` where the session, the message or the
-- format fails.
pub mod Choice
use one_dev_army.Common.{
  ℕ, ◌==◌, Bool, true, false, not, ◌&&◌, ◌||◌, Option, none, some, List, [], ◌∷◌, ◌++◌, String,
  str_eq, if◌then◌else◌, first, ltb,
}
use one_dev_army.Common.Text.{equal_fold}
use one_dev_army.GitHub.Issue.{Issue}
use one_dev_army.Mvp.Orchestrator.{Orchestrator, get_stage_label, is_worker_stage}

-- `stage == "" || stage == string(github.StageBacklog)`
abbrev pub is_backlog_stage : String → Bool
is_backlog_stage s = str_eq s "" || str_eq s "stage:backlog"

pub record Sorted : Type 0 where
  pub candidates : List Issue
  pub resume_issue : Option Issue

abbrev pub is_none : Option Issue → Bool
is_none none = true
is_none (some _) = false

-- One round of the loop over the issues.
abbrev pub sort_issue : Issue → Sorted → Sorted
sort_issue i s =
    if not (equal_fold i.state "open")
    then s
    else (if is_backlog_stage (get_stage_label i)
        then record s { candidates = s.candidates ++ i ∷ [] }
        else (if is_worker_stage (get_stage_label i) && is_none s.resume_issue
            then record s { resume_issue = some i }
            else s))

unfoldable pub classify : List Issue → Sorted → Sorted
classify [] s = s
classify (i ∷ is) s = classify is (sort_issue i s)

-- The loops that look for a number among the candidates.
abbrev pub find_number : ℕ → List Issue → Option Issue
find_number n = first (λ i. i.number == n)

abbrev pub answered : Option ℕ → List Issue → Option Issue
answered none candidates = none
answered (some n) candidates = find_number n candidates

-- `pickNextTicket` with no ticket awaiting approval; `none` is an error.
unfoldable pub pick_next_ticket : (List Issue → Option ℕ) → List Issue → Option Issue
pick_next_ticket llm [] = answered (llm []) []
pick_next_ticket llm (i ∷ []) = some i
pick_next_ticket llm (i ∷ j ∷ is) = answered (llm (i ∷ j ∷ is)) (i ∷ j ∷ is)

-- A failed choice falls back to the first candidate; no candidate, no issue.
unfoldable pub auto_pick : (List Issue → Option ℕ) → List Issue → Option Issue
unfolding pick_next_ticket
auto_pick llm [] = none
auto_pick llm (i ∷ is) = elim (pick_next_ticket llm (i ∷ is)) [ some j ↦ some j | none ↦ some i ]

unfoldable pub manual_pick : ℕ → List Issue → Option Issue
manual_pick n candidates = if ltb 0 n then find_number n candidates else none

abbrev pub or_else : Option Issue → Option Issue → Option Issue
or_else (some i) _ = some i
or_else none o = o

pub record Pick : Type 0 where
  pub next_issue : Option Issue
  pub is_resume : Bool

abbrev pub empty : Sorted
empty = record { candidates = []; resume_issue = none }

module _ {W : Type 0} (llm : List Issue → Option ℕ) where
  abbrev pub choose : Sorted → Orchestrator W → Pick × Orchestrator W
  choose s o = elim s.resume_issue [
    | some i ↦ (record { next_issue = some i; is_resume = true }, o)
    | none ↦ (
      record {
        next_issue = or_else (manual_pick o.manual_next s.candidates) (auto_pick llm s.candidates);
        is_resume = false;
      },
      record o { manual_next = 0 },
    )
  ]

  -- The choice among the open issues of the milestone. The manual request is used up by it, unless
  -- there is work to resume.
  unfoldable pub pick_issue : List Issue → Orchestrator W → Pick × Orchestrator W
  unfolding classify auto_pick manual_pick
  pick_issue issues o = choose (classify issues empty) o
