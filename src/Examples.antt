-- ===== src/Examples.antt =====
-- Concrete inputs: a world, a configuration and issues, on which the results are run.
mod OfPipeline
mod OfGitHub
mod OfStore
mod OfMvp
mod OfWorker
mod OfHub
mod OfDesk
mod OfBoard
mod OfPool
mod OfTexts
mod OfSprint
mod OfCleanup
mod OfPlanner
use one_dev_army.Common.{
  ℕ, ◌==◌, Bool, true, false, not, Option, none, some, List, [], ◌∷◌, String, if◌then◌else◌,
}
use one_dev_army.Common.Effect.{Result, ok, err}
use one_dev_army.GitHub.Issue.{Issue}
use one_dev_army.GitHub.Client.{Gh}
use one_dev_army.Store.Steps.{Steps, empty}
use one_dev_army.Mvp.Orchestrator.{Orchestrator}

abbrev pub issue_of : ℕ → List String → Issue
issue_of n labels = record {
  number = n;
  title = "Fix the bug";
  body = "";
  state = "OPEN";
  assignees = "ann" ∷ "bob" ∷ [];
  labels = labels;
  pr_merged = false;
  merged_at = none;
  updated_at = some 5;
}

-- Every issue is in coding, and every call succeeds.
abbrev pub kind_gh : Gh Bool
kind_gh = record {
  view_issue = λ n w. (ok (issue_of n ("bug" ∷ "stage:coding" ∷ [])), w);
  remove_label = λ n l w. (ok tt, w);
  add_label = λ n l w. (ok tt, w);
  close_issue = λ n w. (ok tt, w);
}

-- GitHub cannot be reached.
abbrev pub dead_gh : Gh Bool
dead_gh = record kind_gh { view_issue = λ n w. (err "no network", not w) }

abbrev pub office : Orchestrator Bool
office = record {
  running = true;
  paused = false;
  processing = false;
  current_task = none;
  manual_next = 0;
  completion_ch = none;
  decision_ch = none;
  stop_closed = false;
  has_store = true;
  has_hub = true;
  has_gh = true;
  steps = empty;
  cache = [];
  ledger = record { rows = []; next_id = 1 };
  broadcasts = [];
  milestone_title = some "Sprint 1";
  clock = 10;
  remote = false;
}
