-- ===== src/Examples/OfWorker.antt =====
-- The worker of internal/mvp with concrete tools. The world is a Boolean: whether there is a tick
-- left before the deadline of the checks.
use one_dev_army.Common.{
  ℕ, ◌<◌, ◌≡◌, ◌≢◌, refl, Bool, true, false, not, Option, none, some, [], String, arith,
}
use one_dev_army.Common.Effect.{ok, Effect}
use one_dev_army.GitHub.Issue.{Issue}
use one_dev_army.Store.Steps.{Steps, empty, insert_step, finish_step, get_last_completed_step}
use one_dev_army.Mvp.Orchestrator.{decline, UserDecision}
use one_dev_army.Mvp.Worker.{TaskStatus, Job, Tools, tick, fault, plain}
use one_dev_army.Mvp.Worker.Steps.{resume_from, step_index}
use one_dev_army.Mvp.Worker.Process.{Config, process, pipeline_phase}
use one_dev_army.Mvp.Worker.Process.Frames.{Holds, Fails}
use one_dev_army.Mvp.Worker.Process.Ends.{IsMerged, process-IsMerged}
use one_dev_army.Mvp.Worker.Process.Gate.{Declines, IsRefused, process-IsRefused}
use one_dev_army.Mvp.Worker.Process.Resume.{behind, resume_from-finish}
use one_dev_army.Mvp.Worker.Process.Answers.{Answers}
use one_dev_army.Mvp.Worker.Process.Attempts.{HasDeadline, pipeline_phase-Answers}
use one_dev_army.Mvp.Worker.Process.Total.{process-Answers}
use one_dev_army.Mvp.Round.{settle_round, round}
use one_dev_army.Mvp.Round.Outcomes.{settle_round-starts_over, IsFree, round-IsFree}
use one_dev_army.Examples.{issue_of, kind_gh, office}

abbrev done_well : Effect Bool Unit
done_well w = (ok tt, w)

abbrev no : UserDecision
no = record { action = decline; reason = "not yet" }

-- The user declines, the checks stay pending, and the deadline is one tick away.
abbrev bench : Tools Bool
bench = record {
  gh = kind_gh;
  create_branch = λ b. done_well;
  push_branch = λ b. done_well;
  remove_branch = λ b. done_well;
  checkout_default = done_well;
  has_commits = λ b w. (ok true, w);
  git_add = done_well;
  git_diff_cached = done_well;
  git_commit = λ m. done_well;
  create_artifact_dir = λ n. done_well;
  create_session = λ title w. (ok "s1", w);
  send_message = λ s prompt w. (ok "done", w);
  send_review = λ s prompt w. (ok (record { approved = true; json = "{}" }), w);
  delete_session = λ s. done_well;
  attach_plan = λ n analysis plan. done_well;
  list_comments = λ n w. (ok [], w);
  log_path = λ n. "pipeline-fail.log";
  save_failure_log = λ path logs w. w;
  find_pr_branch = λ n w. (ok "", w);
  create_pr = λ b t c w. (ok "https://github.com/o/r/pull/1", w);
  extract_pr_url = λ e. "";
  merge_pr = λ b. done_well;
  close_pr = λ b. done_well;
  add_comment = λ n c. done_well;
  pr_checks = λ b w. (ok [], w);
  failure_logs = λ names links. "";
  wake = λ w. (tick (not w), not w);
  next_decision = λ w. (ok no, w);
  planning_prompt = λ i. "plan";
  implementation_prompt = λ i p. p;
  fix_prompt = λ i r. r;
  review_prompt = λ i u. u;
}

abbrev settings : Config
settings = record {
  llm = record { setup = "m"; planning = "m"; orchestration = "m"; code = "m"; code_heavy = "m" };
  router = none;
  max_retries = 0;
  yolo_mode = false;
}

abbrev ticket : Issue
ticket = issue_of 4 []

abbrev job : Job Bool
job = record {
  orchestrator = office;
  status = TaskStatus.pending;
  result = none;
  branch = "";
  reported = [];
}

process-IsMerged_example :
    Holds (IsMerged bench settings ticket) Fails (process bench settings ticket 3 2 job)
process-IsMerged_example = process-IsMerged bench settings ticket 3 2 job

bench-Declines : Declines bench
bench-Declines w d e = cc

process-IsRefused_example : IsRefused (process bench settings ticket 3 2 job)
process-IsRefused_example = process-IsRefused bench settings ticket refl bench-Declines 3 2 job

abbrev ticks : Bool → ℕ
ticks true = 1
ticks false = 0

bench-passes : (w : Bool) → (bench.wake w).0 ≡ tick false → ticks (bench.wake w).1 < ticks w
bench-passes true e = omega arith
bench-passes false e = cc

abbrev bench_deadline : HasDeadline bench
bench_deadline = record { left = ticks; passes = bench-passes; kept = λ b w. omega arith }

ticks-lt-3 : (w : Bool) → ticks w < 3
ticks-lt-3 true = omega arith
ticks-lt-3 false = omega arith

pipeline_phase-Answers_example : Answers (pipeline_phase bench settings ticket 3 4 "plan" job)
pipeline_phase-Answers_example =
    pipeline_phase-Answers bench settings ticket bench_deadline 3 ticks-lt-3 4 "plan" job

abbrev bold : Config
bold = record settings { yolo_mode = true }

process-Answers_example : Answers (process bench bold ticket 3 1 job)
process-Answers_example =
    process-Answers bench bold ticket refl bench_deadline 3 1 ticks-lt-3 (omega arith) job

abbrev reviewed : ℕ × Steps
reviewed = insert_step 4 "code-review" "p" "s" "m" empty

resume_from-finish_example :
    resume_from 4 (finish_step reviewed.0 "not approved" reviewed.1) ≡ behind "code-review"
resume_from-finish_example = resume_from-finish 4 "code-review" "p" "s" "m" "not approved" empty tt

settle_round-starts_over_example :
    let o' = (settle_round bench (issue_of 4 []) (fault (plain "no network"), office)).1 in
    (get_last_completed_step 4 o'.steps ≡ "failed")
    × (step_index "failed" ≡ none)
    × (resume_from 4 o'.steps ≡ 0)
    × ((j : ℕ) → 4 ≢ j → resume_from j o'.steps ≡ resume_from j office.steps)
settle_round-starts_over_example =
    settle_round-starts_over bench (issue_of 4 []) (plain "no network") office refl tt

abbrev sprint : Effect Bool (Option String)
sprint w = (ok (some "Sprint 1"), w)

round-IsFree_example : IsFree (round bench (λ is. none) settings 3 2 sprint office).1
round-IsFree_example = round-IsFree bench (λ is. none) settings 3 2 sprint office (refl, refl)
