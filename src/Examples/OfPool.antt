-- ===== src/Examples/OfPool.antt =====
-- The pool of internal/worker on a concrete queue and a concrete model.
use one_dev_army.Common.{
  ℕ, ◌+◌, ◌<◌, ◌≤◌, ◌≡◌, ◌⊎◌, refl, false, Option, none, some, List, [], ◌∷◌, ◌++◌, arith,
  if◌then◌else◌, ◌==◌,
}
use one_dev_army.Common.Text.{codes}
use one_dev_army.Common.Effect.{Result, ok, err}
use one_dev_army.Pipeline.Stage.{queued, rank}
use one_dev_army.Workers.{Task, Worker, idle, new_worker}
use one_dev_army.Workers.Pool.{Pool}
use one_dev_army.Workers.Pool
use one_dev_army.Workers.Pool.Drain.{
  IsQueue, IsDrained, View, Answer, Note, first_task, other_tasks, run-drains,
}
use one_dev_army.Workers.Texts.{slugify_codes}
use one_dev_army.Workers.Texts.Branches.{IsBranchSlug, slugify_codes-IsBranchSlug}
use one_dev_army.Workers.Processor.{Tools, Part, text_part, is_approved, extract_full_content}
use one_dev_army.Workers.Processor
use one_dev_army.Workers.Processor.Watched.{IsWatched}
use one_dev_army.Workers.Processor.Approval.{process-Approved}

abbrev task : ℕ → Task
task n = record {
  id = n;
  issue_number = n + 100;
  title = "Fix the bug";
  body = "";
  stage = "";
  dependencies = [];
}

-- The tasks that wait, what the queue was told, and what the processor answered.
abbrev Line : Type 0
Line = View (List Answer) (List Answer)

abbrev noted : Note (List Answer)
noted id r log = log ++ (id, r) ∷ []

-- The model cannot be reached for the second task.
abbrev reply_to : ℕ → Result (Unit {0})
reply_to id = if id == 2 then err "no model" else ok tt

abbrev pool : Pool Line
pool = record {
  queue = record {
    next = λ w. (ok (first_task w.0), (other_tasks w.0, w.1, w.2));
    mark_done = λ id w. (ok tt, (w.0, noted id (ok tt) w.1, w.2));
    mark_blocked = λ id s w. (ok tt, (w.0, noted id (err s) w.1, w.2));
  };
  process = λ t worker w. (reply_to t.id, worker, (w.0, w.1, noted t.id (reply_to t.id) w.2));
  now = λ w. (7, w);
  cancelled = λ w. false;
}

pool-IsQueue : IsQueue pool (λ w. w) noted noted
pool-IsQueue = record {
  taken = λ w. (refl, refl);
  done = λ id w. refl;
  blocked = λ id s w. refl;
  processed = λ t worker w. refl;
  timed = λ w. refl;
  live = λ w. refl;
}

abbrev two_tasks : Line
two_tasks = (task 1 ∷ task 2 ∷ [], [], [])

abbrev worker : Worker
worker = new_worker "worker-0"

worker_is_idle : worker.status ≡ idle
unfolding new_worker
worker_is_idle = refl

run-drains_example :
    IsDrained pool (λ w. w) noted noted pool-IsQueue two_tasks (Pool.run pool 3 worker two_tasks)
run-drains_example =
    run-drains pool (λ w. w) noted noted pool-IsQueue 3 worker two_tasks (omega arith)
      worker_is_idle

slugify_codes-IsBranchSlug_example : IsBranchSlug (slugify_codes (codes "  Fix: the -- BIG bug! "))
slugify_codes-IsBranchSlug_example = slugify_codes-IsBranchSlug (codes "  Fix: the -- BIG bug! ")

-- The world counts the pull requests and the answers of the model.
abbrev Counts : Type 0
Counts = ℕ × ℕ

abbrev approval : Result (Option (List Part))
approval = ok (some (text_part "{\"approved\": true}" ∷ []))

abbrev tools : Tools Counts
tools = record {
  create_branch = λ b w. (ok tt, w);
  remove_branch = λ b w. (ok tt, w);
  create_session = λ s w. (ok "session", w);
  send_message = λ s p m w. (approval, (w.0, w.1 + 1));
  create_pr = λ b s c w. (ok "url", (w.0 + 1, w.1));
  add_comment = λ n s w. (ok tt, w);
  change_stage = none;
  save_stage_metric = none;
  now = λ w. (7, w);
  fill = λ p n a b c. c;
  router = none;
  max_retries = 2;
}

-- The model, which always approves, has answered.
abbrev HasAnswered : Counts → Type 0
HasAnswered w = 0 < w.1

tools-IsWatched : IsWatched tools HasAnswered (λ w. w.0)
tools-IsWatched = record {
  branch = λ b w. (refl, λ h. h);
  removal = λ b w. (refl, λ h. h);
  session = λ s w. (refl, λ h. h);
  message = λ s p m w. (refl, λ h. omega arith);
  verdict = λ s p m w e. omega arith;
  pull = λ b s c w h. h;
  comment = λ n s w. (refl, λ h. h);
  change = tt;
  metric = tt;
  clock = λ w. (refl, λ h. h);
}

starts_low : rank (Processor.start_stage tools (task 1) queued) ≤ 3
unfolding Processor.start_stage
starts_low = omega arith

process-Approved_example :
    ((Processor.process tools (task 1) queued (0, 0)).1.0 ≡ 0)
    ⊎ HasAnswered (Processor.process tools (task 1) queued (0, 0)).1
process-Approved_example =
    process-Approved tools (task 1) HasAnswered (λ w. w.0) tools-IsWatched queued (0, 0) starts_low
