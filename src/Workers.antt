-- ===== src/Workers.antt =====
-- internal/worker: the pool of workers. The worker's record and its setters are worker.go; `Pool`
-- is pool.go, and `Processor` processor.go.
pub mod Texts
pub mod Pool
pub mod Processor
use one_dev_army.Common.{ℕ, Option, none, some, List, String, ◌-◌}

pub data Status : Type 0 where
  idle working : Status

pub record Task : Type 0 where
  pub id : ℕ
  pub issue_number : ℕ
  pub title : String
  pub body : String
  pub stage : String
  pub dependencies : List ℕ

-- `start_time` is `none` for the zero time.
pub record Worker : Type 0 where
  pub id : String
  pub status : Status
  pub task_id : ℕ
  pub task_title : String
  pub stage : String
  pub start_time : Option ℕ

unfoldable pub new_worker : String → Worker
new_worker id = record {
  id = id;
  status = idle;
  task_id = 0;
  task_title = "";
  stage = "";
  start_time = none;
}

-- `SetTask`, at the time `now`.
unfoldable pub set_task : Task → ℕ → Worker → Worker
set_task t now w = record w {
  status = working;
  task_id = t.id;
  task_title = t.title;
  stage = t.stage;
  start_time = some now;
}

unfoldable pub set_stage : String → Worker → Worker
set_stage s w = record w { stage = s }

unfoldable pub set_idle : Worker → Worker
set_idle w = record w { status = idle; task_id = 0; task_title = ""; stage = ""; start_time = none }

pub record WorkerInfo : Type 0 where
  pub id : String
  pub status : Status
  pub task_id : ℕ
  pub task_title : String
  pub stage : String
  pub elapsed : ℕ

abbrev pub elapsed_since : ℕ → Option ℕ → ℕ
elapsed_since now none = 0
elapsed_since now (some t) = now - t

unfoldable pub get_info : ℕ → Worker → WorkerInfo
get_info now w = record {
  id = w.id;
  status = w.status;
  task_id = w.task_id;
  task_title = w.task_title;
  stage = w.stage;
  elapsed = elapsed_since now w.start_time;
}
