-- ===== src/Store/Steps.antt =====
-- internal/db/db.go: the table `task_steps`. Rows stand in the order of their ids, which
-- AUTOINCREMENT hands out; the two time columns are left out, no statement reads them.
pub mod Rows
pub mod Resume
use one_dev_army.Common.{
  ℕ, suc, ◌+◌, ◌==◌, Bool, true, false, not, ◌&&◌, ◌||◌, Option, none, some, List, [], ◌∷◌, ◌++◌,
  map, String, str_eq, if◌then◌else◌, select, any,
}

pub data StepStatus : Type 0 where
  running done failed : StepStatus

abbrev pub is_done : StepStatus → Bool
is_done done = true
is_done _ = false

pub record TaskStep : Type 0 where
  pub id : ℕ
  pub issue_number : ℕ
  pub step_name : String
  pub status : StepStatus
  pub prompt : String
  pub response : String
  pub error_msg : String
  pub session_id : String
  pub plan_attachment_url : String
  pub llm_model : String

pub record Steps : Type 0 where
  pub rows : List TaskStep
  pub next_id : ℕ

abbrev pub empty : Steps
empty = record { rows = []; next_id = 1 }

abbrev pub new_row : ℕ → ℕ → String → String → String → String → TaskStep
new_row id issue name prompt session llm = record {
  id = id;
  issue_number = issue;
  step_name = name;
  status = running;
  prompt = prompt;
  response = "";
  error_msg = "";
  session_id = session;
  plan_attachment_url = "";
  llm_model = llm;
}

unfoldable pub insert_step : ℕ → String → String → String → String → Steps → ℕ × Steps
insert_step issue name prompt session llm t = (
  t.next_id,
  record {
    rows = t.rows ++ new_row t.next_id issue name prompt session llm ∷ [];
    next_id = t.next_id + 1;
  },
)

-- `UPDATE task_steps SET … WHERE p`
abbrev pub update_where : (TaskStep → Bool) → (TaskStep → TaskStep) → List TaskStep → List TaskStep
update_where p f [] = []
update_where p f (r ∷ rs) = (if p r then f r else r) ∷ update_where p f rs

abbrev pub finish_row : String → TaskStep → TaskStep
finish_row response r = record r { status = done; response = response }

unfoldable pub finish_step : ℕ → String → Steps → Steps
finish_step id response t = record t {
  rows = update_where (λ r. r.id == id) (finish_row response) t.rows;
}

abbrev pub fail_row : String → TaskStep → TaskStep
fail_row msg r = record r { status = failed; error_msg = msg }

unfoldable pub fail_step : ℕ → String → Steps → Steps
fail_step id msg t = record t { rows = update_where (λ r. r.id == id) (fail_row msg) t.rows }

unfoldable pub get_steps : ℕ → Steps → List TaskStep
get_steps issue t = select (λ r. r.issue_number == issue) t.rows

-- `… WHERE p ORDER BY id DESC LIMIT 1`
abbrev pub last_where : (TaskStep → Bool) → List TaskStep → Option TaskStep
last_where p [] = none
last_where p (r ∷ rs) = elim (last_where p rs) [
  | some s ↦ some s
  | none ↦ if p r then some r else none
]

abbrev pub completed : ℕ → TaskStep → Bool
completed issue r = r.issue_number == issue && is_done r.status

-- The old step names that `technical-planning` has replaced.
abbrev pub migrate_name : String → String
migrate_name s = if str_eq s "analyze" || str_eq s "plan" then "technical-planning" else s

abbrev pub name_or_empty : Option TaskStep → String
name_or_empty none = ""
name_or_empty (some r) = migrate_name r.step_name

unfoldable pub get_last_completed_step : ℕ → Steps → String
get_last_completed_step issue t = name_or_empty (last_where (completed issue) t.rows)

abbrev pub completed_as : ℕ → String → TaskStep → Bool
completed_as issue name r = completed issue r && str_eq r.step_name name

abbrev pub response_or : String → Option TaskStep → String
response_or d none = d
response_or d (some r) = r.response

-- The call falls back once, to the old name `plan`, which has no fallback of its own.
unfoldable pub get_step_response : ℕ → String → Steps → String
get_step_response issue name t =
    let old =
      if str_eq name "technical-planning"
      then response_or "" (last_where (completed_as issue "plan") t.rows)
      else "" in
    response_or old (last_where (completed_as issue name) t.rows)

-- `DELETE FROM task_steps WHERE p`
abbrev pub delete_where : (TaskStep → Bool) → List TaskStep → List TaskStep
delete_where p = select (λ r. not (p r))

unfoldable pub delete_steps : ℕ → Steps → Steps
delete_steps issue t = record t { rows = delete_where (λ r. r.issue_number == issue) t.rows }

-- The names in the statement of `DeleteStepsFrom`.
abbrev pub deleted_names : List String
deleted_names =
    "implement" ∷ "code-review" ∷ "create-pr" ∷ "check-pipeline" ∷ "awaiting-approval" ∷ "merge"
    ∷ []

-- `from_step` stands in the error message only.
unfoldable pub delete_steps_from : ℕ → String → Steps → Steps
delete_steps_from issue from_step t = record t {
  rows =
      delete_where (λ r. r.issue_number == issue && any (str_eq r.step_name) deleted_names) t.rows;
}

unfoldable pub update_step_plan_url : ℕ → String → String → Steps → Steps
update_step_plan_url issue name url t = record t {
  rows =
      update_where (completed_as issue name) (λ r. record r { plan_attachment_url = url }) t.rows;
}

abbrev pub url_or_empty : Option TaskStep → String
url_or_empty none = ""
url_or_empty (some r) = r.plan_attachment_url

unfoldable pub get_plan_attachment_url : ℕ → Steps → String
get_plan_attachment_url issue t =
    url_or_empty
      (last_where (λ r. completed issue r && not (str_eq r.plan_attachment_url "")) t.rows)
