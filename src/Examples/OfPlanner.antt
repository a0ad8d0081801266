-- ===== src/Examples/OfPlanner.antt =====
-- The planning of a sprint by internal/scheduler on concrete calls.
use one_dev_army.Common.{ℕ, ◌<◌, ◌≡◌, ◌≢◌, refl, true, none, some, List, [], ◌∷◌, arith, All}
use one_dev_army.Common.Text.{codes}
use one_dev_army.Common.Int.{ℤ, pos, max_int, ltb_ℤ}
use one_dev_army.Common.Effect.{ok, try}
use one_dev_army.Scheduler.Planner.{
  Tools, Sprint, scan_sprint, sprint_name, max_id, next_of, plan_sprint, assign_all, open_sprint,
  parse_sprint_plan, extract_text_content,
}
use one_dev_army.Scheduler.Planner.Numbers.{next_of-is_new}
use one_dev_army.Scheduler.Planner.Assignment.{IsRegister, IsPlanned, plan_sprint-IsPlanned}
use one_dev_army.Examples.{issue_of}

abbrev titles : List (List ℕ)
titles = sprint_name (pos 4) ∷ codes "Backlog" ∷ sprint_name (pos 3) ∷ []

few : max_id titles 0 < max_int
unfolding max_id scan_sprint sprint_name codes
few = omega arith

next_of-is_new_example :
    All (λ t. scan_sprint t ≢ some (next_of (ok titles))) titles
    × (ltb_ℤ (pos 0) (next_of (ok titles)) ≡ true)
    × (scan_sprint (sprint_name (next_of (ok titles))) ≡ some (next_of (ok titles)))
next_of-is_new_example = next_of-is_new titles few

-- The issues that were put into a milestone, the last first.
abbrev Log : Type 0
Log = List (ℤ × List ℕ)

data Logged (i : ℤ) (name : List ℕ) : Log → Type 0 where
  latest : (l : Log) → Logged i name ((i, name) ∷ l)
  older : (p : ℤ × List ℕ) {l : Log} → Logged i name l → Logged i name (p ∷ l)

abbrev planner : Tools Log
planner = record {
  list_open_issues = λ w. (ok (issue_of 4 [] ∷ []), w);
  create_session = λ s w. (ok "session", w);
  send_message = λ s p m w. (ok (("text", codes "ids") ∷ []), w);
  list_milestones = λ w. (ok titles, w);
  create_milestone = λ name w. (ok tt, w);
  set_milestone = λ i name w. (ok tt, (i, name) ∷ w);
  decode_plan = λ s. some (pos 4 ∷ pos 9 ∷ []);
  fill = λ s. s;
  router = none;
  planning_model = "model";
}

planner-IsRegister : IsRegister planner Logged
planner-IsRegister = record {
  put = λ i name w e. latest w;
  kept = λ i j name w h. older (j, name) h;
}

abbrev planned : Sprint
planned = record {
  id = next_of (ok titles);
  name = sprint_name (next_of (ok titles));
  milestone = sprint_name (next_of (ok titles));
  task_ids = pos 4 ∷ pos 9 ∷ [];
}

plans : (plan_sprint planner []).0 ≡ ok planned
unfolding plan_sprint open_sprint assign_all parse_sprint_plan extract_text_content try codes
plans = refl

plan_sprint-IsPlanned_example :
    IsPlanned planner Logged planner-IsRegister planned (plan_sprint planner []).1
plan_sprint-IsPlanned_example =
    plan_sprint-IsPlanned planner Logged planner-IsRegister [] planned plans
