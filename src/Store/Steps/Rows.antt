-- ===== src/Store/Steps/Rows.antt =====
-- The rows of `task_steps` under the statements: fresh ids, and what each statement leaves alone.
use one_dev_army.Common.{
  ℕ, ◌+◌, ◌≤◌, ◌<◌, ◌≡◌, ◌≢◌, refl, ◌==◌, Bool, true, false, List, [], ◌∷◌, ◌++◌, String, arith,
  select, All,
}
use one_dev_army.Store.Steps.{
  TaskStep, Steps, insert_step, update_where, finish_step, fail_step, get_steps, delete_where,
  delete_steps, delete_steps_from, update_step_plan_url,
}

-- Every id was handed out before `next_id`.
abbrev pub IsTable : Steps → Type 0
IsTable t = All (λ (r : TaskStep). r.id < t.next_id) t.rows

module _ (P : TaskStep → Type 0) where
  All-update_where :
      (p : TaskStep → Bool) (f : TaskStep → TaskStep) (rs : List TaskStep)
      → ((r : TaskStep) → P r → P (f r))
      → All P rs
      → All P (update_where p f rs)
  All-update_where p f [] k h = tt
  All-update_where p f (r ∷ rs) k (h, hs) = (ground (arith, k r h), All-update_where p f rs k hs)

  All-select : (p : TaskStep → Bool) (rs : List TaskStep) → All P rs → All P (select p rs)
  All-select p [] h = tt
  All-select p (r ∷ rs) (h, hs) = ground (arith, All-select p rs hs)

  All-append : (rs : List TaskStep) (r : TaskStep) → All P rs → P r → All P (rs ++ r ∷ [])
  All-append [] r h k = (k, tt)
  All-append (s ∷ rs) r (h, hs) k = (h, All-append rs r hs k)

  All-mono :
      (Q : TaskStep → Type 0) (rs : List TaskStep)
      → ((r : TaskStep) → P r → Q r)
      → All P rs
      → All Q rs
  All-mono Q [] k h = tt
  All-mono Q (r ∷ rs) k (h, hs) = (k r h, All-mono Q rs k hs)

-- The statements that change the table.
pub data Statement : Type 0 where
  insert : ℕ → String → String → String → String → Statement
  finish fail : ℕ → String → Statement
  delete : ℕ → Statement
  delete_from : ℕ → String → Statement
  set_url : ℕ → String → String → Statement

abbrev pub run : Statement → Steps → Steps
run (insert issue name prompt session llm) t = (insert_step issue name prompt session llm t).1
run (finish id response) t = finish_step id response t
run (fail id msg) t = fail_step id msg t
run (delete issue) t = delete_steps issue t
run (delete_from issue name) t = delete_steps_from issue name t
run (set_url issue name url) t = update_step_plan_url issue name url t

-- Every statement keeps the table one whose ids were all handed out before the next one, so that
-- the next id is new, and ids are never handed out twice.
pub run-IsTable :
    (s : Statement) (t : Steps) → IsTable t → IsTable (run s t) × (t.next_id ≤ (run s t).next_id)
unfolding insert_step finish_step fail_step delete_steps delete_steps_from update_step_plan_url
run-IsTable (insert issue name prompt session llm) t h = (
  All-append (λ r. r.id < t.next_id + 1) t.rows _
      (All-mono (λ r. r.id < t.next_id) (λ r. r.id < t.next_id + 1) t.rows (λ r k. omega arith) h)
      (omega arith),
  omega arith,
)
run-IsTable (finish id response) t h =
    (All-update_where (λ r. r.id < t.next_id) _ _ t.rows (λ r k. k) h, omega arith)
run-IsTable (fail id msg) t h =
    (All-update_where (λ r. r.id < t.next_id) _ _ t.rows (λ r k. k) h, omega arith)
run-IsTable (delete issue) t h = (All-select (λ r. r.id < t.next_id) _ t.rows h, omega arith)
run-IsTable (delete_from issue name) t h =
    (All-select (λ r. r.id < t.next_id) _ t.rows h, omega arith)
run-IsTable (set_url issue name url) t h =
    (All-update_where (λ r. r.id < t.next_id) _ _ t.rows (λ r k. k) h, omega arith)

select-delete_where :
    (j : ℕ) (p : TaskStep → Bool) (rs : List TaskStep)
    → ((r : TaskStep) → (r.issue_number == j) ≡ true → p r ≡ false)
    → select (λ r. r.issue_number == j) (delete_where p rs) ≡ select (λ r. r.issue_number == j) rs
select-delete_where j p [] h = refl
select-delete_where j p (r ∷ rs) h = ground (arith, h r, select-delete_where j p rs h)

-- A retry of one issue, full or from `implement` on, keeps the steps of every other issue.
pub get_steps-delete :
    (issue j : ℕ) (name : String) (t : Steps)
    → issue ≢ j
    → (get_steps j (delete_steps issue t) ≡ get_steps j t)
      × (get_steps j (delete_steps_from issue name t) ≡ get_steps j t)
unfolding get_steps delete_steps delete_steps_from
get_steps-delete issue j name t h = (
  select-delete_where j _ t.rows (λ r e. ground arith),
  select-delete_where j _ t.rows (λ r e. ground arith),
)
