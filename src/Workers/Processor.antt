-- ===== src/Workers/Processor.antt =====
-- internal/worker/processor.go: a task is run through `Pipeline.Run` with the stage executor, and the
-- answer is carried out. The model, git and GitHub are the fields of `Tools`; `fill` puts the number,
-- title and body of the issue and a context into one of the three prompts. Log lines are left out,
-- the calls of the clock stand in `now`, and so is the stage that the worker shows.
pub mod Watched
pub mod Approval
use Prim.Native.String.{◌++◌}
use one_dev_army.Common.{
  ℕ, ◌+◌, ◌-◌, ◌*◌, Bool, true, false, ◌||◌, Option, none, some, List, [], ◌∷◌, String, str_eq,
  if◌then◌else◌,
}
use one_dev_army.Common.Effect.{Result, ok, err, Effect, try, ignore, pure}
use one_dev_army.Common.Text.{contains}
use one_dev_army.GitHub.Stage as GitHubStage
use one_dev_army.GitHub.Reason.{StageChangeReason, worker_needs_user, worker_blocked}
use one_dev_army.Llm.{Router, select_model_for_stage}
use one_dev_army.Mvp.Worker.Texts.{itoa}
use one_dev_army.Pipeline.Stage.{
  Stage, queued, analysis, coding, code_review, create_pr, approve, merging, done, blocked, text,
}
use one_dev_army.Pipeline.Run
use one_dev_army.Pipeline.Run.{StageResult, Reply, Answer}
use one_dev_army.Workers.Texts.{branch_name}
use one_dev_army.Workers.{Task}

pub data Prompt : Type 0 where
  worker_analysis worker_coding worker_code_review : Prompt

-- The arguments of a tool call stand as the text that `json.MarshalIndent` gives.
pub data Part : Type 0 where
  text_part : String → Part
  tool_call : Option (String × String) → Part
  tool_result : Option (String × String × String) → Part
  other_part : Part

pub record StageMetric : Type 0 where
  pub task_id : ℕ
  pub stage : String
  pub llm : String
  pub duration_s : ℕ

pub record Tools (W : Type 0) : Type 0 where
  pub create_branch : String → Effect W Unit
  pub remove_branch : String → Effect W Unit
  pub create_session : String → Effect W String
  pub send_message : String → String → String → Effect W (Option (List Part))
  pub create_pr : String → String → String → Effect W String
  pub add_comment : ℕ → String → Effect W Unit
  pub change_stage : Option (ℕ → GitHubStage.Stage → StageChangeReason → Effect W Unit)
  pub save_stage_metric : Option (StageMetric → Effect W Unit)
  pub now : W → ℕ × W
  pub fill : Prompt → ℕ → String → String → String → String
  pub router : Option Router
  pub max_retries : ℕ

unfoldable pub format_tool_call : String × String → String
format_tool_call (name, args) = "[Tool Call: " ++ name ++ "]\nArguments: " ++ args

unfoldable pub format_tool_result : String × String × String → String
format_tool_result (id, error, output) =
    if str_eq error ""
    then "[Tool Result: " ++ id ++ "]\n" ++ output
    else "[Tool Result: " ++ id ++ "]\nError: " ++ error

-- What one part adds to the parts of the text.
abbrev pub add_part : Part → List String → List String
add_part (text_part s) ps = if str_eq s "" then ps else s ∷ ps
add_part (tool_call none) ps = ps
add_part (tool_call (some c)) ps = format_tool_call c ∷ ps
add_part (tool_result none) ps = ps
add_part (tool_result (some r)) ps = format_tool_result r ∷ ps
add_part other_part ps = ps

abbrev pub shown : List Part → List String
shown [] = []
shown (p ∷ ps) = add_part p (shown ps)

-- `strings.Join(parts, "\n\n")`
abbrev pub join_parts : List String → String
join_parts [] = ""
join_parts (s ∷ []) = s
join_parts (s ∷ t ∷ ts) = s ++ "\n\n" ++ join_parts (t ∷ ts)

unfoldable pub extract_full_content : Option (List Part) → String
unfolding format_tool_call format_tool_result
extract_full_content none = ""
extract_full_content (some ps) = join_parts (shown ps)

unfoldable pub is_approved : String → Bool
unfolding contains
is_approved output = contains output "\"approved\": true" || contains output "\"approved\":true"

abbrev pub succeed : Stage → String → StageResult
succeed s output = record { stage = s; success = true; output = output }

module _ {W : Type 0} (t : Tools W) (task : Task) where
  open t use {
    create_branch, remove_branch, create_session, send_message, create_pr, add_comment, now, fill,
    max_retries,
  }

  abbrev pub model_of : Option Router → Stage → String
  model_of none s = ""
  model_of (some r) s = select_model_for_stage r (text s)

  unfoldable pub llm_for_stage : Stage → String
  llm_for_stage s = model_of t.router s

  abbrev pub save_with : Option (StageMetric → Effect W Unit) → StageMetric → Effect W Unit
  save_with none m = pure tt
  save_with (some save) m = save m

  unfoldable pub record_metric : ℕ → Stage → String → ℕ → Effect W Unit
  record_metric id s llm duration =
      save_with t.save_stage_metric
        (record { task_id = id; stage = text s; llm = llm; duration_s = duration })

  -- The end of the three calls: the duration, the metric and the result.
  unfoldable pub conclude :
      (String → Bool) → ℕ → Stage → ℕ → Option (List Part) → Effect W StageResult
  unfolding llm_for_stage record_metric
  conclude good id s start msg w =
      let output = extract_full_content msg in
      let (end, w1) = now w in
      ignore (record_metric id s (llm_for_stage s) (end - start))
        (pure (record { stage = s; success = good output; output = output })) w1

  -- `executeSession`, `executeCoding` and `executeReview` differ by the prompt and by what makes the
  -- stage a success.
  unfoldable pub ask : Prompt → (String → Bool) → ℕ → Stage → String → Effect W StageResult
  unfolding llm_for_stage conclude
  ask prompt good id s context w =
      let (start, w1) = now w in
      try (λ e. "creating session for " ++ text s ++ ": " ++ e)
        (create_session ("ODA: " ++ text s ++ " for #" ++ itoa task.issue_number))
        (λ session.
          try (λ e. "sending message for " ++ text s ++ ": " ++ e)
            (send_message session (fill prompt task.issue_number task.title task.body context)
              (llm_for_stage s))
            (conclude good id s start))
        w1

  -- `StageExecutor.Execute`
  unfoldable pub execute : ℕ → Stage → String → Effect W StageResult
  unfolding ask
  execute id analysis context = ask worker_analysis (λ _. true) id analysis context
  execute id coding context = ask worker_coding (λ _. true) id coding context
  execute id code_review context = ask worker_code_review is_approved id code_review context
  execute id Stage.create_pr context = pure (succeed Stage.create_pr "ready to create PR")
  execute id approve context = pure (succeed approve "awaiting approval")
  execute id merging context = pure (succeed merging "ready to merge")
  execute id s context = pure (succeed s "")

  -- The results of the executor, as `Pipeline.Run` reads them.
  abbrev pub reply : Result StageResult × W → Reply × W
  reply (ok r, w) = (Reply.ok r, w)
  reply (err e, w) = (Reply.error e, w)

  abbrev pub executor : ℕ → Stage → String → W → Reply × W
  executor id s context w = reply (execute id s context w)

  abbrev pub change_with :
      Option (ℕ → GitHubStage.Stage → StageChangeReason → Effect W Unit)
      → StageChangeReason
      → Effect W Unit
  change_with none reason = pure tt
  change_with (some change) reason = change task.issue_number GitHubStage.needs_user reason

  -- The case `StageDone`.
  unfoldable pub finish : String → Effect W Unit
  finish branch =
      try (λ e. "creating PR for task #" ++ itoa task.issue_number ++ ": " ++ e)
        (create_pr branch ("fix #" ++ itoa task.issue_number ++ ": " ++ task.title)
          ("Closes #" ++ itoa task.issue_number ++ "\n\nAutomated implementation by ODA."))
        (λ _.
          ignore (change_with t.change_stage worker_needs_user)
            (ignore (remove_branch branch) (pure tt)))

  -- The case `StageBlocked`.
  unfoldable pub block : String → Effect W Unit
  block output = ignore (change_with t.change_stage worker_blocked) (
      ignore
        (add_comment task.issue_number
          ("ODA pipeline blocked at stage. Last output:\n\n" ++ output))
        (pure tt))

  abbrev pub carry_out : String → Stage → String → Effect W Unit
  carry_out branch done output = finish branch
  carry_out branch blocked output = block output
  carry_out branch s output = pure tt

  -- A run that the fuel cut off has no answer; there is none with the fuel that `process` gives.
  abbrev pub settle : String → Answer → Effect W Unit
  settle branch (Answer.finished r) w = carry_out branch r.stage r.output w
  settle branch (Answer.failure s e) w = (
    err (
        "pipeline failed for task #"
        ++ itoa task.issue_number
        ++ ": executing stage "
        ++ text s
        ++ ": "
        ++ e),
    w,
  )
  settle branch Answer.running w = (err "running", w)

  -- A task that is new or queued starts at the analysis.
  unfoldable pub start_stage : Stage → Stage
  start_stage queued = analysis
  start_stage (Stage.other s) = if str_eq s "" then analysis else Stage.other s
  start_stage s = s

  unfoldable pub issue_context : String
  issue_context = "Issue #" ++ itoa task.issue_number ++ ": " ++ task.title ++ "\n\n" ++ task.body

  unfoldable pub run_pipeline : Stage → W → Answer × Run.Loop W
  run_pipeline s w =
      Run.run executor max_retries task.id (100 * (max_retries + 1)) (start_stage s) issue_context w

  -- `Processor.Process`, with `task.Stage` read as a stage of the pipeline.
  unfoldable pub process : Stage → Effect W Unit
  unfolding branch_name finish block run_pipeline start_stage
  process s =
      let branch = branch_name task.issue_number task.title in
      try (λ e. "creating branch for task #" ++ itoa task.issue_number ++ ": " ++ e)
        (create_branch branch) (λ _ w. let (a, l) = run_pipeline s w in settle branch a l.world)
