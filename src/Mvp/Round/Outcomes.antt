-- ===== src/Mvp/Round/Outcomes.antt =====
-- What a round leaves behind.
use one_dev_army.Common.{
  ℕ, ◌+◌, str_eq, ◌≡◌, ◌≢◌, refl, ap, ◌∙◌, if◌then◌else◌, true, false, not, Option, none, some,
  List, String, arith, if-intro,
}
use one_dev_army.Common.Effect.{Effect, Result, ok, err}
use one_dev_army.GitHub.Stage.{done}
use one_dev_army.GitHub.Stage as GitHubStage
use one_dev_army.GitHub.Reason.{StageChangeReason, worker_already_done, worker_failed}
use one_dev_army.GitHub.Issue.{Issue}
use one_dev_army.GitHub.Client.{set_stage_label}
use one_dev_army.Store.Steps.Rows.{IsTable}
use one_dev_army.Mvp.Orchestrator.{Orchestrator}
use one_dev_army.Mvp.Orchestrator.Stages.{
  change_stage, settle, commit, update_cache, announce, check_closable, record_change,
}
use one_dev_army.Mvp.Orchestrator.Selection.{Pick, pick_issue}
use one_dev_army.Store.Cache.{get_open_issues_cache_by_milestone}
use one_dev_army.Mvp.Worker.{
  Fault, already_done, cancelled, plain, Outcome, value, fault, waiting, message, Tools,
}
use one_dev_army.Mvp.Worker.Steps.{resume_from, step_index, index_from}
use one_dev_army.Mvp.Worker.Process.{Config}
use one_dev_army.Store.Steps.{
  Steps, insert_step, finish_step, get_last_completed_step, migrate_name,
}
use one_dev_army.Store.Steps.Resume.{
  get_last_completed_step-finish, get_last_completed_step-finish_other,
}
use one_dev_army.Mvp.Round.{
  RoundEnd, record_step, settle_failure, is_already_done, settle_round, work, on_issue,
  on_milestone, take_up, round,
}

module _ {W : Type 0} (tools : Tools W) where
  settle-steps :
      (n : ℕ) (s : GitHubStage.Stage) (reason : StageChangeReason) (o : Orchestrator W)
      (r : Result Issue × W)
      → (settle n s reason o r).1.steps ≡ o.steps
  unfolding settle commit update_cache announce check_closable record_change
  settle-steps n s reason o (ok i, w) = refl
  settle-steps n s reason o (err e, w) = refl

  -- Whether it succeeds or not, a stage change leaves the steps alone.
  change_stage-steps :
      (n : ℕ) (s : GitHubStage.Stage) (reason : StageChangeReason) (o : Orchestrator W)
      → (change_stage tools.gh n s reason o).1.steps ≡ o.steps
  unfolding change_stage
  change_stage-steps n s reason o =
      if-intro (λ (r : Result Unit × Orchestrator W). r.1.steps ≡ o.steps) o.has_gh
        (settle-steps n s reason o (set_stage_label tools.gh n s o.remote)) refl

  -- The name of the row that a round writes for an error of the worker.
  abbrev pub noted : Fault → String
  noted e = if is_already_done tools e then "already-done" else "failed"

  noted-is_no_step : (e : Fault) → step_index (noted e) ≡ none
  unfolding step_index index_from
  noted-is_no_step e = if-intro (λ name. step_index name ≡ none) (is_already_done tools e) refl refl

  abbrev inserted : ℕ → String → Orchestrator W → ℕ × Steps
  inserted n name o = insert_step n name name "" "" o.steps

  record_step-steps :
      (n : ℕ) (name response : String) (o : Orchestrator W)
      → o.has_store ≡ true
      → (record_step n name response o).steps
        ≡ finish_step (inserted n name o).0 response (inserted n name o).1
  unfolding record_step
  record_step-steps n name response o stored_in =
      ap
        (λ b.
          if b then finish_step (inserted n name o).0 response (inserted n name o).1 else o.steps)
        stored_in

  settle_failure-steps :
      (n : ℕ) (e : Fault) (o : Orchestrator W)
      → o.has_store ≡ true
      → (settle_failure tools n e o).steps
        ≡ finish_step (inserted n (noted e) o).0 (message e) (inserted n (noted e) o).1
  unfolding settle_failure
  settle_failure-steps n (already_done t) o h =
      change_stage-steps n done worker_already_done _
      ∙ record_step-steps n "already-done" (message (already_done t)) o h
  settle_failure-steps n (cancelled t) o h =
      change_stage-steps n GitHubStage.failed worker_failed _
      ∙ record_step-steps n "failed" (message (cancelled t)) o h
  settle_failure-steps n (plain t) o h =
      change_stage-steps n GitHubStage.failed worker_failed _
      ∙ record_step-steps n "failed" (message (plain t)) o h

  noted-is_today : (e : Fault) → migrate_name (noted e) ≡ noted e
  noted-is_today e = if-intro (λ name. migrate_name name ≡ name) (is_already_done tools e) refl refl

  resume_from-unknown :
      (n : ℕ) (t : Steps) (name : String)
      → get_last_completed_step n t ≡ name
      → step_index name ≡ none
      → resume_from n t ≡ 0
  unfolding resume_from
  resume_from-unknown n t name e u =
      rw (e, u) (if-intro (λ k. ◌≡◌ {A = ℕ} k 0) (str_eq name "") refl refl)

  -- Where a worker resumes behind the last completed step.
  abbrev resume_at : String → ℕ
  resume_at last =
      if str_eq last "" then 0 else (elim (step_index last) [ none ↦ 0 | some k ↦ k + 1 ])

  module _ (i : Issue) (e : Fault) (o : Orchestrator W) (stored_in : o.has_store ≡ true)
      (table : IsTable o.steps) where
    -- With a store whose ids were all handed out, when a round settles an error of the worker,
    -- whether or not the stage change succeeds: the last completed step of the ticket is a row named
    -- `already-done` or `failed`, which is none of the steps of the worker's order, so that the worker
    -- would start the ticket over from the first step, whatever it had completed; and every other
    -- ticket resumes where it would have before.
    pub settle_round-starts_over :
        let o' = (settle_round tools i (fault e, o)).1 in
        (get_last_completed_step i.number o'.steps ≡ noted e)
        × (step_index (noted e) ≡ none)
        × (resume_from i.number o'.steps ≡ 0)
        × ((j : ℕ) → i.number ≢ j → resume_from j o'.steps ≡ resume_from j o.steps)
    unfolding resume_from
    settle_round-starts_over =
        let written = settle_failure-steps i.number e o stored_in in
        let last =
          ap (get_last_completed_step i.number) written
          ∙ ((get_last_completed_step-finish i.number (noted e) (noted e) "" "" (message e) o.steps
                table).0
              ∙ noted-is_today e) in
        (
          last,
          noted-is_no_step e,
          resume_from-unknown i.number _ (noted e) last (noted-is_no_step e),
          λ j ne. ap (resume_at) (
              ap (get_last_completed_step j) written
              ∙ get_last_completed_step-finish_other i.number (noted e) (noted e) "" "" (message e)
                  o.steps table j ne),
        )

-- Nobody works on a ticket.
abbrev pub IsFree : {W : Type 0} → Orchestrator W → Type 0
IsFree o = (o.current_task ≡ none) × (o.processing ≡ false)

module _ {W : Type 0} (tools : Tools W) where
  settle-IsFree :
      (n : ℕ) (s : GitHubStage.Stage) (reason : StageChangeReason) (o : Orchestrator W)
      (r : Result Issue × W)
      → IsFree o
      → IsFree (settle n s reason o r).1
  unfolding settle commit update_cache announce check_closable record_change
  settle-IsFree n s reason o (ok i, w) h = h
  settle-IsFree n s reason o (err e, w) h = h

  change_stage-IsFree :
      (n : ℕ) (s : GitHubStage.Stage) (reason : StageChangeReason) (o : Orchestrator W)
      → IsFree o
      → IsFree (change_stage tools.gh n s reason o).1
  unfolding change_stage
  change_stage-IsFree n s reason o h =
      if-intro (λ (r : Result Unit × Orchestrator W). IsFree r.1) o.has_gh
        (settle-IsFree n s reason o (set_stage_label tools.gh n s o.remote) h) h

  settle_round-IsFree :
      (i : Issue) (r : Outcome Unit × Orchestrator W)
      → IsFree r.1
      → IsFree (settle_round tools i r).1
  unfolding settle_failure record_step
  settle_round-IsFree i (value _, o) h = h
  settle_round-IsFree i (fault e, o) h =
      if-intro IsFree (is_already_done tools e)
        (change_stage-IsFree i.number done worker_already_done _ h)
        (change_stage-IsFree i.number GitHubStage.failed worker_failed _ h)
  settle_round-IsFree i (waiting, o) h = h

  work-IsFree :
      (cfg : Config) (polls rounds : ℕ) (i : Issue) (o : Orchestrator W)
      → IsFree (work tools cfg polls rounds i o).1
  unfolding work
  work-IsFree cfg polls rounds i o = (refl, refl)

  module _ (llm : List Issue → Option ℕ) (cfg : Config) (polls rounds : ℕ) where
    on_issue-IsFree :
        (p : Pick) (next : Option Issue) (o : Orchestrator W)
        → IsFree o
        → IsFree (on_issue tools llm cfg polls rounds p next o).1
    on_issue-IsFree p none o h = h
    on_issue-IsFree p (some i) o h =
        settle_round-IsFree i (work tools cfg polls rounds i (take_up tools p i o))
          (work-IsFree cfg polls rounds i (take_up tools p i o))

    pick_issue-IsFree :
        (issues : List Issue) (o : Orchestrator W) → IsFree o → IsFree (pick_issue llm issues o).1
    unfolding pick_issue
    pick_issue-IsFree issues o h = ground arith

    on_milestone-IsFree :
        (m : Result (Option String)) (o : Orchestrator W)
        → IsFree o
        → IsFree (on_milestone tools llm cfg polls rounds m o).1
    on_milestone-IsFree (err e) o h = h
    on_milestone-IsFree (ok none) o h = h
    on_milestone-IsFree (ok (some title)) o h =
        let issues = get_open_issues_cache_by_milestone title o.cache in
        on_issue-IsFree (pick_issue llm issues o).0 _ _ (pick_issue-IsFree issues o h)

    -- A round that begins with nobody at work ends so, however it ends: a ticket that was taken up
    -- is let go, so that manual requests, restarts and sync events for it are served again.
    pub round-IsFree :
        (oldest_milestone : Effect W (Option String)) (o : Orchestrator W)
        → IsFree o
        → IsFree (round tools llm cfg polls rounds oldest_milestone o).1
    unfolding round
    round-IsFree oldest_milestone o h =
        if-intro (λ (r : RoundEnd × Orchestrator W). IsFree r.1) (not o.running) h
          (if-intro (λ (r : RoundEnd × Orchestrator W). IsFree r.1) o.paused h
            (on_milestone-IsFree _ _ h))
