-- ===== src/Mvp/Orchestrator/Stages/Restart.antt =====
-- What a restart of the current stage does to the progress of the ticket.
use one_dev_army.Common.{
  ℕ, ◌≡◌, ◌≢◌, refl, Bool, true, false, Option, none, some, List, String, str_eq, if◌then◌else◌,
  arith, any, if-intro,
}
use one_dev_army.Common.Effect.{Result, ok, err}
use one_dev_army.GitHub.Issue.{Issue}
use one_dev_army.Store.Steps.{deleted_names, delete_steps_from, get_last_completed_step, get_steps}
use one_dev_army.Store.Steps.Resume.{get_last_completed_step-delete_from}
use one_dev_army.Store.Steps.Rows.{get_steps-delete}
use one_dev_army.Store.Cache.{get_issue_cache}
use one_dev_army.Mvp.Orchestrator.{
  Broadcast, Orchestrator, is_processing, get_stage_label, is_worker_stage, stage_to_step_name,
}
use one_dev_army.Mvp.Orchestrator.Stages.{restart_current_stage, restart_issue, restart_step}

-- What a successful restart of issue `n` requires and leaves behind.
pub record IsRestarted {W : Type 0} (n : ℕ) (o o' : Orchestrator W) : Type 0 where
  pub idle : is_processing n o ≡ false
  pub issue : Issue
  pub cached : get_issue_cache n o.cache ≡ some issue
  pub active : is_worker_stage (get_stage_label issue) ≡ true
  pub progress_lost : any (str_eq (get_last_completed_step n o'.steps)) deleted_names ≡ false
  pub others_kept : (j : ℕ) → n ≢ j → get_steps j o'.steps ≡ get_steps j o.steps
  pub rest_kept : (o'.cache ≡ o.cache) × (o'.ledger ≡ o.ledger) × (o'.remote ≡ o.remote)

module _ {W : Type 0} (n : ℕ) (o : Orchestrator W) where
  -- The guards of a restart, on what they read.
  abbrev restart_guarded : Bool → Bool → Option Issue → Result Unit × Orchestrator W
  restart_guarded busy store c =
      if busy
      then (err "cannot restart stage while task is actively being processed", o)
      else (if store
          then (elim c [
            | none ↦ (err "getting issue from cache: issue not found in cache", o)
            | some i ↦ restart_issue n i o
          ])
          else (err "store not configured", o))

  -- The task that is processed is another one, so that its session stays.
  restart_step-IsRestarted :
      (i : Issue) (step : String)
      → is_processing n o ≡ false
      → get_issue_cache n o.cache ≡ some i
      → is_worker_stage (get_stage_label i) ≡ true
      → IsRestarted n o (restart_step n step i o).1
  restart_step-IsRestarted i step p q a =
      rw p (if-intro (IsRestarted n o) o.has_hub restarted restarted)
    where
      restarted :
          {bs : List Broadcast}
          → IsRestarted n o (record o { steps = delete_steps_from n step o.steps; broadcasts = bs })
      restarted = record {
        idle = p;
        issue = i;
        cached = q;
        active = a;
        progress_lost = get_last_completed_step-delete_from n step o.steps;
        others_kept = λ j ne. (get_steps-delete n j step o.steps ne).1;
        rest_kept = (refl, refl, refl);
      }

  restart_issue-IsRestarted :
      (i : Issue)
      → is_processing n o ≡ false
      → get_issue_cache n o.cache ≡ some i
      → (restart_issue n i o).0 ≡ ok tt
      → IsRestarted n o (restart_issue n i o).1
  restart_issue-IsRestarted i p q = by_stage (get_stage_label i) refl
    where
      by_stage :
          (s : String)
          → get_stage_label i ≡ s
          → let r =
              if str_eq s ""
              then (err "issue has no stage label", o)
              else (if is_worker_stage s
                  then (if str_eq (stage_to_step_name s) ""
                      then (err "unknown stage", o)
                      else restart_step n (stage_to_step_name s) i o)
                  else (err "cannot restart stage: not an active worker stage", o)) in
            r.0 ≡ ok tt → IsRestarted n o r.1
      by_stage s e = ground (arith, restart_step-IsRestarted i (stage_to_step_name s) p q)

  -- A restart of the current stage that is refused changes nothing.
  pub restart_current_stage_err :
      {e : String} → (restart_current_stage n o).0 ≡ err e → (restart_current_stage n o).1 ≡ o
  unfolding restart_current_stage
  restart_current_stage_err = by_guards (is_processing n o) o.has_store (get_issue_cache n o.cache)
    where
      by_guards :
          (busy store : Bool) (c : Option Issue) {e : String}
          → let r = restart_guarded busy store c in r.0 ≡ err e → r.1 ≡ o
      by_guards true store c h = refl
      by_guards false false c h = refl
      by_guards false true none h = refl
      by_guards false true (some i) {e} h = ground arith

  -- A restart that succeeds was asked for a ticket that nobody works on and whose cached stage is an
  -- active one. Behind it, the last completed step of the ticket is none from `implement` on, also
  -- when a later stage is restarted; the steps of other tickets, the cache, the ledger and GitHub
  -- are as before.
  pub restart_current_stage_ok :
      (restart_current_stage n o).0 ≡ ok tt → IsRestarted n o (restart_current_stage n o).1
  unfolding restart_current_stage
  restart_current_stage_ok =
      by_guards (is_processing n o) o.has_store (get_issue_cache n o.cache) refl refl
    where
      by_guards :
          (busy store : Bool) (c : Option Issue)
          → is_processing n o ≡ busy
          → get_issue_cache n o.cache ≡ c
          → let r = restart_guarded busy store c in r.0 ≡ ok tt → IsRestarted n o r.1
      by_guards true store c p q h = cc
      by_guards false false c p q h = cc
      by_guards false true none p q h = cc
      by_guards false true (some i) p q h = restart_issue-IsRestarted i p q h
