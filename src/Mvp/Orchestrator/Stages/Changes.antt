-- ===== src/Mvp/Orchestrator/Stages/Changes.antt =====
-- What one `ChangeStage` leaves behind: the cache and the ledger after a success, and nothing but
-- the remote calls after a failure.
use one_dev_army.Common.{
  ℕ, ◌≡◌, ◌≢◌, refl, ap, ◌∙◌, Bool, true, false, some, List, [], ◌∷◌, String, starts_with,
  if◌then◌else◌, arith, first, select, ◌==◌,
}
use one_dev_army.Common.Effect.{Result, ok, err}
use one_dev_army.GitHub.Stage.{Stage, done, unset, is_stage_label, get_stage_from_labels}
use one_dev_army.GitHub.Stage as GitHubStage
use one_dev_army.GitHub.Reason.{StageChangeReason}
use one_dev_army.GitHub.Reason
use one_dev_army.GitHub.Issue.{Issue}
use one_dev_army.GitHub.Client.{Gh, set_stage_label}
use one_dev_army.GitHub.Relabel.{set_stage_label-IsRelabelled}
use one_dev_army.Store.Cache.{get_issue_cache, save_issue_cache}
use one_dev_army.Store.Cache.Lookup.{get_issue_cache-save, stored}
use one_dev_army.Store.Ledger.{save_stage_change}
use one_dev_army.Mvp.Orchestrator.{Orchestrator, get_stage_from_issue}
use one_dev_army.Mvp.Orchestrator.Stages.{
  change_stage, cached_stage, commit, settle, active_milestone,
}

-- The first of the labels with a property, where one label alone has a weaker property.
first-select :
    (p q : String → Bool) (x : String) (ls : List String)
    → ((l : String) → p l ≡ true → q l ≡ true)
    → p x ≡ true
    → select q ls ≡ x ∷ []
    → first p ls ≡ some x
first-select p q x [] h k e = cc
first-select p q x (l ∷ ls) h k e = ground (arith, k, h l, first-select p q x ls h k)

starts_with_stage : (l : String) → starts_with l "stage:" ≡ true → is_stage_label l ≡ true
unfolding is_stage_label
starts_with_stage l h = rw h

label-starts_with : (s : Stage) → s ≢ unset → starts_with (GitHubStage.label s) "stage:" ≡ true
unfolding GitHubStage.label
label-starts_with unset h = absurd (h refl)
label-starts_with done h = refl
label-starts_with s h = refl

module _ {W : Type 0} where
  module _ (n : ℕ) (from : String) (s : Stage) (reason : StageChangeReason) (i : Issue)
      (o : Orchestrator W) (stored_in : o.has_store ≡ true) where
    abbrev committed : Orchestrator W
    committed = commit n from s reason i o

    commit-cache :
        (j : ℕ)
        → get_issue_cache j committed.cache ≡ (
            if i.number == j
            then some (stored (record i { updated_at = some o.clock }))
            else get_issue_cache j o.cache)
    unfolding commit
    commit-cache j =
        rw
          (ap
            (λ b. get_issue_cache j (
              if b
              then save_issue_cache (record i { updated_at = some o.clock }) (active_milestone o)
                  true o.cache
              else o.cache))
            stored_in)
          (get_issue_cache-save j (record i { updated_at = some o.clock }) (active_milestone o)
            o.cache)

    commit-rest : (committed.steps ≡ o.steps) × (committed.has_store ≡ o.has_store)
    unfolding commit
    commit-rest = (refl, refl)

    commit-ledger :
        committed.ledger
        ≡ save_stage_change o.clock n from
            (GitHubStage.label s)
            (Reason.label reason)
            "orchestrator"
            o.ledger
    unfolding commit
    commit-ledger = ground arith

  cached_stage-read :
      (n : ℕ) (o : Orchestrator W) (i : Issue) (l : String)
      → o.has_store ≡ true
      → get_issue_cache n o.cache ≡ some i
      → get_stage_from_issue i ≡ some l
      → cached_stage n o ≡ l
  unfolding cached_stage
  cached_stage-read n o i l h e f = ground arith

  module _ (gh : Gh W) (n : ℕ) (s : Stage) (reason : StageChangeReason) (o : Orchestrator W) where
    settle_err :
        (r : Result Issue × W) {e : String}
        → (settle n s reason o r).0 ≡ err e
        → (settle n s reason o r).1 ≡ record o { remote = (settle n s reason o r).1.remote }
    unfolding settle
    settle_err (ok i, w) h = cc
    settle_err (err x, w) h = refl

    -- A `ChangeStage` that fails has changed nothing in the orchestrator, its tables and its
    -- broadcasts; only the remote world may have moved.
    pub change_stage_err :
        {e : String}
        → (change_stage gh n s reason o).0 ≡ err e
        → (change_stage gh n s reason o).1
          ≡ record o { remote = (change_stage gh n s reason o).1.remote }
    unfolding change_stage
    change_stage_err = by_client o.has_gh
      where
        by_client :
            (b : Bool) {e : String}
            → let r =
                if b
                then settle n s reason o (set_stage_label gh n s o.remote)
                else (err "github client not configured", o) in
              r.0 ≡ err e → r.1 ≡ record o { remote = r.1.remote }
        by_client true h = settle_err (set_stage_label gh n s o.remote) h
        by_client false h = refl

-- What a successful `ChangeStage` of issue `n` has made of the orchestrator.
pub record IsMoved {W : Type 0} (n : ℕ) (s : Stage) (reason : StageChangeReason)
    (o o' : Orchestrator W) : Type 0 where
  pub issue : Issue
  pub cached : get_issue_cache n o'.cache ≡ some issue
  pub reads_as : get_stage_from_labels issue.labels ≡ s
  pub cached_as : cached_stage n o' ≡ GitHubStage.label s
  pub others_kept : (j : ℕ) → n ≢ j → get_issue_cache j o'.cache ≡ get_issue_cache j o.cache
  pub recorded :
      o'.ledger
      ≡ save_stage_change o.clock n
          (cached_stage n o)
          (GitHubStage.label s)
          (Reason.label reason)
          "orchestrator"
          o.ledger
  pub steps_kept : o'.steps ≡ o.steps

-- GitHub answers a question about an issue with that issue.
abbrev pub AnswersNumber : {W : Type 0} → Gh W → Type 0
AnswersNumber {W} gh = (n : ℕ) (w : W) (i : Issue) → (gh.view_issue n w).0 ≡ ok i → i.number ≡ n

module _ {W : Type 0} (gh : Gh W) (answers : AnswersNumber gh) (n : ℕ) (s : Stage)
    (reason : StageChangeReason) (o : Orchestrator W) (real : s ≢ unset)
    (stored_in : o.has_store ≡ true) where
  settle-IsMoved :
      (i : Issue) (w : W)
      → set_stage_label gh n s o.remote ≡ (ok i, w)
      → IsMoved n s reason o (settle n s reason o (ok i, w)).1
  unfolding settle get_stage_from_issue
  settle-IsMoved i w e =
      let (before, asked, rel) = set_stage_label-IsRelabelled gh n s o.remote real w i e in
      let numbered : i.number ≡ n = rel.number_kept ∙ answers n o.remote before asked in
      let o1 = record o { remote = w } in
      let read = commit-cache n (cached_stage n o) s reason i o1 stored_in in
      let rest = commit-rest n (cached_stage n o) s reason i o1 stored_in in
      let now = stored (record i { updated_at = some o.clock }) in
      let cached : get_issue_cache n (settle n s reason o (ok i, w)).1.cache ≡ some now =
        ground (arith, numbered, read n) in
      record {
        issue = now;
        cached = cached;
        reads_as = rel.reads_as;
        cached_as = cached_stage-read n _ now (GitHubStage.label s) (rest.1 ∙ stored_in) cached (
            first-select (λ l. starts_with l "stage:") is_stage_label (GitHubStage.label s) i.labels
              starts_with_stage (label-starts_with s real) rel.one_stage_label);
        others_kept = λ j ne. ground (arith, numbered, read j);
        recorded = commit-ledger n (cached_stage n o) s reason i o1 stored_in;
        steps_kept = rest.0;
      }

  -- A successful `ChangeStage` of issue `n` to a stage `s`, with a store and a GitHub that answers
  -- with the issue it was asked for: the cached issue `n` reads as `s`, and so will the next change
  -- in the ledger; every other cached issue and all steps are as before; the ledger has one new row,
  -- from the stage that was cached to `s`, with the reason.
  pub change_stage-IsMoved :
      (change_stage gh n s reason o).0 ≡ ok tt
      → IsMoved n s reason o (change_stage gh n s reason o).1
  unfolding change_stage
  change_stage-IsMoved = by_client o.has_gh (set_stage_label gh n s o.remote) refl
    where
      by_client :
          (b : Bool) (r : Result Issue × W)
          → set_stage_label gh n s o.remote ≡ r
          → let x = if b then settle n s reason o r else (err "github client not configured", o) in
            x.0 ≡ ok tt → IsMoved n s reason o x.1
      by_client true (ok i, w) e h = settle-IsMoved i w e
      by_client true (err x, w) e h = cc
      by_client false (ok i, w) e h = cc
      by_client false (err x, w) e h = cc
