-- ===== src/Dashboard/Board/Moved.antt =====
-- Where the board shows a ticket whose stage was changed.
use one_dev_army.Common.{
  ℕ, ◌≤◌, ◌≡◌, ◌≢◌, refl, ap, ◌∙◌, sym, subst, ◌==◌, Bool, true, false, some, List, [], ◌∷◌, String,
  if◌then◌else◌, select, map, eq_refl,
}
use one_dev_army.Common.Text.{equal_fold}
use one_dev_army.Common.Effect.{Result, ok, err}
use one_dev_army.GitHub.Stage.{Stage, unset, needs_user}
use one_dev_army.GitHub.Stage as GitHubStage
use one_dev_army.GitHub.Reason.{StageChangeReason}
use one_dev_army.GitHub.Issue.{Issue}
use one_dev_army.GitHub.Client.{Gh, set_stage_label}
use one_dev_army.GitHub.Relabel.{IsRelabelled, set_stage_label-IsRelabelled}
use one_dev_army.Store.Steps.{Steps}
use one_dev_army.Store.Cache.{to_row, of_row, save_issue_cache, get_issues_cache_by_milestone}
use one_dev_army.Store.Cache.Lookup.{rows_of}
use one_dev_army.Mvp.Orchestrator.{Orchestrator}
use one_dev_army.Mvp.Orchestrator.Stages.{
  change_stage, settle, commit, active_milestone, update_cache, announce, check_closable,
  record_change,
}
use one_dev_army.Mvp.Orchestrator.Stages.Changes.{AnswersNumber}
use one_dev_army.Dashboard.Board.{Column, same, no_cards, column_name, add_all, build_board_data}
use one_dev_army.Dashboard.Board.Labels.{
  IsPlain, shown_column, infer_column_from_issue-relabelled, column_name-shown_column,
}
use one_dev_army.Dashboard.Board.Once.{shown, written_once, card_once}

module _ {W : Type 0} (gh : Gh W) (answers : AnswersNumber gh) (n : ℕ) (s : Stage)
    (reason : StageChangeReason) (o : Orchestrator W) (real : s ≢ unset)
    (stored_in : o.has_store ≡ true) (once : rows_of n o.cache ≤ 1) (before : Issue)
    (asked : (gh.view_issue n o.remote).0 ≡ ok before)
    (opened : equal_fold before.state "CLOSED" ≡ false) (plain : IsPlain before) where
  abbrev milestone : String
  milestone = active_milestone o

  -- The cards of the ticket on the board of the orchestrator's milestone.
  abbrev pub cards_of : Orchestrator W → Column → List (ℕ × String × Column)
  cards_of o' c =
      let board = build_board_data (some o') (some (o'.steps, o'.cache)) (some milestone) in
      map shown (select (λ k. k.id == n) (board.cards c))

  abbrev ShowsIn : List (ℕ × String × Column) → Column → Type 0
  ShowsIn cards c =
      cards ≡ (if same c (shown_column s) then (n, before.title, shown_column s) ∷ [] else [])

  abbrev stamped : Issue → Issue
  stamped i = record i { updated_at = some o.clock }

  settle-cache :
      (i : Issue) (w : W)
      → (settle n s reason o (ok i, w)).1.cache
        ≡ save_issue_cache (stamped i) milestone true o.cache
  unfolding settle commit update_cache announce check_closable record_change active_milestone
  settle-cache i w =
      ap (λ b. if b then save_issue_cache (stamped i) milestone true o.cache else o.cache) stored_in

  IsRelabelled-row :
      (i : Issue)
      → IsRelabelled s before i
      → IsRelabelled s before (of_row (to_row (stamped i) milestone))
  unfolding of_row to_row
  IsRelabelled-row i rel = record {
    one_stage_label = rel.one_stage_label;
    reads_as = rel.reads_as;
    others_kept = rel.others_kept;
    number_kept = rel.number_kept;
    title_kept = rel.title_kept;
    done_closes = rel.done_closes;
    state_kept = rel.state_kept;
  }

  relabelled-shown :
      (i : Issue) (steps : Steps) (c : Column)
      → IsRelabelled s before i
      → ShowsIn
          (map shown (
            select
              (λ k. k.id == n)
              (add_all
                (some steps)
                no_cards
                (get_issues_cache_by_milestone milestone
                  (save_issue_cache (stamped i) milestone true o.cache))
                c)))
          c
  relabelled-shown i steps c rel =
      let row = of_row (to_row (stamped i) milestone) in
      let kept = IsRelabelled-row i rel in
      let number = rel.number_kept ∙ answers n o.remote before asked in
      card_once n (some steps) c row _
        (written_once n (stamped i) milestone o.cache number (eq_refl milestone) once)
        (kept.number_kept ∙ answers n o.remote before asked)
      ∙ (ap (λ d. if same c d then (n, row.title, d) ∷ [] else [])
            (infer_column_from_issue-relabelled s real before row kept opened plain)
          ∙ ap (λ t. if same c (shown_column s) then (n, t, shown_column s) ∷ [] else [])
              kept.title_kept)

  settle-shown :
      (i : Issue) (w : W) (c : Column)
      → set_stage_label gh n s o.remote ≡ (ok i, w)
      → ShowsIn (cards_of (settle n s reason o (ok i, w)).1 c) c
  unfolding build_board_data
  settle-shown i w c e =
      let (b, said, rel) = set_stage_label-IsRelabelled gh n s o.remote real w i e in
      let same_issue : b ≡ before = cc in
      let o' = (settle n s reason o (ok i, w)).1 in
      subst
        (λ t.
          ShowsIn
            (map shown (
              select (λ k. k.id == n)
                (add_all (some o'.steps) no_cards (get_issues_cache_by_milestone milestone t) c)))
            c)
        (sym (settle-cache i w))
        (relabelled-shown i o'.steps c (subst (λ x. IsRelabelled s x i) same_issue rel))

  -- Let GitHub answer for the ticket with an open issue of that number, whose labels besides those of
  -- stages are none that the board reads, and let the cache have at most one row for it. After a
  -- successful `ChangeStage` to a stage, the board of the active milestone shows the ticket exactly
  -- once, under its title, in the column of the stage: the one that `Stage.Column` names, except that a
  -- ticket which needs the user stands in the backlog.
  pub change_stage-shown :
      (change_stage gh n s reason o).0 ≡ ok tt
      → ((c : Column)
          → cards_of (change_stage gh n s reason o).1 c
            ≡ (if same c (shown_column s) then (n, before.title, shown_column s) ∷ [] else []))
        × (s ≢ needs_user → column_name (shown_column s) ≡ GitHubStage.column s)
  unfolding change_stage
  change_stage-shown h = (
    λ c. by_client o.has_gh (set_stage_label gh n s o.remote) refl h c,
    column_name-shown_column s,
  )
    where
      by_client :
          (b : Bool) (r : Result Issue × W)
          → set_stage_label gh n s o.remote ≡ r
          → let x = if b then settle n s reason o r else (err "github client not configured", o) in
            x.0 ≡ ok tt → (c : Column) → ShowsIn (cards_of x.1 c) c
      by_client true (ok i, w) e k c = settle-shown i w c e
      by_client true (err x, w) e k c = absurd (cc)
      by_client false (ok i, w) e k c = absurd (cc)
      by_client false (err x, w) e k c = absurd (cc)
