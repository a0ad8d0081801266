-- ===== src/Examples/OfBoard.antt =====
-- The board and the sync of internal/dashboard on concrete states.
use one_dev_army.Common.{
  ◌≡◌, ◌≢◌, ◌↔◌, inl, inr, refl, sym, none, ◌∙◌, Bool, true, false, some, List, [], ◌∷◌, is_empty,
  All,
}
use one_dev_army.Common.Text.{equal_fold, codes, lower, codes_eq, lower_is}
use one_dev_army.Common.Effect.{ok}
use one_dev_army.GitHub.Issue.{Issue, get_assignee}
use one_dev_army.GitHub.Stage as GitHubStage
use one_dev_army.Store.Cache.{
  save_issue_cache, get_issues_cache_by_milestone, get_open_issues_cache_by_milestone,
}
use one_dev_army.Store.Cache
use one_dev_army.Mvp.Orchestrator.{Orchestrator, sprint_closable, infer_column_for_closable_check}
use one_dev_army.Mvp.Orchestrator.Stages.{active_milestone, check_and_broadcast_sprint_closable}
use one_dev_army.Dashboard.Board.{Column, infer_column_from_issue, BoardData, build_board_data}
use one_dev_army.Dashboard.Board.Closing.{build_board_data-can_close}
use one_dev_army.Dashboard.Board.Announced.{build_board_data-announced}
use one_dev_army.Dashboard.Sync.{SyncService, SyncClient, assign_backlog, do_sync}
use one_dev_army.Dashboard.Sync.Caching.{IsSynced, IsQuiet, assign_backlog_lem, do_sync-IsCached}
use one_dev_army.Dashboard.Controls.{Server, handle_sync}
use one_dev_army.Dashboard.Controls.Crash.{is_there, finds_none, handle_sync-panics}
use one_dev_army.Examples.{issue_of, kind_gh, office}

abbrev coded : Issue
coded = issue_of 4 ("stage:coding" ∷ [])

abbrev finished : Issue
finished = record (issue_of 5 ("stage:done" ∷ [])) { state = "closed" }

abbrev broken : Issue
broken = issue_of 6 ("stage:failed" ∷ [])

abbrev holding : List Issue → Orchestrator Bool
holding [] = office
holding (i ∷ is) = record office { cache = save_issue_cache i "Sprint 1" true (holding is).cache }

abbrev running : Orchestrator Bool
running = holding (coded ∷ finished ∷ [])

abbrev cached : Orchestrator Bool → List Issue
cached o = get_issues_cache_by_milestone "Sprint 1" o.cache

abbrev board_of : Orchestrator Bool → BoardData
board_of o = build_board_data (some o) (some (o.steps, o.cache)) (some "Sprint 1")

abbrev over : Orchestrator Bool
over = holding (finished ∷ [])

build_board_data-can_close_example : ((board_of over).can_close_sprint ≡ true) ↔ (
    ((board_of over).processing ≡ false)
    × (is_empty (cached over) ≡ false)
    × All (λ i. infer_column_from_issue i ≡ Column.done) (cached over))
build_board_data-can_close_example =
    build_board_data-can_close (some over) over.steps over.cache "Sprint 1"

abbrev stuck : Orchestrator Bool
stuck = holding (broken ∷ finished ∷ [])

announces : (check_and_broadcast_sprint_closable stuck).broadcasts ≡ sprint_closable true ∷ []
unfolding check_and_broadcast_sprint_closable active_milestone get_open_issues_cache_by_milestone
    save_issue_cache Cache.find_row Cache.replace_row Cache.of_row Cache.to_row get_assignee
    equal_fold codes lower codes_eq lower_is infer_column_for_closable_check
announces = refl

announced_not_empty : sprint_closable true ∷ [] ≢ []
announced_not_empty e = cc

announces_more : (check_and_broadcast_sprint_closable stuck).broadcasts ≢ stuck.broadcasts
announces_more e = announced_not_empty (sym announces ∙ e)

build_board_data-announced_example :
    (build_board_data
      (some stuck)
      (some (stuck.steps, stuck.cache))
      (some (active_milestone stuck))).can_close_sprint
    ≡ false
build_board_data-announced_example = build_board_data-announced stuck announces_more

abbrev client : SyncClient Bool
client = record {
  gh = kind_gh;
  listing = λ m w. (ok (coded ∷ finished ∷ []), w);
  oldest_milestone = λ w. (ok (some "Sprint 2"), w);
}

abbrev service : SyncService Bool
service = record {
  has_client = true;
  has_orchestrator = true;
  has_hub = true;
  active_milestone = "";
  running = true;
  stop_ch = false;
  orchestrator = office;
  pushed = [];
}

assign_backlog_example : assign_backlog client (issue_of 7 []) office ≡ (issue_of 7 [], office)
assign_backlog_example = assign_backlog_lem client (issue_of 7 []) office

coded-IsQuiet : IsQuiet office coded
unfolding equal_fold codes lower codes_eq
coded-IsQuiet = inr (inr (refl, refl))

finished-IsQuiet : IsQuiet office finished
unfolding equal_fold codes lower codes_eq GitHubStage.get_stage_from_labels
    GitHubStage.stage_from_label GitHubStage.label
finished-IsQuiet = inr (inl (refl, refl))

do_sync-IsCached_example :
    (s : SyncService Bool) × (do_sync client service ≡ some s)
    × IsSynced client service "Sprint 2" (coded ∷ finished ∷ []) false false s
do_sync-IsCached_example =
    do_sync-IsCached client service "Sprint 2" (coded ∷ finished ∷ []) false false refl refl refl
      refl refl (coded-IsQuiet, (finished-IsQuiet, tt)) (refl, (refl, tt))

-- No milestone is open.
abbrev server : Server Bool
server = record {
  orchestrator = some office;
  sync = some service;
  has_gh = true;
  has_hub = true;
  has_root = true;
  has_propagator = false;
  milestone = some "Sprint 1";
  yolo_override = none;
  updates = [];
  counts = [];
  propagated = [];
}

handle_sync-panics_example :
    (handle_sync (ok none) server ≡ none)
    ↔ ((server.has_gh ≡ true) × (is_there server.sync ≡ true) × (finds_none (ok none) ≡ true))
handle_sync-panics_example = handle_sync-panics (ok none) server
