-- ===== src/Dashboard/Sync.antt =====
-- internal/dashboard/sync.go: the sync service. Its store is the orchestrator's, and its client acts
-- on the same remote world; `listing` and `oldest_milestone` are the two queries, which run the `gh`
-- program. As elsewhere the store does not fail. The ticker and the wait group are left out; `pushed`
-- is the list of the counts that were broadcast. `none` is a panic.
pub mod Caching
use one_dev_army.Common.{
  ℕ, ◌≡◌, Bool, true, false, not, ◌&&◌, ◌||◌, Option, none, some, List, [], ◌∷◌, ◌++◌, String,
  str_eq, if◌then◌else◌, any, length,
}
use one_dev_army.Common.Effect.{Result, ok, err, Effect}
use one_dev_army.GitHub.Stage.{is_stage_label}
use one_dev_army.GitHub.Issue.{Issue}
use one_dev_army.GitHub.Client.{Gh, add_label}
use one_dev_army.Store.Cache.{save_issue_cache}
use one_dev_army.Mvp.Orchestrator.{Orchestrator}
use one_dev_army.Mvp.Orchestrator.Stages.{handle_sync_event}

-- Whether the fields `gh`, `orchestrator` and `hub` are not nil stands in the three flags; `stop_ch`
-- says that the current `stopCh` is closed.
pub record SyncService (W : Type 0) : Type 0 where
  pub has_client : Bool
  pub has_orchestrator : Bool
  pub has_hub : Bool
  pub active_milestone : String
  pub running : Bool
  pub stop_ch : Bool
  pub orchestrator : Orchestrator W
  pub pushed : List ℕ

-- The client of the service, which is the one of internal/github.
pub record SyncClient (W : Type 0) : Type 0 where
  pub gh : Gh W
  pub listing : String → Effect W (List Issue)
  pub oldest_milestone : Effect W (Option String)

-- The call of `close` on a closed channel, which panics, is `none`.
abbrev pub close_stop : {W : Type 0} → SyncService W → Option (SyncService W)
close_stop s = if s.stop_ch then none else some (record s { stop_ch = true })

unfoldable pub start : {W : Type 0} → SyncService W → SyncService W
start s = if s.running then s else record s { running = true; stop_ch = false }

unfoldable pub stop : {W : Type 0} → SyncService W → Option (SyncService W)
stop s = if s.running then close_stop (record s { running = false }) else some s

abbrev pub has_stage_label : Issue → Bool
has_stage_label i = any is_stage_label i.labels

-- An act on the remote world of the orchestrator.
abbrev pub at_remote : {W A : Type 0} → Effect W A → Orchestrator W → Result A × Orchestrator W
at_remote m o = let (r, w) = m o.remote in (r, record o { remote = w })

-- A panic in the orchestrator's handler ends the program.
abbrev pub unless_panic : {A B : Type 0} → Option A → (A → Option B) → Option B
unless_panic none k = none
unless_panic (some a) k = k a

module _ {W : Type 0} (c : SyncClient W) where
  abbrev pub assigned : Issue → Result (Unit {0}) → Issue
  assigned i (ok u) = record i { labels = i.labels ++ "stage:backlog" ∷ [] }
  assigned i (err e) = i

  -- An open issue without a stage label is given the backlog's.
  unfoldable pub assign_backlog : Issue → Orchestrator W → Issue × Orchestrator W
  assign_backlog i o =
      let (r, o1) = at_remote (add_label c.gh i.number "stage:backlog") o in
      if str_eq i.state "open" && not (has_stage_label i) then (assigned i r, o1) else (i, o)

  unfoldable pub cache_issue : String → Issue → Orchestrator W → Orchestrator W
  cache_issue milestone i o = record o { cache = save_issue_cache i milestone false o.cache }

  unfoldable pub sync_issue : Bool → String → Issue → Orchestrator W → Option (Orchestrator W)
  unfolding assign_backlog cache_issue
  sync_issue notify milestone i o =
      let (i1, o1) = assign_backlog i o in
      let o2 = cache_issue milestone i1 o1 in
      if notify then handle_sync_event c.gh i1 o2 else some o2

  -- The loop over the fetched issues.
  unfoldable pub sync_issues : Bool → String → List Issue → Orchestrator W → Option (Orchestrator W)
  sync_issues notify milestone [] o = some o
  sync_issues notify milestone (i ∷ is) o =
      unless_panic (sync_issue notify milestone i o) (sync_issues notify milestone is)

  abbrev pub push_count : ℕ → SyncService W → SyncService W
  push_count n s = if s.has_hub then record s { pushed = s.pushed ++ n ∷ [] } else s

  -- What follows the query for the issues.
  abbrev pub store_issues :
      Result (List Issue) × Orchestrator W → SyncService W → Option (SyncService W)
  store_issues (err e, o) s = some (record s { orchestrator = o })
  store_issues (ok is, o) s =
      unless_panic (sync_issues s.has_orchestrator s.active_milestone is o)
        λ o1. some (push_count (length is) (record s { orchestrator = o1 }))

  unfoldable pub fetch : SyncService W → Option (SyncService W)
  unfolding sync_issues
  fetch s =
      if str_eq s.active_milestone "" || not s.orchestrator.has_store
      then some s
      else store_issues (at_remote (c.listing s.active_milestone) s.orchestrator) s

  -- The switch on the oldest open milestone; `none` is the early return.
  abbrev pub follow : Result (Option String) → SyncService W → SyncService W × Bool
  follow (err e) s = (s, true)
  follow (ok none) s = (record s { active_milestone = "" }, false)
  follow (ok (some title)) s = (record s { active_milestone = title }, true)

  unfoldable pub do_sync : SyncService W → Option (SyncService W)
  unfolding fetch
  do_sync s =
      let (r, o) = at_remote c.oldest_milestone s.orchestrator in
      let (s1, go_on) = follow r (record s { orchestrator = o }) in
      if s.has_client then (if go_on then fetch s1 else some s1) else some s
