-- ===== src/Dashboard/Controls.antt =====
-- internal/dashboard/handlers.go, api_v2.go, sync.go and websocket.go: the switches of the dashboard. The
-- worker is started and paused, the sync asked for, the yolo mode toggled, and the origin of a
-- websocket checked. A `nil` dereference, which panics, is `none`; the sync that is asked for is
-- `do_sync`, on a goroutine of its own. The configuration file is read by `load_yolo`.
pub mod Crash
use one_dev_army.Common.{
  ℕ, ◌==◌, Bool, true, false, not, ◌&&◌, ◌||◌, Option, none, some, List, [], ◌∷◌, ◌++◌, String,
  str_eq, if◌then◌else◌, is_empty, any,
}
use one_dev_army.Common.Text.{codes, codes_eq, contains}
use one_dev_army.Common.Effect.{Result, ok, err}
use one_dev_army.Mvp.Orchestrator.{Orchestrator, start, pause}
use one_dev_army.Workers.Texts.{trim_blanks_left, trim_blanks_right}
use one_dev_army.Dashboard.Sync.{SyncService}
use one_dev_army.Dashboard.Tickets.{Reply, success, redirect, unavailable, internal_error}

-- The fields of the server, `none` where they are nil; `updates` are the states of the worker that were
-- broadcast, `counts` those of a sync, `propagated` the yolo modes handed to the workers.
pub record Server (W : Type 0) : Type 0 where
  pub orchestrator : Option (Orchestrator W)
  pub sync : Option (SyncService W)
  pub has_gh : Bool
  pub has_hub : Bool
  pub has_root : Bool
  pub has_propagator : Bool
  pub milestone : Option String
  pub yolo_override : Option Bool
  pub updates : List Bool
  pub counts : List ℕ
  pub propagated : List Bool

abbrev pub Handler : Type 0 → Type 0
Handler W = Server W → Reply × Server W

abbrev pub current_yolo : Option Bool → Bool → Bool
current_yolo none file = file
current_yolo (some b) file = b

module _ {W : Type 0} where
  abbrev pub on_orchestrator : Reply → (Orchestrator W → Orchestrator W) → Handler W
  on_orchestrator reply f s = elim s.orchestrator [
    | none ↦ (unavailable "orchestrator not configured", s)
    | some o ↦ (reply, record s { orchestrator = some (f o) })
  ]

  unfoldable pub handle_sprint_start_v2 : Handler W
  unfolding start
  handle_sprint_start_v2 s = on_orchestrator success start s

  unfoldable pub handle_sprint_pause_v2 : Handler W
  unfolding pause
  handle_sprint_pause_v2 s = on_orchestrator success pause s

  unfoldable pub handle_sprint_start : Handler W
  unfolding start
  handle_sprint_start s = on_orchestrator redirect start s

  unfoldable pub handle_sprint_pause : Handler W
  unfolding pause
  handle_sprint_pause s = on_orchestrator redirect pause s

  abbrev pub toggled : Orchestrator W → Orchestrator W
  toggled o = if o.paused then start o else pause o

  -- An update tells whether the worker is active.
  abbrev pub toggle : Orchestrator W → Handler W
  toggle o s =
      let o1 = toggled o in
      let updates = if s.has_hub then s.updates ++ not o1.paused ∷ [] else s.updates in
      (success, record s { orchestrator = some o1; updates = updates })

  -- `handleWorkerToggleV2` and `handleWorkerToggle`
  unfoldable pub handle_worker_toggle : Handler W
  unfolding start pause
  handle_worker_toggle s = elim s.orchestrator [
    | none ↦ (unavailable "orchestrator not configured", s)
    | some o ↦ toggle o s
  ]

  abbrev pub toggle_yolo : Result Bool → Handler W
  toggle_yolo (err e) s = (internal_error "failed to load configuration", s)
  toggle_yolo (ok file) s =
      let yolo = not (current_yolo s.yolo_override file) in
      (
        success,
        record s {
          yolo_override = some yolo;
          propagated = if s.has_propagator then s.propagated ++ yolo ∷ [] else s.propagated;
        },
      )

  -- `handleYoloToggleV2` and `handleYoloToggle`, with what the configuration file says.
  unfoldable pub handle_yolo_toggle : Result Bool → Handler W
  handle_yolo_toggle load_yolo s =
      if s.has_root
      then toggle_yolo load_yolo s
      else (internal_error "root directory not configured", s)

  -- `SyncNow`
  abbrev pub sync_now : SyncService W → Result (Unit {0})
  sync_now s = if s.running then ok tt else err "sync service is not running"

  abbrev pub announce : Result (Unit {0}) → Handler W
  announce (err e) s = (internal_error e, s)
  announce (ok u) s =
      (success, record s { counts = if s.has_hub then s.counts ++ 0 ∷ [] else s.counts })

  -- `handleSyncV2` and `handleManualSync`
  unfoldable pub handle_sync_v2 : Handler W
  handle_sync_v2 s = elim s.sync [
    | none ↦ (unavailable "sync service not configured", s)
    | some y ↦ announce (sync_now y) s
  ]

  -- With the title of the milestone, which may be nil.
  abbrev pub follow_title : Option String → SyncService W → Option (SyncService W)
  follow_title none y = none
  follow_title (some title) y = some (record y { active_milestone = title })

  abbrev pub follow_milestone : Option String → Server W → Option (Server W)
  follow_milestone m s = elim s.sync [
    | none ↦ some s
    | some y ↦ elim (follow_title m y) [
      | none ↦ none
      | some y1 ↦ some (record s { sync = some y1 })
    ]
  ]

  abbrev pub redirected : Option (Server W) → Option (Reply × Server W)
  redirected none = none
  redirected (some s) = some (redirect, s)

  abbrev pub on_oldest : Result (Option String) → Server W → Option (Reply × Server W)
  on_oldest (err e) s = some (redirect, s)
  on_oldest (ok m) s = redirected (follow_milestone m (record s { milestone = m }))

  -- With the answer of `GetOldestOpenMilestone`.
  unfoldable pub handle_sync : Result (Option String) → Server W → Option (Reply × Server W)
  handle_sync oldest s = if s.has_gh then on_oldest oldest s else some (redirect, s)

-- `validateModelSelection`, with the ids of the cached models.
unfoldable pub validate_model_selection : List String → String → Bool
validate_model_selection cache model = is_empty cache || any (λ m. str_eq m model) cache

-- `strings.SplitSeq(s, ",")`
unfoldable pub split_commas : List ℕ → List (List ℕ)
split_commas [] = [] ∷ []
split_commas (c ∷ cs) =
    let rest = split_commas cs in
    if c == 44 then [] ∷ rest else (elim rest [ [] ↦ (c ∷ []) ∷ [] | p ∷ ps ↦ (c ∷ p) ∷ ps ])

-- `CheckOrigin`, with the host of the request and the allowed origins of the environment.
unfoldable pub check_origin : String → String → String → Bool
unfolding split_commas codes codes_eq contains trim_blanks_left trim_blanks_right
check_origin origin host allowed =
    if str_eq origin ""
    then true
    else (if contains origin "localhost" || contains origin "127.0.0.1"
        then true
        else (if str_eq allowed ""
            then str_eq origin "" || str_eq host origin
            else any (λ a. codes_eq (trim_blanks_right (trim_blanks_left a)) (codes origin))
                (split_commas (codes allowed))))
