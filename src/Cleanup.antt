-- ===== src/Cleanup.antt =====
-- internal/sprint/cleanup.go and `RemoveTempFiles` of internal/workspace/cleanup.go: what a finished
-- sprint leaves behind is looked up, and then deleted. git, gh and the file system act on a world `W`;
-- what only reads it is a function of it. `worktree_list` are the paths and branches of the blocks
-- that `git worktree list` prints. Names in error messages and the times of files are left out.
pub mod Execute
pub mod DryRun
pub mod Protection
use Prim.Native.String.{◌++◌}
use one_dev_army.Common.{
  ℕ, zero, suc, ◌+◌, Bool, true, false, not, ◌&&◌, ◌||◌, Option, none, some, List, [], ◌∷◌, String,
  str_eq, if◌then◌else◌, is_empty, length, ltb, first, all,
}
use one_dev_army.Common.Text.{codes, codes_eq}
use one_dev_army.Common.Effect.{Result, ok, err, Effect}
use one_dev_army.Mvp.Worker.Texts.{itoa}
use one_dev_army.Workers.Texts.{is_blank, trim_blanks_left, trim_blanks_right}

pub record Milestone : Type 0 where
  pub number : ℕ
  pub title : String
  pub created_at : ℕ

pub record Tools (W : Type 0) : Type 0 where
  pub repo_dir : String
  pub recently_closed : W → Result (Option Milestone)
  pub list_milestones : W → Result (List Milestone)
  pub closed_tickets : ℕ → W → Result (List ℕ)
  pub find_branch : String → W → String
  pub main_exists : W → Bool
  pub log_between : String → String → W → Result String
  pub open_prs : String → W → Result String
  pub worktree_list : W → Result (List (String × String))
  pub old_temp_files : ℕ → W → Result (List String)
  pub can_stat : String → W → Bool
  pub remove_branch : String → Effect W (Unit {0})
  pub delete_remote : String → Effect W (Unit {0})
  pub remove_worktree : String → Effect W (Unit {0})
  pub prune : Effect W (Unit {0})
  pub remove_file : String → Effect W (Unit {0})

pub record BranchArtifact : Type 0 where
  pub name : String
  pub issue_number : ℕ
  pub has_unmerged : Bool
  pub has_open_pr : Bool
  pub can_delete : Bool

pub record WorktreeArtifact : Type 0 where
  pub path : String
  pub branch : String

pub record CleanupPlan : Type 0 where
  pub sprint : String
  pub branches : List BranchArtifact
  pub worktrees : List WorktreeArtifact
  pub temp_files : List String

pub record CleanupResult : Type 0 where
  pub deleted_branches : ℕ
  pub deleted_worktrees : ℕ
  pub deleted_temp_files : ℕ
  pub errors : List String

abbrev pub no_result : CleanupResult
no_result = record {
  deleted_branches = 0;
  deleted_worktrees = 0;
  deleted_temp_files = 0;
  errors = [];
}

-- `strings.TrimSpace(out)`, on code points.
abbrev pub trimmed : String → List ℕ
trimmed out = trim_blanks_right (trim_blanks_left (codes out))

module _ {W : Type 0} (t : Tools W) where
  abbrev pub detect_default_branch : W → String
  detect_default_branch w = if t.main_exists w then "main" else "master"

  abbrev pub says_unmerged : Result String → Bool
  says_unmerged (err e) = true
  says_unmerged (ok out) = not (is_empty (trimmed out))

  unfoldable pub has_unmerged_changes : String → W → Bool
  has_unmerged_changes branch w = says_unmerged (t.log_between (detect_default_branch w) branch w)

  abbrev pub says_open : Result String → Bool
  says_open (err e) = false
  says_open (ok out) = not (codes_eq (trimmed out) (codes "[]"))

  unfoldable pub has_open_pr : String → W → Bool
  has_open_pr branch w = says_open (t.open_prs branch w)

  abbrev pub artifact_of : String → ℕ → W → BranchArtifact
  artifact_of branch n w =
      let unmerged = has_unmerged_changes branch w in
      let open_pr = has_open_pr branch w in
      record {
        name = branch;
        issue_number = n;
        has_unmerged = unmerged;
        has_open_pr = open_pr;
        can_delete = not unmerged && not open_pr;
      }

  unfoldable pub detect_branches : List ℕ → W → List BranchArtifact
  unfolding has_unmerged_changes has_open_pr
  detect_branches [] w = []
  detect_branches (n ∷ ns) w =
      let branch = t.find_branch ("oda-" ++ itoa n ++ "-") w in
      let rest = detect_branches ns w in
      if str_eq branch "" then rest else artifact_of branch n w ∷ rest

  -- All worktrees but the repository's own.
  abbrev pub other_worktrees : List (String × String) → List WorktreeArtifact
  other_worktrees [] = []
  other_worktrees ((path, branch) ∷ ps) =
      let rest = other_worktrees ps in
      if not (str_eq path "") && not (str_eq path t.repo_dir)
      then record { path = path; branch = branch } ∷ rest
      else rest

  abbrev pub detected_worktrees : Result (List (String × String)) → List WorktreeArtifact
  detected_worktrees (ok ps) = other_worktrees ps
  detected_worktrees (err e) = []

  abbrev pub known_files : List String → W → List String
  known_files [] w = []
  known_files (f ∷ fs) w = let rest = known_files fs w in if t.can_stat f w then f ∷ rest else rest

  abbrev pub detected_files : Result (List String) → W → List String
  detected_files (ok fs) w = known_files fs w
  detected_files (err e) w = []

  abbrev pub chosen : Result (Option Milestone) → Result Milestone
  chosen (ok (some m)) = ok m
  chosen (ok none) = err "no closed sprints found"
  chosen (err e) = err ("getting most recently closed sprint: " ++ e)

  abbrev pub titled : String → Result (List Milestone) → Result Milestone
  titled title (err e) = err ("listing milestones: " ++ e)
  titled title (ok ms) = elim (first (λ m. str_eq m.title title) ms) [
    | none ↦ err "sprint not found"
    | some m ↦ ok m
  ]

  abbrev pub find_milestone : String → W → Result Milestone
  find_milestone title w =
      if str_eq title "" then chosen (t.recently_closed w) else titled title (t.list_milestones w)

  abbrev pub plan_for : Milestone → Result (List ℕ) → W → Result CleanupPlan
  plan_for m (err e) w = err ("getting closed tickets for sprint: " ++ e)
  plan_for m (ok ns) w = ok (record {
    sprint = m.title;
    branches = detect_branches ns w;
    worktrees = detected_worktrees (t.worktree_list w);
    temp_files = detected_files (t.old_temp_files m.created_at w) w;
  })

  abbrev pub detect_in : Result Milestone → W → Result CleanupPlan
  detect_in (err e) w = err e
  detect_in (ok m) w = plan_for m (t.closed_tickets m.number w) w

  unfoldable pub detect_artifacts : String → W → Result CleanupPlan
  unfolding detect_branches
  detect_artifacts title w = detect_in (find_milestone title w) w
