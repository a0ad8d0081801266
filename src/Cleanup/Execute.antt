-- ===== src/Cleanup/Execute.antt =====
-- internal/sprint/cleanup.go: `Execute`, which deletes what the plan names, or only counts it.
use Prim.Native.String.{◌++◌ as join}
use one_dev_army.Common.{
  ℕ, ◌+◌, Bool, not, ◌&&◌, List, [], ◌∷◌, ◌++◌, String, if◌then◌else◌, is_empty, length, ltb,
}
use one_dev_army.Common.Effect.{Result, ok, err, Effect}
use one_dev_army.Cleanup.{
  Tools, BranchArtifact, WorktreeArtifact, CleanupPlan, CleanupResult, no_result,
}

module _ {W : Type 0} (t : Tools W) where
  abbrev pub State : Type 0
  State = CleanupResult × W

  abbrev pub with_error : String → CleanupResult → CleanupResult
  with_error e r = record r { errors = r.errors ++ e ∷ [] }

  abbrev pub branch_deleted : CleanupResult → CleanupResult
  branch_deleted r = record r { deleted_branches = r.deleted_branches + 1 }

  abbrev pub worktree_deleted : CleanupResult → CleanupResult
  worktree_deleted r = record r { deleted_worktrees = r.deleted_worktrees + 1 }

  abbrev pub after_remote : CleanupResult → Result (Unit {0}) × W → State
  after_remote r (ok u, w) = (branch_deleted r, w)
  after_remote r (err e, w) = (with_error (join "failed to delete remote branch: " e) r, w)

  abbrev pub after_local : String → CleanupResult → Result (Unit {0}) × W → State
  after_local name r (ok u, w) = after_remote r (t.delete_remote name w)
  after_local name r (err e, w) = (with_error (join "failed to delete local branch: " e) r, w)

  abbrev pub delete_branch : Bool → BranchArtifact → State → State
  delete_branch dry_run b (r, w) =
      if not b.can_delete
      then (r, w)
      else (if dry_run
          then (branch_deleted r, w)
          else after_local b.name r (t.remove_branch b.name w))

  unfoldable pub delete_branches : Bool → List BranchArtifact → State → State
  delete_branches dry_run [] s = s
  delete_branches dry_run (b ∷ bs) s = delete_branches dry_run bs (delete_branch dry_run b s)

  abbrev pub after_worktree : CleanupResult → Result (Unit {0}) × W → State
  after_worktree r (ok u, w) = (worktree_deleted r, w)
  after_worktree r (err e, w) = (with_error (join "failed to remove worktree: " e) r, w)

  abbrev pub delete_worktree : Bool → WorktreeArtifact → State → State
  delete_worktree dry_run wt (r, w) =
      if dry_run then (worktree_deleted r, w) else after_worktree r (t.remove_worktree wt.path w)

  unfoldable pub delete_worktrees : Bool → List WorktreeArtifact → State → State
  delete_worktrees dry_run [] s = s
  delete_worktrees dry_run (wt ∷ wts) s =
      delete_worktrees dry_run wts (delete_worktree dry_run wt s)

  abbrev pub after_prune : CleanupResult → Result (Unit {0}) × W → State
  after_prune r (ok u, w) = (r, w)
  after_prune r (err e, w) = (with_error (join "failed to prune worktrees: " e) r, w)

  unfoldable pub prune_worktrees : Bool → State → State
  prune_worktrees dry_run (r, w) =
      if not dry_run && ltb 0 r.deleted_worktrees then after_prune r (t.prune w) else (r, w)

  -- `RemoveTempFiles` stops at the first error.
  abbrev pub go_on : Effect W (Unit {0}) → Result (Unit {0}) × W → Result (Unit {0}) × W
  go_on rest (ok u, w) = rest w
  go_on rest (err e, w) = (err (join "removing file: " e), w)

  unfoldable pub remove_temp_files : List String → Effect W (Unit {0})
  remove_temp_files [] w = (ok tt, w)
  remove_temp_files (f ∷ fs) w = go_on (remove_temp_files fs) (t.remove_file f w)

  abbrev pub after_files : ℕ → CleanupResult → Result (Unit {0}) × W → State
  after_files n r (ok u, w) = (record r { deleted_temp_files = n }, w)
  after_files n r (err e, w) = (with_error (join "failed to delete temp files: " e) r, w)

  unfoldable pub delete_temp_files : Bool → List String → State → State
  unfolding remove_temp_files
  delete_temp_files dry_run files (r, w) =
      if is_empty files
      then (r, w)
      else (if dry_run
          then (record r { deleted_temp_files = length files }, w)
          else after_files (length files) r (remove_temp_files files w))

  unfoldable pub execute : CleanupPlan → Bool → W → State
  unfolding delete_branches delete_worktrees prune_worktrees delete_temp_files
  execute plan dry_run w =
      let s1 = delete_branches dry_run plan.branches (no_result, w) in
      let s2 = delete_worktrees dry_run plan.worktrees s1 in
      delete_temp_files dry_run plan.temp_files (prune_worktrees dry_run s2)
