-- ===== src/Cleanup/DryRun.antt =====
-- What a dry run of a cleanup reports.
use one_dev_army.Common.{◌+◌, ◌≡◌, refl, ◌∙◌, true, List, [], ◌∷◌, String, length, select, arith}
use one_dev_army.Cleanup.{
  Tools, BranchArtifact, WorktreeArtifact, CleanupPlan, CleanupResult, no_result,
}
use one_dev_army.Cleanup.Execute.{
  delete_branches, delete_worktrees, prune_worktrees, remove_temp_files, delete_temp_files, execute,
}
use one_dev_army.Cleanup.Execute

-- What the plan names, as a result.
abbrev pub counted : CleanupPlan → CleanupResult
counted plan = record {
  deleted_branches = length (select (λ b. b.can_delete) plan.branches);
  deleted_worktrees = length plan.worktrees;
  deleted_temp_files = length plan.temp_files;
  errors = [];
}

module _ {W : Type 0} (t : Tools W) where
  dry-branches :
      (bs : List BranchArtifact) (r : CleanupResult) (w : W)
      → delete_branches t true bs (r, w) ≡ (
        record r { deleted_branches = r.deleted_branches + length (select (λ b. b.can_delete) bs) },
        w,
      )
  unfolding delete_branches
  dry-branches [] r w = ground arith
  dry-branches (b ∷ bs) r w =
      ground (arith, dry-branches bs r w, dry-branches bs (Execute.branch_deleted t r) w)

  dry-worktrees :
      (wts : List WorktreeArtifact) (r : CleanupResult) (w : W)
      → delete_worktrees t true wts (r, w)
        ≡ (record r { deleted_worktrees = r.deleted_worktrees + length wts }, w)
  unfolding delete_worktrees
  dry-worktrees [] r w = ground arith
  dry-worktrees (wt ∷ wts) r w = ground (arith, dry-worktrees wts (Execute.worktree_deleted t r) w)

  dry-files :
      (fs : List String) (r : CleanupResult) (w : W)
      → r.deleted_temp_files ≡ 0
      → delete_temp_files t true fs (r, w) ≡ (record r { deleted_temp_files = length fs }, w)
  unfolding delete_temp_files
  dry-files [] r w e = ground arith
  dry-files (f ∷ fs) r w e = refl

  -- A dry run of a plan leaves the world as it was; it counts the branches that may be deleted, all
  -- worktrees and all files of the plan, and reports no error.
  pub execute-dry : (plan : CleanupPlan) (w : W) → execute t plan true w ≡ (counted plan, w)
  unfolding execute prune_worktrees
  execute-dry plan w =
      rw (dry-branches plan.branches no_result w, dry-worktrees plan.worktrees _ w)
        (dry-files plan.temp_files _ w refl ∙ ground arith)
