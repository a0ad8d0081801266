-- ===== src/Cleanup/Protection.antt =====
-- What a cleanup leaves alone.
use Prim.Native.String.{◌++◌}
use one_dev_army.Mvp.Worker.Texts.{itoa}
use one_dev_army.Cleanup.{Milestone}
use one_dev_army.Common.{
  ℕ, ◌≡◌, ◌≢◌, refl, subst, Bool, true, false, not, ◌&&◌, ◌||◌, List, [], ◌∷◌, String, str_eq,
  is_empty, length, All, arith, if-intro, if-split, eq_iff, ltb,
}
use one_dev_army.Common.Effect.{Result, ok, err, Effect}
use one_dev_army.Cleanup.{
  Tools, BranchArtifact, WorktreeArtifact, CleanupPlan, CleanupResult, no_result,
  has_unmerged_changes, has_open_pr, detect_branches, detect_artifacts,
}
use one_dev_army.Cleanup
use one_dev_army.Cleanup.Execute.{
  delete_branches, delete_worktrees, prune_worktrees, remove_temp_files, delete_temp_files, execute,
}
use one_dev_army.Cleanup.Execute

-- Nothing but the deletion of a branch, here or at the remote, takes that branch away.
pub record IsKeeper {W : Type 0} (t : Tools W) (Exists : String → W → Type 0) : Type 0 where
  pub local : (b c : String) (w : W) → b ≢ c → Exists c w → Exists c (t.remove_branch b w).1
  pub distant : (b c : String) (w : W) → b ≢ c → Exists c w → Exists c (t.delete_remote b w).1
  pub worktree : (p c : String) (w : W) → Exists c w → Exists c (t.remove_worktree p w).1
  pub pruned : (c : String) (w : W) → Exists c w → Exists c (t.prune w).1
  pub file : (f c : String) (w : W) → Exists c w → Exists c (t.remove_file f w).1

module _ {W : Type 0} (t : Tools W) (Exists : String → W → Type 0) (v : IsKeeper t Exists)
    (c : String) where
  abbrev Spared : BranchArtifact → Type 0
  Spared b = (str_eq b.name c && b.can_delete) ≡ false

  abbrev Keeps : Execute.State t → Type 0
  Keeps s = Exists c s.1

  after_remote-Keeps :
      (r : CleanupResult) (q : Result (Unit {0}) × W)
      → Exists c q.1
      → Keeps (Execute.after_remote t r q)
  after_remote-Keeps r (ok u, w) h = h
  after_remote-Keeps r (err e, w) h = h

  after_local-Keeps :
      (b : String) (r : CleanupResult) (q : Result (Unit {0}) × W)
      → b ≢ c
      → Exists c q.1
      → Keeps (Execute.after_local t b r q)
  after_local-Keeps b r (ok u, w) ne h =
      after_remote-Keeps r (t.delete_remote b w) (v.distant b c w ne h)
  after_local-Keeps b r (err e, w) ne h = h

  other_name : (b : BranchArtifact) → Spared b → not b.can_delete ≡ false → b.name ≢ c
  other_name b h k e = ground (arith, eq_iff b.name c)

  delete_branch-Keeps :
      (dry_run : Bool) (b : BranchArtifact) (r : CleanupResult) (w : W)
      → Spared b
      → Exists c w
      → Keeps (Execute.delete_branch t dry_run b (r, w))
  delete_branch-Keeps dry_run b r w h k =
      if-split Keeps (not b.can_delete) (λ e. k)
        (λ e. if-intro Keeps dry_run k (
          after_local-Keeps b.name r (t.remove_branch b.name w) (other_name b h e)
            (v.local b.name c w (other_name b h e) k)))

  delete_branches-Keeps :
      (dry_run : Bool) (bs : List BranchArtifact) (s : Execute.State t)
      → All Spared bs
      → Keeps s
      → Keeps (delete_branches t dry_run bs s)
  unfolding delete_branches
  delete_branches-Keeps dry_run [] s h k = k
  delete_branches-Keeps dry_run (b ∷ bs) (r, w) (h, hs) k =
      delete_branches-Keeps dry_run bs (Execute.delete_branch t dry_run b (r, w)) hs
        (delete_branch-Keeps dry_run b r w h k)

  after_worktree-Keeps :
      (r : CleanupResult) (q : Result (Unit {0}) × W)
      → Exists c q.1
      → Keeps (Execute.after_worktree t r q)
  after_worktree-Keeps r (ok u, w) h = h
  after_worktree-Keeps r (err e, w) h = h

  delete_worktrees-Keeps :
      (dry_run : Bool) (wts : List WorktreeArtifact) (s : Execute.State t)
      → Keeps s
      → Keeps (delete_worktrees t dry_run wts s)
  unfolding delete_worktrees
  delete_worktrees-Keeps dry_run [] s k = k
  delete_worktrees-Keeps dry_run (wt ∷ wts) (r, w) k =
      delete_worktrees-Keeps dry_run wts (Execute.delete_worktree t dry_run wt (r, w)) (
        if-intro Keeps dry_run k
          (after_worktree-Keeps r (t.remove_worktree wt.path w) (v.worktree wt.path c w k)))

  after_prune-Keeps :
      (r : CleanupResult) (q : Result (Unit {0}) × W)
      → Exists c q.1
      → Keeps (Execute.after_prune t r q)
  after_prune-Keeps r (ok u, w) h = h
  after_prune-Keeps r (err e, w) h = h

  prune-Keeps :
      (dry_run : Bool) (s : Execute.State t) → Keeps s → Keeps (prune_worktrees t dry_run s)
  unfolding prune_worktrees
  prune-Keeps dry_run (r, w) k =
      if-intro Keeps (not dry_run && ltb 0 r.deleted_worktrees)
        (after_prune-Keeps r (t.prune w) (v.pruned c w k)) k

  go_on-Keeps :
      (rest : Effect W (Unit {0}))
      → ((w : W) → Exists c w → Exists c (rest w).1)
      → (q : Result (Unit {0}) × W) → Exists c q.1
      → Exists c (Execute.go_on t rest q).1
  go_on-Keeps rest h (ok u, w) k = h w k
  go_on-Keeps rest h (err e, w) k = k

  remove_temp_files-Keeps :
      (fs : List String) (w : W) → Exists c w → Exists c (remove_temp_files t fs w).1
  unfolding remove_temp_files
  remove_temp_files-Keeps [] w k = k
  remove_temp_files-Keeps (f ∷ fs) w k =
      go_on-Keeps (remove_temp_files t fs) (remove_temp_files-Keeps fs) (t.remove_file f w)
        (v.file f c w k)

  after_files-Keeps :
      (n : ℕ) (r : CleanupResult) (q : Result (Unit {0}) × W)
      → Exists c q.1
      → Keeps (Execute.after_files t n r q)
  after_files-Keeps n r (ok u, w) h = h
  after_files-Keeps n r (err e, w) h = h

  delete_temp_files-Keeps :
      (dry_run : Bool) (fs : List String) (s : Execute.State t)
      → Keeps s
      → Keeps (delete_temp_files t dry_run fs s)
  unfolding delete_temp_files
  delete_temp_files-Keeps dry_run fs (r, w) k = if-intro Keeps (is_empty fs) k (
      if-intro Keeps dry_run k (
        after_files-Keeps (length fs) r (remove_temp_files t fs w)
          (remove_temp_files-Keeps fs w k)))

  execute-Keeps :
      (plan : CleanupPlan) (dry_run : Bool) (w : W)
      → All Spared plan.branches
      → Exists c w
      → Keeps (execute t plan dry_run w)
  unfolding execute
  execute-Keeps plan dry_run w h k = delete_temp_files-Keeps dry_run plan.temp_files _ (
      prune-Keeps dry_run _ (
        delete_worktrees-Keeps dry_run plan.worktrees _
          (delete_branches-Keeps dry_run plan.branches (no_result, w) h k)))

  unspared :
      (n : ℕ) (b : String) (w : W)
      → (has_unmerged_changes t c w || has_open_pr t c w) ≡ true
      → Spared (Cleanup.artifact_of t b n w)
  unspared n b w used = if-name (str_eq b c) (λ e. (eq_iff b c).0 e)
    where
      if-name :
          (same : Bool)
          → (same ≡ true → b ≡ c)
          → (same && (Cleanup.artifact_of t b n w).can_delete) ≡ false
      if-name false h = refl
      if-name true h = rw (h refl) (ground (arith, used))

  detect_branches-Spared :
      (ns : List ℕ) (w : W)
      → (has_unmerged_changes t c w || has_open_pr t c w) ≡ true
      → All Spared (detect_branches t ns w)
  unfolding detect_branches
  detect_branches-Spared [] w used = tt
  detect_branches-Spared (n ∷ ns) w used =
      let branch = t.find_branch ("oda-" ++ itoa n ++ "-") w in
      let rest = detect_branches-Spared ns w used in
      if-intro (All Spared) (str_eq branch "") rest (unspared n branch w used, rest)

  -- Of every plan that is answered, the branches are spared.
  abbrev AllSpared : Result CleanupPlan → Type 0
  AllSpared (ok plan) = All Spared plan.branches
  AllSpared (err e) = Unit {0}

  plan_for-AllSpared :
      (m : Milestone) (r : Result (List ℕ)) (w : W)
      → (has_unmerged_changes t c w || has_open_pr t c w) ≡ true
      → AllSpared (Cleanup.plan_for t m r w)
  plan_for-AllSpared m (ok ns) w used = detect_branches-Spared ns w used
  plan_for-AllSpared m (err e) w used = tt

  detect_in-AllSpared :
      (r : Result Milestone) (w : W)
      → (has_unmerged_changes t c w || has_open_pr t c w) ≡ true
      → AllSpared (Cleanup.detect_in t r w)
  detect_in-AllSpared (ok m) w used = plan_for-AllSpared m (t.closed_tickets m.number w) w used
  detect_in-AllSpared (err e) w used = tt

  -- Let a branch be taken away by nothing but its own deletion. A branch that is there, and that is
  -- found to have unmerged changes or an open pull request when the artifacts of a sprint are looked
  -- up, is still there when that plan was executed.
  pub execute-Protects :
      (title : String) (plan : CleanupPlan) (dry_run : Bool) (w : W)
      → detect_artifacts t title w ≡ ok plan
      → (has_unmerged_changes t c w || has_open_pr t c w) ≡ true
      → Exists c w
      → Exists c (execute t plan dry_run w).1
  unfolding detect_artifacts
  execute-Protects title plan dry_run w e used k =
      execute-Keeps plan dry_run w
        (subst AllSpared e (detect_in-AllSpared (Cleanup.find_milestone t title w) w used)) k
