-- ===== src/Examples/OfCleanup.antt =====
-- The cleanup of internal/sprint on a repository of branches.
use one_dev_army.Common.{
  ◌≡◌, ◌≢◌, refl, true, false, not, ◌||◌, some, List, [], ◌∷◌, String, str_eq, if◌then◌else◌, any,
  select, arith, eq_iff,
}
use one_dev_army.Common.Text.{codes, codes_eq}
use one_dev_army.Common.Effect.{ok, err}
use one_dev_army.Workers.Texts.{trim_blanks_left, trim_blanks_right}
use one_dev_army.Cleanup.{
  Tools, CleanupPlan, has_unmerged_changes, has_open_pr, detect_branches, detect_artifacts,
}
use one_dev_army.Cleanup.Execute.{execute}
use one_dev_army.Cleanup.DryRun.{counted, execute-dry}
use one_dev_army.Cleanup.Protection.{IsKeeper, execute-Protects}

abbrev repository : Tools (List String)
repository = record {
  repo_dir = "/repo";
  recently_closed = λ w. ok (some (record { number = 2; title = "Sprint 2"; created_at = 5 }));
  list_milestones = λ w. ok [];
  closed_tickets = λ n w. ok (4 ∷ 7 ∷ []);
  find_branch = λ p w. if str_eq p "oda-4-" then "oda-4-fix" else "oda-7-add";
  main_exists = λ w. true;
  log_between = λ a b w. if str_eq b "oda-7-add" then ok "abc work" else ok "";
  open_prs = λ b w. ok "[]";
  worktree_list = λ w. ok (("/repo", "main") ∷ ("/tmp/wt", "oda-7-add") ∷ []);
  old_temp_files = λ n w. err "no directory";
  can_stat = λ f w. true;
  remove_branch = λ b w. (ok tt, select (λ c. not (str_eq b c)) w);
  delete_remote = λ b w. (err "no remote", w);
  remove_worktree = λ p w. (ok tt, w);
  prune = λ w. (ok tt, w);
  remove_file = λ f w. (ok tt, w);
}

abbrev HasBranch : String → List String → Type 0
HasBranch b w = any (λ c. str_eq c b) w ≡ true

select-HasBranch :
    (b c : String) (w : List String)
    → b ≢ c
    → HasBranch c w
    → HasBranch c (select (λ d. not (str_eq b d)) w)
select-HasBranch b c [] ne h = h
select-HasBranch b c (d ∷ w) ne h =
    ground (arith, select-HasBranch b c w ne, eq_iff b d, eq_iff d c)

repository-IsKeeper : IsKeeper repository HasBranch
repository-IsKeeper = record {
  local = select-HasBranch;
  distant = λ b c w ne h. h;
  worktree = λ p c w h. h;
  pruned = λ c w h. h;
  file = λ f c w h. h;
}

abbrev branches : List String
branches = "oda-4-fix" ∷ "oda-7-add" ∷ []

abbrev plan : CleanupPlan
plan = record {
  sprint = "Sprint 2";
  branches = detect_branches repository (4 ∷ 7 ∷ []) branches;
  worktrees = record { path = "/tmp/wt"; branch = "oda-7-add" } ∷ [];
  temp_files = [];
}

detected : detect_artifacts repository "" branches ≡ ok plan
unfolding detect_artifacts
detected = refl

is_unmerged :
    (has_unmerged_changes repository "oda-7-add" branches
      || has_open_pr repository "oda-7-add" branches)
    ≡ true
unfolding has_unmerged_changes has_open_pr codes codes_eq trim_blanks_left trim_blanks_right
is_unmerged = refl

execute-dry_example : execute repository plan true branches ≡ (counted plan, branches)
execute-dry_example = execute-dry repository plan branches

execute-Protects_example : HasBranch "oda-7-add" (execute repository plan false branches).1
execute-Protects_example =
    execute-Protects repository HasBranch repository-IsKeeper "oda-7-add" "" plan false branches
      detected is_unmerged refl
