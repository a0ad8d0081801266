-- ===== src/Examples/OfStore.antt =====
-- Calls of internal/db on concrete tables.
use one_dev_army.Common.{◌≤◌, ◌≡◌, refl, true, false, some, [], ◌∷◌}
use one_dev_army.GitHub.Issue.{Issue, get_assignee}
use one_dev_army.Store.Cache.{
  Cache, of_row, is_open_in, get_issue_cache, save_issue_cache, get_open_issues_cache_by_milestone,
}
use one_dev_army.Store.Cache
use one_dev_army.Store.Cache.Lookup.{stored, get_issue_cache-save, save_issue_cache-monotone}
use one_dev_army.Examples.{issue_of}

abbrev bug : Issue
bug = issue_of 4 ("stage:coding" ∷ [])

abbrev table : Cache
table = save_issue_cache bug "Sprint 1" true []

abbrev newer : Issue
newer = record bug { updated_at = some 9; labels = [] }

reads_old : get_issue_cache 4 table ≡ some (stored bug)
reads_old = get_issue_cache-save 4 bug "Sprint 1" []

reads_new : get_issue_cache 4 (save_issue_cache newer "Sprint 1" false table) ≡ some (stored newer)
unfolding save_issue_cache get_issue_cache Cache.find_row Cache.replace_row Cache.of_row
    Cache.to_row get_assignee
reads_new = refl

save_issue_cache-monotone_example : 5 ≤ 9
save_issue_cache-monotone_example =
    save_issue_cache-monotone newer "Sprint 1" table 4 {old = stored bug} {new = stored newer}
      reads_old reads_new refl refl
