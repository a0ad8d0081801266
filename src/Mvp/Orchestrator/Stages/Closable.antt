-- ===== src/Mvp/Orchestrator/Stages/Closable.antt =====
-- When the orchestrator announces that the sprint can be closed.
use one_dev_army.Common.{
  ℕ, ◌≡◌, refl, Bool, true, false, not, ◌&&◌, ◌||◌, List, [], ◌∷◌, String, str_eq, if◌then◌else◌,
  arith, any, all, All, is_empty, map,
}
use one_dev_army.Common.Text.{equal_fold, codes_eq, codes, lower}
use one_dev_army.GitHub.Issue.{Issue}
use one_dev_army.Store.Cache.{get_open_issues_cache_by_milestone}
use one_dev_army.Store.Cache.Lookup.{get_open_are_open}
use one_dev_army.Mvp.Orchestrator.{
  Orchestrator, sprint_closable, infer_column_for_closable_check, is_failed_label,
}
use one_dev_army.Mvp.Orchestrator.Stages.{
  active_milestone, broadcast, is_terminal, check_and_broadcast_sprint_closable,
}

-- `open` and `closed` differ in their first letter.
open_not_closed :
    (cs : List ℕ) → codes_eq cs (codes "open") ≡ true → codes_eq cs (codes "closed") ≡ false
unfolding codes_eq codes
open_not_closed [] h = cc
open_not_closed (c ∷ cs) h = ground arith

equal_fold_open : (s : String) → equal_fold s "OPEN" ≡ true → equal_fold s "CLOSED" ≡ false
unfolding equal_fold codes_eq
equal_fold_open s h = open_not_closed (map lower (codes s)) h

abbrev pub is_marked_failed : Issue → Bool
is_marked_failed i = any is_failed_label i.labels

column_is_terminal :
    (failed closed active : Bool)
    → closed ≡ false
    → let column : String =
        if failed
        then "Failed"
        else (if closed then "Done" else (if active then "Active" else "Backlog")) in
      (str_eq column "Done" || str_eq column "Failed") ≡ failed
column_is_terminal true closed active h = refl
column_is_terminal false true active h = cc
column_is_terminal false false true h = refl
column_is_terminal false false false h = refl

is_terminal_open :
    (i : Issue) → equal_fold i.state "OPEN" ≡ true → is_terminal i ≡ is_marked_failed i
unfolding infer_column_for_closable_check
is_terminal_open i h =
    column_is_terminal (is_marked_failed i) (equal_fold i.state "CLOSED") _
      (equal_fold_open i.state h)

all_terminal_open :
    (is : List Issue)
    → All (λ i. equal_fold i.state "OPEN" ≡ true) is
    → all is_terminal is ≡ all is_marked_failed is
all_terminal_open [] h = refl
all_terminal_open (i ∷ is) (h, hs) = rw (is_terminal_open i h, all_terminal_open is hs)

module _ {W : Type 0} (o : Orchestrator W) where
  abbrev pub open_issues : List Issue
  open_issues = get_open_issues_cache_by_milestone (active_milestone o) o.cache

  -- The sprint is announced as closable exactly when there are a hub, a store, an active milestone
  -- and at least one open issue in it, and all its open issues carry a failed label; the state is
  -- otherwise as it was. A milestone whose issues are all done has no open issue, and is not
  -- announced.
  pub check_and_broadcast_sprint_closable_lem : check_and_broadcast_sprint_closable o ≡ (
      if o.has_hub
        && o.has_store
        && not (str_eq (active_milestone o) "")
        && not (is_empty open_issues)
        && all is_marked_failed open_issues
      then broadcast (sprint_closable true) o
      else o)
  unfolding check_and_broadcast_sprint_closable
  check_and_broadcast_sprint_closable_lem =
      ground (arith, all_terminal_open open_issues (get_open_are_open (active_milestone o) o.cache))
