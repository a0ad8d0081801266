-- ===== src/Dashboard/Board/Announced.antt =====
-- The orchestrator's announcement that a sprint can be closed, beside what the board says of it.
use one_dev_army.Common.{
  ◌≡◌, ◌≢◌, refl, ap, ◌∙◌, sym, Bool, true, false, not, ◌&&◌, ◌||◌, Bool-cases, inl, inr, some,
  List, [], ◌∷◌, String, str_eq, arith, if◌then◌else◌, select, map, is_empty, any, all, All,
}
use one_dev_army.Common.Text.{lower_is}
use one_dev_army.GitHub.Issue.{Issue, get_label_names}
use one_dev_army.Store.Cache.{
  IssueCache, Cache, is_open_in, of_row, insert_by_number, sort_by_number,
  get_issues_cache_by_milestone, get_open_issues_cache_by_milestone,
}
use one_dev_army.Mvp.Orchestrator.{Orchestrator}
use one_dev_army.Mvp.Orchestrator.Stages.{active_milestone, check_and_broadcast_sprint_closable}
use one_dev_army.Mvp.Orchestrator.Stages.Closable.{
  is_marked_failed, open_issues, check_and_broadcast_sprint_closable_lem,
}
use one_dev_army.Dashboard.Board.{Column, infer_column_from_issue, build_board_data, in_set}
use one_dev_army.Dashboard.Board.Closing.{build_board_data-can_close}

module _ (P : Issue → Type 0) where
  All-uninsert :
      (r : IssueCache) (rs : List IssueCache)
      → All P (map of_row (insert_by_number r rs))
      → P (of_row r) × All P (map of_row rs)
  All-uninsert r [] h = h
  All-uninsert r (s ∷ rs) h = ground (arith, All-uninsert r rs)

  All-insert :
      (r : IssueCache) (rs : List IssueCache)
      → P (of_row r)
      → All P (map of_row rs)
      → All P (map of_row (insert_by_number r rs))
  All-insert r [] h k = (h, tt)
  All-insert r (s ∷ rs) h (k, ks) = ground (arith, All-insert r rs h ks)

  All-unsort :
      (rs : List IssueCache) → All P (map of_row (sort_by_number rs)) → All P (map of_row rs)
  All-unsort [] h = tt
  All-unsort (r ∷ rs) h =
      let (k, ks) = All-uninsert r (sort_by_number rs) h in (k, All-unsort rs ks)

  All-sort : (rs : List IssueCache) → All P (map of_row rs) → All P (map of_row (sort_by_number rs))
  All-sort [] h = tt
  All-sort (r ∷ rs) (k, ks) = All-insert r (sort_by_number rs) k (All-sort rs ks)

  All-open :
      (m : String) (rs : List IssueCache)
      → All P (map of_row (select (λ r. str_eq r.milestone m) rs))
      → All P (map of_row (select (is_open_in m) rs))
  All-open m [] h = tt
  All-open m (r ∷ rs) h = ground (arith, All-open m rs)

  -- What holds of all issues of a milestone holds of the open ones.
  get_open-All :
      (m : String) (t : Cache)
      → All P (get_issues_cache_by_milestone m t)
      → All P (get_open_issues_cache_by_milestone m t)
  unfolding get_issues_cache_by_milestone get_open_issues_cache_by_milestone
  get_open-All m t h =
      All-sort (select (is_open_in m) t)
        (All-open m t (All-unsort (select (λ r. str_eq r.milestone m) t) h))

any-|| :
    (f g : String → Bool) (ls : List String) → any (λ l. f l || g l) ls ≡ (any f ls || any g ls)
any-|| f g [] = refl
any-|| f g (l ∷ ls) = ground (arith, any-|| f g ls)

second_column :
    (b f : Bool) (rest : Column)
    → f ≡ true
    → (if b then Column.blocked else (if f then Column.failed else rest)) ≢ Column.done
second_column true f rest h e = cc
second_column false true rest h e = cc
second_column false false rest h e = cc

-- An issue with a failed label is not in the column Done.
failed_not_done : (i : Issue) → is_marked_failed i ≡ true → infer_column_from_issue i ≢ Column.done
unfolding infer_column_from_issue get_label_names
failed_not_done i h =
    second_column (in_set "stage:blocked" i || in_set "blocked" i)
      (in_set "stage:failed" i || in_set "failed" i) _
      (sym (any-|| (λ l. lower_is l "stage:failed") (λ l. lower_is l "failed") i.labels) ∙ h)

none_failed :
    (is : List Issue)
    → All (λ i. infer_column_from_issue i ≡ Column.done) is
    → (not (is_empty is) && all is_marked_failed is) ≡ false
none_failed [] l = refl
none_failed (i ∷ is) (l, ls) = elim (Bool-cases (is_marked_failed i)) [
  | inl e ↦ absurd (failed_not_done i e l)
  | inr e ↦ rw e refl
]

if-last :
    {A : Type 0} (a b c d e : Bool) (x y : A)
    → (d && e) ≡ false
    → (if a && b && c && d && e then x else y) ≡ y
if-last a b c d e x y h = ground arith

module _ {W : Type 0} (o : Orchestrator W) where
  quiet :
      All
        (λ i. infer_column_from_issue i ≡ Column.done)
        (get_issues_cache_by_milestone (active_milestone o) o.cache)
      → check_and_broadcast_sprint_closable o ≡ o
  quiet every_done =
      check_and_broadcast_sprint_closable_lem o
      ∙ if-last o.has_hub o.has_store (not (str_eq (active_milestone o) ""))
          (not (is_empty (open_issues o))) (all is_marked_failed (open_issues o)) _ o
          (none_failed (open_issues o) (
            get_open-All (λ i. infer_column_from_issue i ≡ Column.done) (active_milestone o) o.cache
              every_done))

  -- When the orchestrator announces that the sprint can be closed, the board of the active milestone
  -- does not offer it: the announcement needs an open issue that has failed, and the offer needs every
  -- issue in the column Done.
  pub build_board_data-announced :
      (check_and_broadcast_sprint_closable o).broadcasts ≢ o.broadcasts
      → (build_board_data
          (some o)
          (some (o.steps, o.cache))
          (some (active_milestone o))).can_close_sprint
        ≡ false
  build_board_data-announced announced =
      let offer =
        (build_board_data (some o) (some (o.steps, o.cache))
          (some (active_milestone o))).can_close_sprint in
      elim (Bool-cases offer) [
        | inl h ↦
            let facts =
              (build_board_data-can_close (some o) o.steps o.cache (active_milestone o)).0 h in
            absurd (announced (ap (λ x. x.broadcasts) (quiet facts.2)))
        | inr h ↦ h
      ]
