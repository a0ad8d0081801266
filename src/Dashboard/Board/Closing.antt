-- ===== src/Dashboard/Board/Closing.antt =====
-- When the board offers to close the sprint, and how that differs from the orchestrator's announcement.
use one_dev_army.Common.{
  ◌≡◌, ◌↔◌, refl, ap, ◌∙◌, sym, Bool, true, false, Option, some, List, [], ◌∷◌, String, arith,
  select, map, is_empty, All,
}
use one_dev_army.GitHub.Issue.{Issue}
use one_dev_army.Store.Steps.{Steps}
use one_dev_army.Store.Cache.{Cache, get_issues_cache_by_milestone}
use one_dev_army.Mvp.Orchestrator.{Orchestrator}
use one_dev_army.Dashboard.Board.{
  Column, Cards, TaskCard, same, no_cards, infer_column_from_issue, add_all, can_close,
  build_board_data,
}
use one_dev_army.Dashboard.Board.Columns.{belongs, add_all-column}

select-[] :
    (c : Column) (is : List Issue)
    → is_empty (select (belongs c) is) ≡ true
    → All (λ i. belongs c i ≡ false) is
select-[] c [] h = tt
select-[] c (i ∷ is) h = ground (arith, select-[] c is)

absurd_case : {A : Type 0} → true ≡ false → A
absurd_case e = cc

column_is_done :
    (d : Column) → ((c : Column) → same c Column.done ≡ false → same c d ≡ false) → d ≡ Column.done
column_is_done Column.done h = refl
column_is_done Column.backlog h = absurd_case (h Column.backlog refl)
column_is_done Column.blocked h = absurd_case (h Column.blocked refl)
column_is_done Column.plan h = absurd_case (h Column.plan refl)
column_is_done Column.code h = absurd_case (h Column.code refl)
column_is_done Column.ai_review h = absurd_case (h Column.ai_review refl)
column_is_done Column.check_pipeline h = absurd_case (h Column.check_pipeline refl)
column_is_done Column.approve h = absurd_case (h Column.approve refl)
column_is_done Column.merge h = absurd_case (h Column.merge refl)
column_is_done Column.failed h = absurd_case (h Column.failed refl)

-- No ticket in any of the other columns means that all are done.
every_done :
    (is : List Issue)
    → ((c : Column) → same c Column.done ≡ false → All (λ i. belongs c i ≡ false) is)
    → All (λ i. infer_column_from_issue i ≡ Column.done) is
every_done [] h = tt
every_done (i ∷ is) h = (
  column_is_done (infer_column_from_issue i) (λ c e. (h c e).0),
  every_done is (λ c e. (h c e).1),
)

is_empty-map : (f : Issue → TaskCard) (is : List Issue) → is_empty (map f is) ≡ is_empty is
is_empty-map f [] = refl
is_empty-map f (i ∷ is) = refl

can_close-others :
    (busy : Bool) (cards : Cards)
    → can_close busy cards ≡ true
    → (c : Column) → same c Column.done ≡ false
    → is_empty (cards c) ≡ true
can_close-others busy cards h Column.done e = cc
can_close-others busy cards h Column.backlog e = ground arith
can_close-others busy cards h Column.blocked e = ground arith
can_close-others busy cards h Column.plan e = ground arith
can_close-others busy cards h Column.code e = ground arith
can_close-others busy cards h Column.ai_review e = ground arith
can_close-others busy cards h Column.check_pipeline e = ground arith
can_close-others busy cards h Column.approve e = ground arith
can_close-others busy cards h Column.merge e = ground arith
can_close-others busy cards h Column.failed e = ground arith

can_close-idle : (busy : Bool) (cards : Cards) → can_close busy cards ≡ true → busy ≡ false
can_close-idle busy cards h = ground arith

can_close-done :
    (busy : Bool) (cards : Cards)
    → can_close busy cards ≡ true
    → is_empty (cards Column.done) ≡ false
can_close-done busy cards h = ground arith

can_close-intro :
    (busy : Bool) (cards : Cards)
    → busy ≡ false
    → ((c : Column) → same c Column.done ≡ false → is_empty (cards c) ≡ true)
    → is_empty (cards Column.done) ≡ false
    → can_close busy cards ≡ true
can_close-intro busy cards idle others some_done =
    let f = λ (c : Column) (e : same c Column.done ≡ false). others c e in
    rw (
      idle,
      f Column.blocked refl,
      f Column.backlog refl,
      f Column.plan refl,
      f Column.code refl,
      f Column.ai_review refl,
      f Column.check_pipeline refl,
      f Column.approve refl,
      f Column.merge refl,
      f Column.failed refl,
      some_done,
    )

others_empty :
    (c : Column) (is : List Issue)
    → same c Column.done ≡ false
    → All (λ i. infer_column_from_issue i ≡ Column.done) is
    → is_empty (select (belongs c) is) ≡ true
others_empty c [] e h = refl
others_empty c (i ∷ is) e (h, hs) = rw (h, e, others_empty c is e hs)

done_kept :
    (is : List Issue)
    → All (λ i. infer_column_from_issue i ≡ Column.done) is
    → is_empty (select (belongs Column.done) is) ≡ is_empty is
done_kept [] h = refl
done_kept (i ∷ is) (h, hs) = rw h

some_issue :
    (c : Column) (is : List Issue) → is_empty (select (belongs c) is) ≡ false → is_empty is ≡ false
some_issue c [] h = h
some_issue c (i ∷ is) h = refl

module _ (store : Option Steps) (is : List Issue) (busy : Bool) where
  column_empty :
      (c : Column) → is_empty (add_all store no_cards is c) ≡ is_empty (select (belongs c) is)
  column_empty c = ap is_empty (add_all-column store c no_cards is) ∙ is_empty-map _ _

  closable :
      can_close busy (add_all store no_cards is) ≡ true
      → (busy ≡ false)
        × (is_empty is ≡ false)
        × All (λ i. infer_column_from_issue i ≡ Column.done) is
  closable h =
      let cards = add_all store no_cards is in
      (
        can_close-idle busy cards h,
        some_issue Column.done is (sym (column_empty Column.done) ∙ can_close-done busy cards h),
        every_done is
            λ c e. select-[] c is (sym (column_empty c) ∙ can_close-others busy cards h c e),
      )

  closable_if :
      (busy ≡ false) × (is_empty is ≡ false) × All (λ i. infer_column_from_issue i ≡ Column.done) is
      → can_close busy (add_all store no_cards is) ≡ true
  closable_if (idle, some_is, all_are) =
      can_close-intro busy (add_all store no_cards is) idle
        (λ c e. column_empty c ∙ others_empty c is e all_are)
        (column_empty Column.done ∙ done_kept is all_are ∙ some_is)

-- The board of a milestone offers to close the sprint exactly when the orchestrator processes nothing,
-- the cache has an issue of the milestone, and every one of them stands in the column Done.
pub build_board_data-can_close :
    {W : Type 0} (o : Option (Orchestrator W)) (steps : Steps) (cache : Cache) (m : String)
    → let issues = get_issues_cache_by_milestone m cache in
      let board = build_board_data o (some (steps, cache)) (some m) in
      (board.can_close_sprint ≡ true) ↔ (
        (board.processing ≡ false)
        × (is_empty issues ≡ false)
        × All (λ i. infer_column_from_issue i ≡ Column.done) issues)
unfolding build_board_data
build_board_data-can_close o steps cache m =
    let issues = get_issues_cache_by_milestone m cache in
    let busy = (build_board_data o (some (steps, cache)) (some m)).processing in
    (closable (some steps) issues busy, closable_if (some steps) issues busy)
