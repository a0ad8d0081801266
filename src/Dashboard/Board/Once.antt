-- ===== src/Dashboard/Board/Once.antt =====
-- The cards of a ticket that is written to the cache.
use one_dev_army.Common.{
  ℕ, ◌≤◌, ◌≡◌, refl, ap, ◌∙◌, ◌==◌, Bool, true, false, Option, List, [], ◌∷◌, String, str_eq,
  if◌then◌else◌, arith, select, map,
}
use one_dev_army.GitHub.Issue.{Issue}
use one_dev_army.Store.Steps.{Steps}
use one_dev_army.Store.Cache.{
  IssueCache, Cache, to_row, of_row, replace_row, save_issue_cache, insert_by_number,
  sort_by_number, get_issues_cache_by_milestone,
}
use one_dev_army.Store.Cache.Lookup.{rows_of}
use one_dev_army.Dashboard.Board.{
  Column, TaskCard, no_cards, infer_column_from_issue, card_of, add_all,
}
use one_dev_army.Dashboard.Board.Columns.{belongs, column_card, add_all-column}

select-map :
    {A B : Type 0} (p : B → Bool) (f : A → B) (xs : List A)
    → select p (map f xs) ≡ map f (select (λ x. p (f x)) xs)
select-map p f [] = refl
select-map p f (x ∷ xs) = ground (arith, select-map p f xs)

select-swap :
    {A : Type 0} (p q : A → Bool) (xs : List A) → select p (select q xs) ≡ select q (select p xs)
select-swap p q [] = refl
select-swap p q (x ∷ xs) = ground (arith, select-swap p q xs)

-- What a card says of its ticket.
abbrev pub shown : TaskCard → ℕ × String × Column
shown k = (k.id, k.title, k.status)

module _ (n : ℕ) where
  abbrev of_ticket : IssueCache → Bool
  of_ticket r = r.issue_number == n

  -- The order by number changes nothing among the rows of one number.
  select-insert :
      (r : IssueCache) (rs : List IssueCache)
      → select of_ticket (insert_by_number r rs) ≡ select of_ticket (r ∷ rs)
  select-insert r [] = refl
  select-insert r (s ∷ rs) = ground (arith, select-insert r rs)

  select-sort : (rs : List IssueCache) → select of_ticket (sort_by_number rs) ≡ select of_ticket rs
  select-sort [] = refl
  select-sort (r ∷ rs) =
      select-insert r (sort_by_number rs)
      ∙ ap (λ ks. if of_ticket r then r ∷ ks else ks) (select-sort rs)

  no_rows : (t : Cache) → rows_of n t ≡ 0 → select of_ticket t ≡ []
  no_rows [] h = refl
  no_rows (r ∷ t) h = ground (arith, no_rows t)

  -- A row that replaces the only one of its ticket, if there was one, is then the only one.
  select-replace_row :
      (r : IssueCache) (t : Cache)
      → r.issue_number ≡ n
      → rows_of n t ≤ 1
      → select of_ticket (replace_row r t) ≡ r ∷ []
  unfolding replace_row
  select-replace_row r [] e h = ground arith
  select-replace_row r (s ∷ t) e h = ground (arith, select-replace_row r t e, no_rows t)

  -- The cached issues of the ticket behind a write.
  pub written_once :
      (i : Issue) (m : String) (t : Cache)
      → i.number ≡ n
      → str_eq m m ≡ true
      → rows_of n t ≤ 1
      → select (λ j. j.number == n) (get_issues_cache_by_milestone m (save_issue_cache i m true t))
        ≡ of_row (to_row i m) ∷ []
  unfolding get_issues_cache_by_milestone save_issue_cache of_row to_row
  written_once i m t e same_m h =
      let row = to_row i m in
      let in_m : IssueCache → Bool = λ r. str_eq r.milestone m in
      let rows = select in_m (replace_row row t) in
      select-map (λ j. j.number == n) of_row (sort_by_number rows)
      ∙ ap (map of_row) (
          select-sort rows
          ∙ (select-swap of_ticket in_m (replace_row row t)
              ∙ (ap (select in_m) (select-replace_row row t e h)
                  ∙ ap (λ b. if b then row ∷ [] else []) same_m)))

  -- The cards of a ticket that is cached once, in each column.
  pub card_once :
      (steps : Option Steps) (c : Column) (i : Issue) (is : List Issue)
      → select (λ j. j.number == n) is ≡ i ∷ []
      → i.number ≡ n
      → map shown (select (λ k. k.id == n) (add_all steps no_cards is c))
        ≡ (if belongs c i then (n, i.title, infer_column_from_issue i) ∷ [] else [])
  unfolding card_of
  card_once steps c i is e k =
      let cards = column_card steps c in
      ap (λ ks. map shown (select (λ k. k.id == n) ks)) (add_all-column steps c no_cards is)
      ∙ (ap (map shown) (
            select-map (λ k. k.id == n) cards (select (belongs c) is)
            ∙ ap (map cards)
                (select-swap (λ j. j.number == n) (belongs c) is ∙ ap (select (belongs c)) e))
          ∙ shown_if (belongs c i))
    where
      shown_if :
          (b : Bool)
          → map shown (map (column_card steps c) (if b then i ∷ [] else []))
            ≡ (if b then (n, i.title, infer_column_from_issue i) ∷ [] else [])
      shown_if true = ap (λ m. (m, i.title, infer_column_from_issue i) ∷ []) k
      shown_if false = refl
