-- ===== src/Dashboard/Board/Columns.antt =====
-- Which tickets stand in a column of the board.
use one_dev_army.Common.{
  ◌≡◌, refl, ap, ◌∙◌, sym, Bool, true, false, Option, List, [], ◌∷◌, ◌++◌, if◌then◌else◌, select,
  map,
}
use one_dev_army.GitHub.Issue.{Issue}
use one_dev_army.Store.Steps.{Steps}
use one_dev_army.Dashboard.Board.{
  Column, Cards, TaskCard, same, infer_column_from_issue, card_of, add_card_to_column, add_all,
}

pub ++-nil : {A : Type 0} (xs : List A) → xs ++ [] ≡ xs
++-nil [] = refl
++-nil (x ∷ xs) = ap (λ r. x ∷ r) (++-nil xs)

++-assoc_one :
    {A : Type 0} (xs : List A) (y : A) (zs : List A) → (xs ++ (y ∷ [])) ++ zs ≡ xs ++ (y ∷ zs)
++-assoc_one [] y zs = refl
++-assoc_one (x ∷ xs) y zs = ap (λ r. x ∷ r) (++-assoc_one xs y zs)

abbrev pub belongs : Column → Issue → Bool
belongs c i = same c (infer_column_from_issue i)

module _ (store : Option Steps) (c : Column) where
  abbrev pub column_card : Issue → TaskCard
  column_card i = card_of store (infer_column_from_issue i) i

  added_behind :
      (b : Bool) (xs : List TaskCard) (i : Issue) (ys : List Issue)
      → (if b then xs ++ (column_card i ∷ []) else xs) ++ map column_card ys
        ≡ xs ++ map column_card (if b then i ∷ ys else ys)
  added_behind true xs i ys = ++-assoc_one xs (column_card i) (map column_card ys)
  added_behind false xs i ys = refl

  pub add_all-column :
      (cards : Cards) (is : List Issue)
      → add_all store cards is c ≡ cards c ++ map column_card (select (belongs c) is)
  unfolding add_card_to_column
  add_all-column cards [] = sym (++-nil (cards c))
  add_all-column cards (i ∷ is) =
      add_all-column (add_card_to_column store cards (infer_column_from_issue i) i) is
      ∙ added_behind (belongs c i) (cards c) i (select (belongs c) is)
