-- ===== src/Store/Ledger.antt =====
-- internal/db/db.go: the table `stage_change_ledger`. The clock is an argument.
use one_dev_army.Common.{
  ℕ, zero, suc, ◌+◌, ◌==◌, List, [], ◌∷◌, ◌++◌, String, if◌then◌else◌, leb, select, take,
}

pub record StageChange : Type 0 where
  pub id : ℕ
  pub issue_number : ℕ
  pub from_stage : String
  pub to_stage : String
  pub reason : String
  pub changed_by : String
  pub changed_at : ℕ

pub record Ledger : Type 0 where
  pub rows : List StageChange
  pub next_id : ℕ

unfoldable pub save_stage_change : ℕ → ℕ → String → String → String → String → Ledger → Ledger
save_stage_change now issue from to reason by t = record {
  rows =
      t.rows
      ++ record {
        id = t.next_id;
        issue_number = issue;
        from_stage = from;
        to_stage = to;
        reason = reason;
        changed_by = by;
        changed_at = now;
      }
        ∷ [];
  next_id = t.next_id + 1;
}

-- `ORDER BY changed_at DESC`; rows of one time stand in the order of their ids.
abbrev pub insert_desc : StageChange → List StageChange → List StageChange
insert_desc c [] = c ∷ []
insert_desc c (d ∷ ds) = if leb d.changed_at c.changed_at then c ∷ d ∷ ds else d ∷ insert_desc c ds

abbrev pub sort_desc : List StageChange → List StageChange
sort_desc [] = []
sort_desc (c ∷ cs) = insert_desc c (sort_desc cs)

unfoldable pub get_stage_changes : ℕ → Ledger → List StageChange
get_stage_changes issue t = sort_desc (select (λ c. c.issue_number == issue) t.rows)

unfoldable pub get_stage_changes_limit : ℕ → ℕ → Ledger → List StageChange
get_stage_changes_limit issue zero t = sort_desc (select (λ c. c.issue_number == issue) t.rows)
get_stage_changes_limit issue (suc k) t =
    take (suc k) (sort_desc (select (λ c. c.issue_number == issue) t.rows))
