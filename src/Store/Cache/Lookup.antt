-- ===== src/Store/Cache/Lookup.antt =====
-- What a read of the issue cache sees after a write.

use one_dev_army.Common.{
  ℕ, ◌≤◌, ◌≡◌, refl, ◌==◌, Bool, true, false, ◌&&◌, ◌||◌, some, List, [], ◌∷◌, map, String, str_eq,
  if◌then◌else◌, arith, select, any, All, length,
}
use one_dev_army.Common.Text.{equal_fold}
use one_dev_army.GitHub.Issue.{Issue, get_assignee}
use one_dev_army.Store.Cache.{
  IssueCache, Cache, to_row, of_row, find_row, get_issue_cache, replace_row, save_issue_cache,
  insert_by_number, sort_by_number, is_open_in, get_open_issues_cache_by_milestone,
}

pub find_row-replace_row :
    (n : ℕ) (r : IssueCache) (t : Cache)
    → find_row n (replace_row r t) ≡ (if r.issue_number == n then some r else find_row n t)
unfolding find_row replace_row
find_row-replace_row n r [] = refl
find_row-replace_row n r (s ∷ t) = ground (arith, find_row-replace_row n r t)

-- What comes back of a stored issue: all of it, but of the assignees the first alone.
abbrev pub stored : Issue → Issue
stored i = record i { assignees = if str_eq (get_assignee i) "" then [] else get_assignee i ∷ [] }

-- A forced write is read back under its number, and changes what is read under no other.
pub get_issue_cache-save :
    (n : ℕ) (i : Issue) (m : String) (t : Cache)
    → get_issue_cache n (save_issue_cache i m true t)
      ≡ (if i.number == n then some (stored i) else get_issue_cache n t)
unfolding save_issue_cache
get_issue_cache-save n i m t = rw (find_row-replace_row n (to_row i m) t) (ground arith)

-- A write that is not forced never puts an older issue in place of a newer one, where both have a
-- time.
pub save_issue_cache-monotone :
    (i : Issue) (m : String) (t : Cache) (n : ℕ) {old new : Issue} {a b : ℕ}
    → get_issue_cache n t ≡ some old
    → get_issue_cache n (save_issue_cache i m false t) ≡ some new
    → old.updated_at ≡ some a
    → new.updated_at ≡ some b
    → a ≤ b
unfolding save_issue_cache
save_issue_cache-monotone i m t n h k p q = ground (arith, find_row-replace_row n (to_row i m) t)

-- The number of rows under one issue number.
abbrev pub rows_of : ℕ → Cache → ℕ
rows_of n t = length (select (λ r. r.issue_number == n) t)

replace_row-rows_of :
    (n : ℕ) (r : IssueCache) (t : Cache)
    → rows_of n (replace_row r t)
      ≡ (if r.issue_number == n && (rows_of n t == 0) then 1 else rows_of n t)
unfolding replace_row
replace_row-rows_of n r [] = ground arith
replace_row-rows_of n r (s ∷ t) = ground (arith, replace_row-rows_of n r t)

-- No write gives an issue number a second row.
pub save_issue_cache-rows_of :
    (i : Issue) (m : String) (force : Bool) (t : Cache)
    → ((n : ℕ) → rows_of n t ≤ 1)
    → (n : ℕ) → rows_of n (save_issue_cache i m force t) ≤ 1
unfolding save_issue_cache
save_issue_cache-rows_of i m force t h n = ground (arith, h n, replace_row-rows_of n (to_row i m) t)

any-insert :
    (p : IssueCache → Bool) (r : IssueCache) (rs : List IssueCache)
    → any p (insert_by_number r rs) ≡ (p r || any p rs)
any-insert p r [] = refl
any-insert p r (s ∷ rs) = ground (arith, any-insert p r rs)

any-sort : (p : IssueCache → Bool) (rs : List IssueCache) → any p (sort_by_number rs) ≡ any p rs
any-sort p [] = refl
any-sort p (r ∷ rs) = ground (arith, any-insert p r (sort_by_number rs), any-sort p rs)

any-select :
    (p q : IssueCache → Bool) (rs : List IssueCache)
    → any p (select q rs) ≡ any (λ r. q r && p r) rs
any-select p q [] = refl
any-select p q (r ∷ rs) = ground (arith, any-select p q rs)

any-map :
    (p : Issue → Bool) (rs : List IssueCache) → any p (map of_row rs) ≡ any (λ r. p (of_row r)) rs
any-map p [] = refl
any-map p (r ∷ rs) = ground (arith, any-map p rs)

-- Issues in the order of their numbers.
abbrev pub AtLeast : ℕ → List Issue → Type 0
AtLeast lo [] = Unit
AtLeast lo (i ∷ is) = (lo ≤ i.number) × AtLeast i.number is

-- The open issues of a milestone: an issue with a given property is listed exactly when a row of
-- that milestone whose state is OPEN, in any case, reads as such an issue.
pub any-get_open :
    (p : Issue → Bool) (m : String) (t : Cache)
    → any p (get_open_issues_cache_by_milestone m t) ≡ any (λ r. is_open_in m r && p (of_row r)) t
unfolding get_open_issues_cache_by_milestone
any-get_open p m t = simp (any-map, any-sort, any-select)

AtLeast-insert :
    (lo : ℕ) (r : IssueCache) (rs : List IssueCache)
    → lo ≤ r.issue_number
    → AtLeast lo (map of_row rs)
    → AtLeast lo (map of_row (insert_by_number r rs))
unfolding of_row
AtLeast-insert lo r [] h k = (h, tt)
AtLeast-insert lo r (s ∷ rs) h k = ground (arith, AtLeast-insert s.issue_number r rs)

AtLeast-sort : (rs : List IssueCache) → AtLeast 0 (map of_row (sort_by_number rs))
AtLeast-sort [] = tt
AtLeast-sort (r ∷ rs) = AtLeast-insert 0 r (sort_by_number rs) (omega arith) (AtLeast-sort rs)

-- They are listed in the order of their numbers.
pub get_open-AtLeast : (m : String) (t : Cache) → AtLeast 0 (get_open_issues_cache_by_milestone m t)
unfolding get_open_issues_cache_by_milestone
get_open-AtLeast m t = AtLeast-sort (select (is_open_in m) t)

module _ (P : Issue → Type 0) where
  All-insert :
      (r : IssueCache) (rs : List IssueCache)
      → P (of_row r)
      → All P (map of_row rs)
      → All P (map of_row (insert_by_number r rs))
  All-insert r [] h k = (h, tt)
  All-insert r (s ∷ rs) h (k, ks) = ground (arith, All-insert r rs h ks)

  All-scan :
      (q : IssueCache → Bool) (rs : List IssueCache)
      → ((r : IssueCache) → q r ≡ true → P (of_row r))
      → All P (map of_row (sort_by_number (select q rs)))
  All-scan q [] h = tt
  All-scan q (r ∷ rs) h = ground (
    arith,
    h r,
    All-scan q rs h,
    λ (p : P (of_row r)) (k : All P (map of_row (sort_by_number (select q rs)))).
        All-insert r (sort_by_number (select q rs)) p k,
  )

-- Every issue of the list is open.
pub get_open_are_open :
    (m : String) (t : Cache)
    → All (λ i. equal_fold i.state "OPEN" ≡ true) (get_open_issues_cache_by_milestone m t)
unfolding get_open_issues_cache_by_milestone of_row
get_open_are_open m t =
    All-scan (λ i. equal_fold i.state "OPEN" ≡ true) (is_open_in m) t (λ r e. ground arith)
