-- ===== src/Workers/Texts.antt =====
-- internal/worker/processor.go: `Slugify` and `BranchName`. Case folding and trimming are those of
-- ASCII.
pub mod Branches
use Prim.Native.String.{◌++◌}
use one_dev_army.Common.{
  ℕ, Bool, ◌||◌, ◌&&◌, ◌==◌, List, [], ◌∷◌, map, String, if◌then◌else◌, ltb, leb, length, take,
  select,
}
use one_dev_army.Common.Text.{codes, lower}
use one_dev_army.Mvp.Worker.Texts.{is_slug_char, keep, trim_left, trim_right, spell, itoa}

abbrev pub max_slug_len : ℕ
max_slug_len = 50

abbrev pub is_blank : ℕ → Bool
is_blank c = c == 32 || leb 9 c && leb c 13

unfoldable pub trim_blanks_left : List ℕ → List ℕ
trim_blanks_left [] = []
trim_blanks_left (c ∷ cs) = let rest = trim_blanks_left cs in if is_blank c then rest else c ∷ cs

abbrev pub keep_blank : ℕ → List ℕ → List ℕ
keep_blank c [] = if is_blank c then [] else c ∷ []
keep_blank c (d ∷ ds) = c ∷ d ∷ ds

unfoldable pub trim_blanks_right : List ℕ → List ℕ
trim_blanks_right [] = []
trim_blanks_right (c ∷ cs) = keep_blank c (trim_blanks_right cs)

abbrev pub dash_space : ℕ → ℕ
dash_space c = if c == 32 then 45 else c

-- `[a-z0-9-]`
abbrev pub is_kept : ℕ → Bool
is_kept c = is_slug_char c || c == 45

-- `multiDash.ReplaceAllString(s, "-")`
unfoldable pub collapse : List ℕ → List ℕ
collapse [] = []
collapse (c ∷ []) = c ∷ []
collapse (c ∷ d ∷ ds) =
    let rest = collapse (d ∷ ds) in if c == 45 && d == 45 then rest else c ∷ rest

unfoldable pub slugify_codes : List ℕ → List ℕ
unfolding trim_blanks_left trim_blanks_right collapse trim_left trim_right
slugify_codes title =
    let spaced = map dash_space (map lower (trim_blanks_right (trim_blanks_left title))) in
    let s = trim_right (trim_left (collapse (select is_kept spaced))) in
    if ltb max_slug_len (length s) then trim_right (take max_slug_len s) else s

unfoldable pub slugify : String → String
unfolding codes slugify_codes spell
slugify title = spell (slugify_codes (codes title))

unfoldable pub branch_name : ℕ → String → String
unfolding slugify itoa
branch_name number title = "task/" ++ itoa number ++ "-" ++ slugify title
