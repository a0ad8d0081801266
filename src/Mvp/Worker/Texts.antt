-- ===== src/Mvp/Worker/Texts.antt =====
-- internal/mvp/worker.go: the texts that the worker reads and writes: `slug`, the branch name,
-- `checkAlreadyDone` and `parseTechnicalPlanningResponse`. `strings.ToLower` and
-- `strings.TrimSpace` are those of ASCII. Positions count bytes, as in Go.
pub mod Slug
use Prim.Native.Char.{Char, code}
use Prim.Native.String.{◌++◌, len, find, slice}
use one_dev_army.Common.{
  ℕ, zero, suc, ◌+◌, ◌-◌, ◌/◌, ◌%◌, ◌==◌, Bool, true, false, ◌&&◌, ◌||◌, List, [], ◌∷◌, String,
  starts_with, if◌then◌else◌, ltb, leb, take, length,
}
use one_dev_army.Common.Text.{codes, lower}

-- The text of an ASCII letter, digit or dash.
abbrev pub letter : ℕ → String
letter c =
    if leb 97 c && leb c 122
    then slice "abcdefghijklmnopqrstuvwxyz" (c - 97) (c - 96)
    else (if leb 48 c && leb c 57 then slice "0123456789" (c - 48) (c - 47) else "-")

unfoldable pub spell : List ℕ → String
spell [] = ""
spell (c ∷ cs) = letter c ++ spell cs

-- `[a-z0-9]`
abbrev pub is_slug_char : ℕ → Bool
is_slug_char c = leb 97 c && leb c 122 || leb 48 c && leb c 57

-- `slugRe.ReplaceAllString(s, "-")` on lower case, a run of other characters to one dash; the flag
-- says that such a run is going on.
unfoldable pub replace_runs : Bool → List ℕ → List ℕ
replace_runs in_run [] = []
replace_runs in_run (c ∷ cs) =
    let word = replace_runs false cs in
    let gap = replace_runs true cs in
    if is_slug_char (lower c) then lower c ∷ word else (if in_run then gap else 45 ∷ gap)

-- `strings.TrimRight(s, "-")`, element by element, and `strings.TrimLeft(s, "-")`.
abbrev pub keep : ℕ → List ℕ → List ℕ
keep c [] = if c == 45 then [] else c ∷ []
keep c (d ∷ ds) = c ∷ d ∷ ds

unfoldable pub trim_right : List ℕ → List ℕ
trim_right [] = []
trim_right (c ∷ cs) = keep c (trim_right cs)

unfoldable pub trim_left : List ℕ → List ℕ
trim_left [] = []
trim_left (c ∷ cs) = let rest = trim_left cs in if c == 45 then rest else c ∷ cs

-- Up to 40 characters stand as they are; a longer slug is cut and trimmed again.
unfoldable pub slug_codes : List ℕ → List ℕ
unfolding replace_runs trim_right trim_left
slug_codes title =
    let s = trim_right (trim_left (replace_runs false title)) in
    if ltb 40 (length s) then trim_right (take 40 s) else s

unfoldable pub slug : String → String
unfolding codes slug_codes spell
slug title = spell (slug_codes (codes title))

-- `%d`
unfoldable pub digits : ℕ → ℕ → String
digits zero n = ""
digits (suc fuel) n =
    let rest = digits fuel (n / 10) in
    if ltb n 10 then letter (48 + n) else rest ++ letter (48 + n % 10)

unfoldable pub itoa : ℕ → String
unfolding digits
itoa n = digits (suc n) n

unfoldable pub branch_name : ℕ → String → String
unfolding slug itoa
branch_name number title = "oda-" ++ itoa number ++ "-" ++ slug title

abbrev pub is_space : Char → Bool
is_space c = code c == 32 || leb 9 (code c) && leb (code c) 13

abbrev pub drop_space : Char → String → String
drop_space c String.[] = if is_space c then "" else String.◌∷◌ c ""
drop_space c (String.◌∷◌ d s) = String.◌∷◌ c (String.◌∷◌ d s)

unfoldable pub trim_space_right : String → String
trim_space_right String.[] = ""
trim_space_right (String.◌∷◌ c s) = drop_space c (trim_space_right s)

unfoldable pub trim_space_left : String → String
trim_space_left String.[] = ""
trim_space_left (String.◌∷◌ c s) =
    let rest = trim_space_left s in if is_space c then rest else String.◌∷◌ c s

unfoldable pub trim_space : String → String
unfolding trim_space_left trim_space_right
trim_space s = trim_space_right (trim_space_left s)

-- The lines of a text: the current line, and the rest.
unfoldable pub lines : String → List String
lines String.[] = "" ∷ []
lines (String.◌∷◌ c s) = if code c == 10 then "" ∷ lines s else extend c (lines s)
  where
    extend : Char → List String → List String
    extend c [] = String.◌∷◌ c "" ∷ []
    extend c (l ∷ ls) = String.◌∷◌ c l ∷ ls

-- The loop of `checkAlreadyDone`: the reason behind the first marker.
unfoldable pub reason_in : List String → String
unfolding trim_space
reason_in [] = ""
reason_in (l ∷ ls) =
    let later = reason_in ls in
    let line = trim_space l in
    if starts_with line "ALREADY_DONE:" then trim_space (slice line 13 (len line)) else later

unfoldable pub check_already_done : String → String
unfolding lines reason_in
check_already_done response = reason_in (lines response)

unfoldable pub lower_text : String → String
lower_text String.[] = ""
lower_text (String.◌∷◌ c s) =
    let rest = lower_text s in
    if leb 65 (code c) && leb (code c) 90 then letter (code c + 32) ++ rest else String.◌∷◌ c rest

-- `strings.Index(s, t) >= 0`: a search that fails gives a position behind the end.
abbrev pub found : String → ℕ → Bool
found s i = leb i (len s)

abbrev pub part : String → ℕ → ℕ → String
part s a b = trim_space (slice s a b)

-- The analysis and the plan.
unfoldable pub parse_technical_planning_response : String → String × String
unfolding lower_text trim_space
parse_technical_planning_response r =
    let a = find r "## Analysis" in
    let p = find r "## Implementation Plan" in
    let i = find (lower_text r) "implementation plan" in
    if found r a && found r p && ltb a p
    then (part r (a + 11) p, part r (p + 22) (len r))
    else (if found r a
        then (part r (a + 11) (len r), part r (a + 11) (len r))
        else (if found r p
            then (part r 0 p, part r (p + 22) (len r))
            else (if found (lower_text r) i && ltb 0 i
                then (part r 0 i, part r i (len r))
                else (r, r))))
