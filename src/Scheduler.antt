-- ===== src/Scheduler.antt =====
-- internal/scheduler/epic.go: how the JSON is cut out of an answer of the model, on code points.
-- Decoding it is the standard library's, a parameter of the modules below.
pub mod Brackets
pub mod Planner
use mathlib.Core.Option
use one_dev_army.Common.{
  ℕ, zero, suc, ◌+◌, ◌-◌, ◌==◌, Bool, true, false, ◌&&◌, ◌||◌, Option, none, some, List, [], ◌∷◌,
  if◌then◌else◌, ltb,
}

-- `strings.Index(s, string(c))`, counted in code points.
unfoldable pub index_of : ℕ → List ℕ → Option ℕ
index_of c [] = none
index_of c (x ∷ xs) = if x == c then some 0 else Option.map suc (index_of c xs)

abbrev pub drop : ℕ → List ℕ → List ℕ
drop zero xs = xs
drop (suc n) [] = []
drop (suc n) (x ∷ xs) = drop n xs

-- The loop over the brackets from a depth on: up to the bracket that closes, or to the end.
unfoldable pub close_scan : ℕ → ℕ → ℕ → List ℕ → List ℕ
close_scan left right depth [] = []
close_scan left right depth (x ∷ xs) =
    let deeper = close_scan left right (depth + 1) xs in
    let higher = close_scan left right (depth - 1) xs in
    let same = close_scan left right depth xs in
    if x == left
    then x ∷ deeper
    else (if x == right then (if depth == 1 then x ∷ [] else x ∷ higher) else x ∷ same)

-- `{` and `}`, `[` and `]`
abbrev pub brace : ℕ
brace = 123

abbrev pub unbrace : ℕ
unbrace = 125

abbrev pub bracket : ℕ
bracket = 91

abbrev pub unbracket : ℕ
unbracket = 93

abbrev pub array_from : Option ℕ → List ℕ → List ℕ
array_from none content = content
array_from (some start) content = close_scan bracket unbracket 0 (drop start content)

unfoldable pub extract_json_array : List ℕ → List ℕ
unfolding index_of close_scan
extract_json_array content = array_from (index_of bracket content) content

abbrev pub json_from : Option ℕ → Option ℕ → List ℕ → List ℕ
json_from none none content = content
json_from none (some arr) content = extract_json_array (drop arr content)
json_from (some obj) none content = close_scan brace unbrace 0 (drop obj content)
json_from (some obj) (some arr) content =
    if ltb arr obj
    then extract_json_array (drop arr content)
    else close_scan brace unbrace 0 (drop obj content)

unfoldable pub extract_json : List ℕ → List ℕ
unfolding index_of close_scan extract_json_array
extract_json content = json_from (index_of brace content) (index_of bracket content) content
