-- ===== src/Dashboard/Wizard/Tasks.antt =====
-- internal/dashboard/wizard.go: `parseTaskJSON`, up to the decoding of the array, on code points. The
-- depth may be negative, so it is a signed number.
pub mod Cut
use one_dev_army.Common.{
  ℕ, zero, suc, ◌+◌, ◌-◌, ◌==◌, Bool, true, false, ◌&&◌, ◌||◌, Option, none, some, List, [], ◌∷◌,
  String, if◌then◌else◌, leb, take, length,
}
use one_dev_army.Common.Int.{ℤ, pos, negsuc}
use one_dev_army.Common.Text.{codes}
use one_dev_army.Scheduler.{drop}

abbrev pub starts : List ℕ → List ℕ → Bool
starts [] s = true
starts (p ∷ ps) [] = false
starts (p ∷ ps) (c ∷ s) = c == p && starts ps s

-- ```
abbrev pub fence : List ℕ
fence = 96 ∷ 96 ∷ 96 ∷ []

-- The text before the first fence, if there is one.
unfoldable pub before_fence : List ℕ → Option (List ℕ)
before_fence [] = none
before_fence (c ∷ cs) =
    let rest = before_fence cs in
    if starts fence (c ∷ cs) then some [] else (elim rest [ none ↦ none | some s ↦ some (c ∷ s) ])

-- `\s` of the regular expression
abbrev pub is_space : ℕ → Bool
is_space c = c == 32 || c == 9 || c == 10 || c == 12 || c == 13

unfoldable pub skip_spaces : List ℕ → List ℕ
skip_spaces [] = []
skip_spaces (c ∷ cs) = let rest = skip_spaces cs in if is_space c then rest else c ∷ cs

-- `(?:json)?\s*`
unfoldable pub skip_language : List ℕ → List ℕ
unfolding skip_spaces
skip_language s = skip_spaces (if starts (106 ∷ 115 ∷ 111 ∷ 110 ∷ []) s then drop 4 s else s)

-- The group of the first match: behind the first fence, up to the next one. Where no fence follows
-- the first there is no match at all.
unfoldable pub code_block : List ℕ → Option (List ℕ)
unfolding before_fence skip_language
code_block [] = none
code_block (c ∷ cs) =
    let rest = code_block cs in
    if starts fence (c ∷ cs) then before_fence (skip_language (drop 3 (c ∷ cs))) else rest

abbrev pub block_or_text : Option (List ℕ) → List ℕ → List ℕ
block_or_text none s = s
block_or_text (some b) s = b

abbrev pub deeper : ℤ → ℤ
deeper (pos n) = pos (n + 1)
deeper (negsuc zero) = pos 0
deeper (negsuc (suc n)) = negsuc n

abbrev pub higher : ℤ → ℤ
higher (pos zero) = negsuc 0
higher (pos (suc n)) = pos n
higher (negsuc n) = negsuc (suc n)

abbrev pub is_zero : ℤ → Bool
is_zero (pos n) = n == 0
is_zero (negsuc n) = false

abbrev pub is_set : Option ℕ → Bool
is_set none = false
is_set (some n) = true

-- The loop: the place, the start and the depth; the result is the start and the end.
unfoldable pub scan : ℕ → Option ℕ → ℤ → List ℕ → Option ℕ × Option ℕ
scan i start depth [] = (start, none)
scan i start depth (c ∷ cs) =
    let opened = scan (i + 1) (if is_zero depth then some i else start) (deeper depth) cs in
    let closed = scan (i + 1) start (higher depth) cs in
    let passed = scan (i + 1) start depth cs in
    if c == 91
    then opened
    else (if c == 93
        then (if is_zero (higher depth) && is_set start then (start, some i) else closed)
        else passed)

-- `text[start : end+1]`
abbrev pub cut : List ℕ → Option ℕ × Option ℕ → Option (List ℕ)
cut s (some a, some b) = if leb b a then none else some (take (b + 1 - a) (drop a s))
cut s _ = none

-- What is given to the decoder; `none` is an answer without tasks.
unfoldable pub task_json : List ℕ → Option (List ℕ)
unfolding code_block scan
task_json text = let s = block_or_text (code_block text) text in cut s (scan 0 none (pos 0) s)
