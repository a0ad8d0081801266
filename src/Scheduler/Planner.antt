-- ===== src/Scheduler/Planner.antt =====
-- internal/scheduler/planner.go: how a sprint is planned. Titles of milestones and answers of the model
-- are code points. `decode_plan` is the standard library's JSON, `fill` puts the list of the issues into
-- the prompt; both, and the calls of gh and of the model, are fields of `Tools`.
pub mod Numbers
pub mod Assignment
use Prim.Native.String.{◌++◌ as join}
use one_dev_army.Common.{
  ℕ, zero, suc, ◌+◌, ◌==◌, Bool, true, false, not, ◌&&◌, ◌||◌, Option, none, some, List, [], ◌∷◌,
  ◌++◌, String, str_eq, starts_with, if◌then◌else◌, is_empty, ltb, leb, first,
}
use one_dev_army.Common.Int.{ℤ, pos, negsuc, succ_int}
use one_dev_army.Common.Decimal.{itoa, atoi, is_digit}
use one_dev_army.Common.Text.{codes}
use one_dev_army.Common.Effect.{Result, ok, err, Effect, try, pure}
use one_dev_army.GitHub.Issue.{Issue}
use one_dev_army.Llm.{Router, category_planning, select_model}
use one_dev_army.Mvp.Worker.Texts.{itoa as spell_number}
use one_dev_army.Scheduler.{extract_json}

pub record Sprint : Type 0 where
  pub id : ℤ
  pub name : List ℕ
  pub milestone : List ℕ
  pub task_ids : List ℤ

-- A part of an answer: its type and its text.
abbrev pub Part : Type 0
Part = String × List ℕ

pub record Tools (W : Type 0) : Type 0 where
  pub list_open_issues : Effect W (List Issue)
  pub create_session : String → Effect W String
  pub send_message : String → String → String → Effect W (List Part)
  pub list_milestones : Effect W (List (List ℕ))
  pub create_milestone : List ℕ → Effect W (Unit {0})
  pub set_milestone : ℤ → List ℕ → Effect W (Unit {0})
  pub decode_plan : List ℕ → Option (List ℤ)
  pub fill : String → String
  pub router : Option Router
  pub planning_model : String

-- The label of the size, or "".
abbrev pub size_label : Issue → String
size_label i = elim (first (λ l. starts_with l "size:") i.labels) [ none ↦ "" | some l ↦ l ]

unfoldable pub sprint_lines : List Issue → String
sprint_lines [] = ""
sprint_lines (i ∷ is) = join "- #" (
    join (spell_number i.number)
      (join ": " (join i.title (join " [" (join (size_label i) (join "]\n" (sprint_lines is)))))))

unfoldable pub extract_text_content : List Part → List ℕ
extract_text_content [] = []
extract_text_content ((kind, text) ∷ ps) =
    let later = extract_text_content ps in
    if str_eq kind "text" && not (is_empty text) then text else later

abbrev pub checked_plan : Option (List ℤ) → Result (List ℤ)
checked_plan none = err "unmarshaling sprint plan"
checked_plan (some []) = err "sprint plan contains no tasks"
checked_plan (some (i ∷ is)) = ok (i ∷ is)

unfoldable pub parse_sprint_plan : (List ℕ → Option (List ℤ)) → List ℕ → Result (List ℤ)
unfolding extract_json
parse_sprint_plan decode content = checked_plan (decode (extract_json content))

-- `Sscanf(title, "Sprint %d", &id)`, on ASCII: the word, a blank at least, and a number, behind which
-- anything may stand. The scanner takes underscores for digits, which then are an error.
abbrev pub is_scan_blank : ℕ → Bool
is_scan_blank c = c == 32 || c == 9 || c == 11 || c == 12 || c == 13

unfoldable pub behind_blanks : List ℕ → List ℕ
behind_blanks [] = []
behind_blanks (c ∷ cs) = let rest = behind_blanks cs in if is_scan_blank c then rest else c ∷ cs

unfoldable pub number_token : List ℕ → List ℕ
number_token [] = []
number_token (c ∷ cs) = let rest = number_token cs in if is_digit c || c == 95 then c ∷ rest else []

abbrev pub signed_token : List ℕ → List ℕ
signed_token [] = []
signed_token (c ∷ cs) = if c == 45 || c == 43 then c ∷ number_token cs else number_token (c ∷ cs)

abbrev pub scan_number : List ℕ → Option ℤ
scan_number [] = none
scan_number (c ∷ cs) = if is_scan_blank c then atoi (signed_token (behind_blanks cs)) else none

abbrev pub behind_word : List ℕ → List ℕ → Option ℤ
behind_word [] s = scan_number s
behind_word (p ∷ ps) [] = none
behind_word (p ∷ ps) (c ∷ cs) = let rest = behind_word ps cs in if c == p then rest else none

unfoldable pub sprint_word : List ℕ
unfolding codes
sprint_word = codes "Sprint"

unfoldable pub scan_sprint : List ℕ → Option ℤ
unfolding sprint_word behind_blanks number_token atoi
scan_sprint title = behind_word sprint_word title

-- `if err == nil && id > maxID { maxID = id }`
abbrev pub raise : Option ℤ → ℕ → ℕ
raise (some (pos n)) m = if ltb m n then n else m
raise _ m = m

unfoldable pub max_id : List (List ℕ) → ℕ → ℕ
unfolding scan_sprint
max_id [] m = m
max_id (t ∷ ts) m = max_id ts (raise (scan_sprint t) m)

abbrev pub next_of : Result (List (List ℕ)) → ℤ
next_of (ok titles) = succ_int (pos (max_id titles 0))
next_of (err e) = pos 1

unfoldable pub sprint_name : ℤ → List ℕ
unfolding sprint_word itoa
sprint_name id = sprint_word ++ 32 ∷ itoa id

module _ {W : Type 0} (t : Tools W) where
  abbrev pub planning_choice : Option Router → String
  planning_choice none = t.planning_model
  planning_choice (some r) = select_model r category_planning

  abbrev pub next_sprint_id : W → ℤ × W
  next_sprint_id w = let (r, w1) = t.list_milestones w in (next_of r, w1)

  unfoldable pub assign_all : List ℤ → List ℕ → Effect W (Unit {0})
  assign_all [] name w = (ok tt, w)
  assign_all (i ∷ is) name w =
      try (λ e. join "assigning issue to milestone: " e) (t.set_milestone i name)
        (λ _. assign_all is name) w

  -- From the ids that the model has chosen on.
  unfoldable pub open_sprint : List ℤ → Effect W Sprint
  unfolding sprint_name assign_all
  open_sprint ids w =
      let (id, w1) = next_sprint_id w in
      let name = sprint_name id in
      try (λ e. join "creating milestone: " e) (t.create_milestone name)
        (λ _.
          try (λ e. e) (assign_all ids name)
            (λ _. pure (record { id = id; name = name; milestone = name; task_ids = ids })))
        w1

  abbrev pub with_plan : Result (List ℤ) → Effect W Sprint
  with_plan (ok ids) w = open_sprint ids w
  with_plan (err e) w = (err (join "parsing sprint plan: " e), w)

  abbrev pub ask_for_plan : List Issue → Effect W Sprint
  ask_for_plan issues =
      try (λ e. join "creating planning session: " e) (t.create_session "sprint-planning")
        (λ session.
          try (λ e. join "sending planning prompt: " e)
            (t.send_message session (t.fill (sprint_lines issues)) (planning_choice t.router))
            (λ msg. with_plan (parse_sprint_plan t.decode_plan (extract_text_content msg))))

  unfoldable pub plan_sprint : Effect W Sprint
  unfolding sprint_lines extract_text_content parse_sprint_plan open_sprint select_model
  plan_sprint =
      try (λ e. join "fetching open issues: " e) t.list_open_issues
        (λ issues w.
          if is_empty issues then (err "no open issues in backlog", w) else ask_for_plan issues w)
