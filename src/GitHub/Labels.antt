-- ===== src/GitHub/Labels.antt =====
-- Stages and labels are one and the same: what `StageFromLabel` finds, and what `IsStageLabel`
-- covers.
use one_dev_army.Common.{
  ◌≡◌, ◌≢◌, ◌↔◌, refl, Bool, true, false, List, [], ◌∷◌, String, str_eq, eq_iff, arith, ap, All,
  Bool-cases, inl, inr,
}
use one_dev_army.GitHub.Stage.{
  Stage, backlog, unset, label, stages_by_label, find_in, stage_from_label, is_stage_label,
}

stage_from_label-label : (s : Stage) → s ≢ unset → stage_from_label (label s) ≡ (s, true)
unfolding stage_from_label label
stage_from_label-label unset h = absurd (h refl)
stage_from_label-label backlog h = refl
stage_from_label-label s h = refl

-- Every write of the map is a stage under its own label.
abbrev IsWrite : String × Stage → Type 0
IsWrite (k, s) = (s ≢ unset) × (label s ≡ k)

find_in-IsWrite :
    (l : String) (s : Stage) (m : List (String × Stage))
    → All IsWrite m
    → find_in l m ≡ (s, true)
    → IsWrite (l, s)
find_in-IsWrite l s [] h e = cc
find_in-IsWrite l s ((k, t) ∷ m) (h, hs) e = elim (Bool-cases (str_eq l k)) [
  | inl hit ↦ rw (← (ap (λ (r : Stage × Bool). r.0) (rw (hit, find_in) at e)), (eq_iff l k).0 hit) h
  | inr miss ↦ find_in-IsWrite l s m hs (rw (miss, find_in) at e)
]

find_in_missing :
    (l : String) (s : Stage) (m : List (String × Stage)) → find_in l m ≡ (s, false) → s ≡ unset
find_in_missing l s [] e = cc
find_in_missing l s ((k, t) ∷ m) e = ground (arith, find_in_missing l s m)

stages_by_label-IsWrite : All IsWrite stages_by_label
unfolding stages_by_label
stages_by_label-IsWrite = ground arith

label-stage_from_label :
    (l : String) (s : Stage) → stage_from_label l ≡ (s, true) → (s ≢ unset) × (label s ≡ l)
unfolding stage_from_label
label-stage_from_label l s e = find_in-IsWrite l s stages_by_label stages_by_label-IsWrite e

-- `StageFromLabel` finds a stage exactly when the text is the label of that stage.
pub stage_from_label_iff :
    (l : String) (s : Stage) → (stage_from_label l ≡ (s, true)) ↔ ((s ≢ unset) × (label s ≡ l))
stage_from_label_iff l s =
    (label-stage_from_label l s, λ h. rw (← h.1) (stage_from_label-label s h.0))

-- A text that is the label of no stage gives the zero value of the type, which is no stage.
pub stage_from_label_missing :
    (l : String) (s : Stage) → stage_from_label l ≡ (s, false) → s ≡ unset
unfolding stage_from_label
stage_from_label_missing l s e = find_in_missing l s stages_by_label e

-- The label of every stage is a stage label.
pub is_stage_label-label : (s : Stage) → s ≢ unset → is_stage_label (label s) ≡ true
unfolding is_stage_label label
is_stage_label-label unset h = absurd (h refl)
is_stage_label-label backlog h = refl
is_stage_label-label s h = refl

-- What is not a stage label gives no stage.
pub stage_from_label_of_not :
    (l : String) → is_stage_label l ≡ false → (stage_from_label l).1 ≡ false
stage_from_label_of_not l h = elim (Bool-cases (stage_from_label l).1) [
  | inl found ↦
      let (ne, e) = label-stage_from_label l (stage_from_label l).0 (rw (← found)) in
      cc (is_stage_label-label (stage_from_label l).0 ne, ap is_stage_label e)
  | inr missing ↦ missing
]
