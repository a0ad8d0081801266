-- ===== src/GitHub/Relabel.antt =====
-- `SetStageLabel` leaves exactly one stage label, and the reading of the labels agrees with it.
use one_dev_army.Common.{
  is_empty, ℕ, ◌≡◌, ◌≢◌, refl, not, List, [], ◌∷◌, ◌++◌, String, Bool-cases, inl, inr, Bool-cases,
  inl, inr, arith, select,
}
use one_dev_army.Common.Effect.{
  ok, ignore, Ensures, Ensures-self, Ensures-any, Ensures-eq, try-Ensures,
}
use one_dev_army.GitHub.Stage.{
  Stage, done, unset, is_stage_label, stage_from_label, get_stage_from_labels,
}
use one_dev_army.GitHub.Stage
use one_dev_army.GitHub.Labels.{stage_from_label_iff, stage_from_label_of_not, is_stage_label-label}
use one_dev_army.GitHub.Issue.{Issue}
use one_dev_army.GitHub.Client.{
  Gh, get_stage_labels_to_remove, rebuild_labels, updated_issue, set_stage_label,
}
use one_dev_army.GitHub.Client

-- The labels that the remote call takes off are the ones that the local rebuild drops.
pub get_stage_labels_to_remove-select :
    (ls : List String) → get_stage_labels_to_remove ls ≡ select is_stage_label ls
unfolding get_stage_labels_to_remove is_stage_label
get_stage_labels_to_remove-select [] = refl
get_stage_labels_to_remove-select (l ∷ ls) = rw (get_stage_labels_to_remove-select ls)

pub rebuild_labels-select :
    (s : Stage) (ls : List String)
    → rebuild_labels s ls ≡ select (λ l. not (is_stage_label l)) ls ++ Stage.label s ∷ []
unfolding rebuild_labels
rebuild_labels-select s [] = refl
rebuild_labels-select s (l ∷ ls) = ground (arith, rebuild_labels-select s ls)

-- The rebuilt labels hold one stage label, the new one.
pub select-rebuild_labels :
    (s : Stage) (ls : List String)
    → s ≢ unset
    → select is_stage_label (rebuild_labels s ls) ≡ Stage.label s ∷ []
unfolding rebuild_labels
select-rebuild_labels s [] h = rw (is_stage_label-label s h)
select-rebuild_labels s (l ∷ ls) h = ground (arith, select-rebuild_labels s ls h)

pub get_stage_from_labels-rebuild :
    (s : Stage) (ls : List String) → s ≢ unset → get_stage_from_labels (rebuild_labels s ls) ≡ s
unfolding rebuild_labels get_stage_from_labels
get_stage_from_labels-rebuild s [] h = rw ((stage_from_label_iff (Stage.label s) s).1 (h, refl))
get_stage_from_labels-rebuild s (l ∷ ls) h =
    ground (arith, get_stage_from_labels-rebuild s ls h, stage_from_label_of_not l)

-- What the caller of `SetStageLabel` gets.
pub record IsRelabelled (s : Stage) (i i' : Issue) : Type 0 where
  pub one_stage_label : select is_stage_label i'.labels ≡ Stage.label s ∷ []
  pub reads_as : get_stage_from_labels i'.labels ≡ s
  pub others_kept :
      select (λ l. not (is_stage_label l)) i'.labels ≡ select (λ l. not (is_stage_label l)) i.labels
  pub number_kept : i'.number ≡ i.number
  pub title_kept : i'.title ≡ i.title
  pub done_closes : s ≡ done → i'.state ≡ "closed"
  pub state_kept : s ≢ done → i'.state ≡ i.state

others-rebuild_labels :
    (s : Stage) (ls : List String)
    → s ≢ unset
    → select (λ l. not (is_stage_label l)) (rebuild_labels s ls)
      ≡ select (λ l. not (is_stage_label l)) ls
unfolding rebuild_labels
others-rebuild_labels s [] h = rw (is_stage_label-label s h)
others-rebuild_labels s (l ∷ ls) h = ground (arith, others-rebuild_labels s ls h)

updated_issue-IsRelabelled :
    (s : Stage) (i : Issue) → s ≢ unset → IsRelabelled s i (updated_issue s i)
unfolding updated_issue
updated_issue-IsRelabelled s i h = record {
  one_stage_label = select-rebuild_labels s i.labels h;
  reads_as = get_stage_from_labels-rebuild s i.labels h;
  others_kept = others-rebuild_labels s i.labels h;
  number_kept = refl;
  title_kept = refl;
  done_closes = ground arith;
  state_kept = ground arith;
}

module _ {W : Type 0} (gh : Gh W) (n : ℕ) (s : Stage) (w : W) (h : s ≢ unset) where
  abbrev Relabels : Issue → Type 0
  Relabels i' = (i : Issue) × ((gh.view_issue n w).0 ≡ ok i) × IsRelabelled s i i'

  set_stage_label-Ensures : Ensures Relabels (set_stage_label gh n s w)
  unfolding set_stage_label ignore
  set_stage_label-Ensures =
      try-Ensures _ _ _ w (λ i. (gh.view_issue n w).0 ≡ ok i) Relabels
        (Ensures-self (gh.view_issue n w))
        λ i w1 e.
          let good : Relabels (updated_issue s i) = (i, e, updated_issue-IsRelabelled s i h) in
          elim (Bool-cases (is_empty (get_stage_labels_to_remove i.labels))) [
            | inl none_old ↦ rw none_old (added i good w1)
            | inr some_old ↦ rw some_old (added i good _)
          ]
    where
      added :
          (i : Issue)
          → Relabels (updated_issue s i)
          → (w1 : W) → Ensures Relabels (Client.attach gh n s i w1)
      added i good w1 =
          try-Ensures _ _ _ w1 (λ _. Unit) Relabels (Ensures-any _)
            λ _ w2 _. elim (Bool-cases (Client.is_done s)) [
              | inl closes ↦
                  rw closes
                    (try-Ensures _ _ _ w2 (λ _. Unit) Relabels (Ensures-any _) (λ _ _ _. good))
              | inr stays ↦ rw stays good
            ]

  -- When `SetStageLabel` succeeds, GitHub had answered with an issue, and the issue that it returns
  -- is that one with the new stage for its only stage label; it is closed exactly for `done`.
  pub set_stage_label-IsRelabelled :
      (w' : W) (i' : Issue)
      → set_stage_label gh n s w ≡ (ok i', w')
      → (i : Issue) × ((gh.view_issue n w).0 ≡ ok i) × IsRelabelled s i i'
  set_stage_label-IsRelabelled w' i' e =
      Ensures-eq Relabels (set_stage_label gh n s w) set_stage_label-Ensures e
