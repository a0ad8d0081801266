-- ===== src/Mvp/Orchestrator/Stages/Sync.antt =====
-- When an event of the sync has nothing to do.
use one_dev_army.Common.{
  ◌≡◌, refl, ap, ◌∙◌, Bool, true, false, some, none, ◌↔◌, ◌⊎◌, inl, inr, List, [], ◌∷◌, String,
  str_eq, if◌then◌else◌, any, arith,
}
use one_dev_army.Common.Text.{equal_fold}
use one_dev_army.GitHub.Stage.{Stage, done, unset, stage_from_label, get_stage_from_labels}
use one_dev_army.GitHub.Stage
use one_dev_army.GitHub.Labels.{stage_from_label_iff}
use one_dev_army.GitHub.Issue.{Issue}
use one_dev_army.GitHub.Client.{Gh}
use one_dev_army.Mvp.Orchestrator.{Orchestrator, is_processing, has_label}
use one_dev_army.Mvp.Orchestrator.Stages.{handle_sync_event}

has-done :
    (ls : List String)
    → get_stage_from_labels ls ≡ done
    → any (λ l. str_eq l "stage:done") ls ≡ true
unfolding get_stage_from_labels Stage.label
has-done [] e = cc
has-done (l ∷ ls) e = by_reading (stage_from_label l) refl e (has-done ls)
  where
    by_reading :
        (r : Stage × Bool)
        → stage_from_label l ≡ r
        → (if r.1 then r.0 else get_stage_from_labels ls) ≡ done
        → (get_stage_from_labels ls ≡ done → any (λ l. str_eq l "stage:done") ls ≡ true)
        → any (λ l. str_eq l "stage:done") (l ∷ ls) ≡ true
    by_reading (s, false) h e later = ground (arith, later)
    by_reading (s, true) h e later =
        let named : "stage:done" ≡ l =
          ((stage_from_label_iff l done).0 (h ∙ ap (λ x. (x, true)) e)).1 in
        rw (← named)

-- Whether the issue is closed on GitHub and the labels say so.
abbrev pub IsSettled : Issue → Type 0
IsSettled i = (equal_fold i.state "CLOSED" ≡ true) × (get_stage_from_labels i.labels ≡ done)

-- Whether the issue is open and has no merged pull request.
abbrev pub IsOngoing : Issue → Type 0
IsOngoing i = (equal_fold i.state "CLOSED" ≡ false) × (i.pr_merged ≡ false)

-- An event of the sync changes nothing if the worker holds the ticket, if the issue is closed and its
-- labels read as done, or if it is open and not merged.
pub handle_sync_event_quiet :
    {W : Type 0} (gh : Gh W) (i : Issue) (o : Orchestrator W)
    → (is_processing i.number o ≡ true) ⊎ (IsSettled i ⊎ IsOngoing i)
    → handle_sync_event gh i o ≡ some o
unfolding handle_sync_event has_label
handle_sync_event_quiet gh i o (inl busy) = rw busy
handle_sync_event_quiet gh i o (inr (inl (closed, reads))) = ground (arith, has-done i.labels reads)
handle_sync_event_quiet gh i o (inr (inr (opened, unmerged))) = ground arith

-- The handler panics exactly where the worker does not hold the ticket, the issue is open and its
-- pull request counts as merged but has no time.
pub handle_sync_event-panics :
    {W : Type 0} (gh : Gh W) (i : Issue) (o : Orchestrator W)
    → (handle_sync_event gh i o ≡ none) ↔ (
        (is_processing i.number o ≡ false)
        × (equal_fold i.state "CLOSED" ≡ false)
        × (i.pr_merged ≡ true)
        × (i.merged_at ≡ none))
unfolding handle_sync_event
handle_sync_event-panics gh i o =
    (λ h. ground arith, λ (busy, closed, merged, untimed). rw (busy, closed, merged, untimed) refl)
