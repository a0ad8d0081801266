-- ===== src/Mvp/Orchestrator/Stages/Remote.antt =====
-- internal/mvp/orchestrator.go, internal/github/issues.go: what `ChangeStage` leaves alone on GitHub.
use one_dev_army.Common.{ℕ, String, if-intro, is_empty}
use one_dev_army.Common.Effect.{Result, ok, err, Effect, try, ignore}
use one_dev_army.GitHub.Stage.{Stage}
use one_dev_army.GitHub.Stage as GitHubStage
use one_dev_army.GitHub.Reason.{StageChangeReason}
use one_dev_army.GitHub.Issue.{Issue}
use one_dev_army.GitHub.Client.{Gh, set_stage_label, attach, is_done, get_stage_labels_to_remove}
use one_dev_army.Mvp.Orchestrator.{Orchestrator}
use one_dev_army.Mvp.Orchestrator.Stages.{
  change_stage, settle, commit, update_cache, announce, check_closable, record_change,
}

-- A call keeps what holds of the remote world.
abbrev pub Keeps : {W A : Type 0} → (W → Type 0) → Effect W A → Type 0
Keeps {W} P m = (w : W) → P w → P (m w).1

-- None of the calls that change labels touches it.
pub record IsLabelFree {W : Type 0} (gh : Gh W) (P : W → Type 0) : Type 0 where
  pub viewed : (n : ℕ) → Keeps P (gh.view_issue n)
  pub removed : (n : ℕ) (l : String) → Keeps P (gh.remove_label n l)
  pub added : (n : ℕ) (l : String) → Keeps P (gh.add_label n l)
  pub closed : (n : ℕ) → Keeps P (gh.close_issue n)

try-Keeps :
    {W A B : Type 0} (P : W → Type 0) (wrap : String → String) (m : Effect W A) (f : A → Effect W B)
    → Keeps P m
    → ((a : A) → Keeps P (f a))
    → Keeps P (try wrap m f)
unfolding try
try-Keeps {W} {A} P wrap m f h k w p = go (m w) (h w p)
  where
    go : (r : Result A × W) → P r.1 → P (try wrap (λ _. r) f w).1
    go (ok a, w1) q = k a w1 q
    go (err e, w1) q = q

module _ {W : Type 0} (gh : Gh W) (P : W → Type 0) (v : IsLabelFree gh P) where
  attach-Keeps : (n : ℕ) (s : Stage) (i : Issue) → Keeps P (attach gh n s i)
  unfolding attach
  attach-Keeps n s i =
      try-Keeps P _ (gh.add_label n (GitHubStage.label s)) _ (v.added n (GitHubStage.label s))
        (λ _ w p.
          if-intro (λ (m : Effect W Issue). P (m w).1) (is_done s)
            (try-Keeps P _ (gh.close_issue n) _ (v.closed n) (λ _ w1 q. q) w p) p)

  set_stage_label-Keeps : (n : ℕ) (s : Stage) → Keeps P (set_stage_label gh n s)
  unfolding set_stage_label ignore
  set_stage_label-Keeps n s = try-Keeps P _ (gh.view_issue n) _ (v.viewed n) (λ i w p.
      if-intro (λ (m : Effect W Issue). P (m w).1) (is_empty (get_stage_labels_to_remove i.labels))
        (attach-Keeps n s i w p) (attach-Keeps n s i _ (v.removed n _ w p)))

  settle-remote :
      (n : ℕ) (s : Stage) (reason : StageChangeReason) (o : Orchestrator W) (r : Result Issue × W)
      → P r.1
      → P (settle n s reason o r).1.remote
  unfolding settle commit update_cache announce check_closable record_change
  settle-remote n s reason o (ok i, w) p = p
  settle-remote n s reason o (err e, w) p = p

  -- What the label calls keep, a stage change keeps, whether or not it succeeds.
  pub change_stage-remote :
      (n : ℕ) (s : Stage) (reason : StageChangeReason) (o : Orchestrator W)
      → P o.remote
      → P (change_stage gh n s reason o).1.remote
  unfolding change_stage
  change_stage-remote n s reason o p =
      if-intro (λ (r : Result (Unit {0}) × Orchestrator W). P r.1.remote) o.has_gh
        (settle-remote n s reason o (set_stage_label gh n s o.remote)
          (set_stage_label-Keeps n s o.remote p))
        p
