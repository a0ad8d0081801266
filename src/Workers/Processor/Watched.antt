-- ===== src/Workers/Processor/Watched.antt =====
-- What the calls of the processor do to the number of pull requests, and to what was approved.
use Prim.Native.String.{◌++◌}
use one_dev_army.Common.{ℕ, ◌-◌, ◌≡◌, refl, ◌∙◌, Bool, true, Option, none, some, List, String}
use one_dev_army.Common.Effect.{Result, ok, err, Effect, try, ignore, pure}
use one_dev_army.GitHub.Stage as GitHubStage
use one_dev_army.GitHub.Reason.{StageChangeReason}
use one_dev_army.Pipeline.Stage.{Stage, text, code_review}
use one_dev_army.Pipeline.Run.{StageResult}
use one_dev_army.Workers.{Task}
use one_dev_army.Workers.Processor.{
  Tools, Part, Prompt, StageMetric, is_approved, extract_full_content,
}
use one_dev_army.Workers.Processor

-- The call changes neither the number of pull requests nor what was approved.
abbrev pub Keeps : {W A : Type 0} → (W → Type 0) → (W → ℕ) → Effect W A → Type 0
Keeps {W} Approved prs m = (w : W) → (prs (m w).1 ≡ prs w) × (Approved w → Approved (m w).1)

-- An answer of the model that approves makes its world an approved one.
abbrev pub Judges : {W : Type 0} → (W → Type 0) → Result (Option (List Part)) × W → Type 0
Judges Approved (ok msg, w) = is_approved (extract_full_content msg) ≡ true → Approved w
Judges Approved (err e, w) = Unit {0}

abbrev pub KeepsChange :
    {W : Type 0}
    → (W → Type 0)
    → (W → ℕ)
    → Option (ℕ → GitHubStage.Stage → StageChangeReason → Effect W Unit)
    → Type 0
KeepsChange Approved prs none = Unit {0}
KeepsChange Approved prs (some change) =
    (n : ℕ) (s : GitHubStage.Stage) (r : StageChangeReason) → Keeps Approved prs (change n s r)

abbrev pub KeepsMetric :
    {W : Type 0} → (W → Type 0) → (W → ℕ) → Option (StageMetric → Effect W Unit) → Type 0
KeepsMetric Approved prs none = Unit {0}
KeepsMetric Approved prs (some save) = (m : StageMetric) → Keeps Approved prs (save m)

-- `prs` counts the pull requests, which `create_pr` alone changes; `Approved` holds from an approval
-- of the model on.
pub record IsWatched {W : Type 0} (t : Tools W) (Approved : W → Type 0) (prs : W → ℕ) : Type 0 where
  pub branch : (b : String) → Keeps Approved prs (t.create_branch b)
  pub removal : (b : String) → Keeps Approved prs (t.remove_branch b)
  pub session : (s : String) → Keeps Approved prs (t.create_session s)
  pub message : (s p m : String) → Keeps Approved prs (t.send_message s p m)
  pub verdict : (s p m : String) (w : W) → Judges Approved (t.send_message s p m w)
  pub pull : (b s c : String) (w : W) → Approved w → Approved (t.create_pr b s c w).1
  pub comment : (n : ℕ) (s : String) → Keeps Approved prs (t.add_comment n s)
  pub change : KeepsChange Approved prs t.change_stage
  pub metric : KeepsMetric Approved prs t.save_stage_metric
  pub clock : (w : W) → (prs (t.now w).1 ≡ prs w) × (Approved w → Approved (t.now w).1)

module _ {W : Type 0} (t : Tools W) (task : Task) (Approved : W → Type 0) (prs : W → ℕ)
    (v : IsWatched t Approved prs) where
  abbrev pub Kept : W → W → Type 0
  Kept w w' = (prs w' ≡ prs w) × (Approved w → Approved w')

  pub try-Keeps :
      {A B : Type 0} (wrap : String → String) (m : Effect W A) (f : A → Effect W B)
      → Keeps Approved prs m
      → ((a : A) → Keeps Approved prs (f a))
      → Keeps Approved prs (try wrap m f)
  unfolding try
  try-Keeps {A} {B} wrap m f h k w = go (m w) (h w)
    where
      go :
          (r : Result A × W)
          → (prs r.1 ≡ prs w) × (Approved w → Approved r.1)
          → let end = try wrap (λ _. r) f w in (prs end.1 ≡ prs w) × (Approved w → Approved end.1)
      go (ok a, w') (e, p) = ((k a w').0 ∙ e, λ q. (k a w').1 (p q))
      go (err e, w') h = h

  metric-Keeps :
      (o : Option (StageMetric → Effect W Unit)) (m : StageMetric)
      → KeepsMetric Approved prs o
      → Keeps Approved prs (Processor.save_with t task o m)
  metric-Keeps none m k w = (refl, λ q. q)
  metric-Keeps (some save) m k w = k m w

  pub change-Keeps :
      (o : Option (ℕ → GitHubStage.Stage → StageChangeReason → Effect W Unit))
      (r : StageChangeReason)
      → KeepsChange Approved prs o
      → Keeps Approved prs (Processor.change_with t task o r)
  change-Keeps none m k w = (refl, λ q. q)
  change-Keeps (some change) r k w = k _ _ r w

  pub ignore-Keeps :
      {A B : Type 0} (m : Effect W A) (k : Effect W B)
      → Keeps Approved prs m
      → Keeps Approved prs k
      → Keeps Approved prs (ignore m k)
  unfolding ignore
  ignore-Keeps m k h g w = ((g (m w).1).0 ∙ (h w).0, λ q. (g (m w).1).1 ((h w).1 q))

  pub pure-Keeps : {A : Type 0} (a : A) → Keeps Approved prs (pure a)
  pure-Keeps a w = (refl, λ q. q)

  -- What a stage that succeeded has seen.
  abbrev pub Sees : Result StageResult × W → Type 0
  Sees (ok r, w) = r.success ≡ true → Approved w
  Sees (err e, w) = Unit {0}

  conclude-Keeps :
      (good : String → Bool) (id : ℕ) (s : Stage) (start : ℕ) (msg : Option (List Part))
      → Keeps Approved prs (Processor.conclude t task good id s start msg)
  unfolding Processor.conclude Processor.record_metric
  conclude-Keeps good id s start msg w =
      let saves = metric-Keeps t.save_stage_metric in
      let (e, k) = v.clock w in
      let (e', k') =
        ignore-Keeps
          (Processor.record_metric t task id s (Processor.llm_for_stage t task s)
            ((t.now w).0 - start))
          _ (saves _ v.metric)
          (pure-Keeps {A = StageResult} (record {
            stage = s;
            success = good (extract_full_content msg);
            output = extract_full_content msg;
          }))
          (t.now w).1 in
      (e' ∙ e, λ q. k' (k q))

  pub ask-Keeps :
      (prompt : Prompt) (good : String → Bool) (id : ℕ) (s : Stage) (context : String)
      → Keeps Approved prs (Processor.ask t task prompt good id s context)
  unfolding Processor.ask
  ask-Keeps prompt good id s context w =
      let (e, k) = v.clock w in
      let (e', k') =
        try-Keeps _ _ _ (v.session _)
          (λ a. try-Keeps _ _ _ (v.message a _ _) (conclude-Keeps good id s (t.now w).0))
          (t.now w).1 in
      (e' ∙ e, λ q. k' (k q))

  conclude-Sees :
      (id : ℕ) (s : Stage) (start : ℕ) (msg : Option (List Part)) (w : W)
      → (is_approved (extract_full_content msg) ≡ true → Approved w)
      → Sees (Processor.conclude t task is_approved id s start msg w)
  unfolding Processor.conclude ignore Processor.record_metric
  conclude-Sees id s start msg w h good =
      (metric-Keeps t.save_stage_metric _ v.metric (t.now w).1).1 ((v.clock w).1 (h good))

  ask-Sees :
      (prompt : Prompt) (id : ℕ) (s : Stage) (context : String) (w : W)
      → Sees (Processor.ask t task prompt is_approved id s context w)
  unfolding Processor.ask try
  ask-Sees prompt id s context w = in_session (t.create_session _ (t.now w).1)
    where
      answered :
          (r : Result (Option (List Part)) × W)
          → Judges Approved r
          → Sees (
              try
                (λ e. "sending message for " ++ text s ++ ": " ++ e)
                (λ _. r)
                (Processor.conclude t task is_approved id s (t.now w).0)
                w)
      answered (ok msg, w') h = conclude-Sees id s (t.now w).0 msg w' h
      answered (err e, w') h = tt

      in_session :
          (r : Result String × W)
          → Sees (
              try
                (λ e. "creating session for " ++ text s ++ ": " ++ e)
                (λ _. r)
                (λ session.
                  try
                    (λ e. "sending message for " ++ text s ++ ": " ++ e)
                    (t.send_message session
                      (t.fill prompt task.issue_number task.title task.body context)
                      (Processor.llm_for_stage t task s))
                    (Processor.conclude t task is_approved id s (t.now w).0))
                w)
      in_session (ok a, w') = answered (t.send_message a _ _ w') (v.verdict a _ _ w')
      in_session (err e, w') = tt

  pub execute-Keeps :
      (id : ℕ) (s : Stage) (context : String)
      → Keeps Approved prs (Processor.execute t task id s context)
  unfolding Processor.execute
  execute-Keeps id Stage.analysis context w =
      ask-Keeps Prompt.worker_analysis (λ _. true) id Stage.analysis context w
  execute-Keeps id Stage.coding context w =
      ask-Keeps Prompt.worker_coding (λ _. true) id Stage.coding context w
  execute-Keeps id code_review context w =
      ask-Keeps Prompt.worker_code_review is_approved id code_review context w
  execute-Keeps id s context w = (refl, λ q. q)

  pub execute-Sees :
      (id : ℕ) (s : Stage) (context : String) (w : W)
      → s ≡ code_review
      → Sees (Processor.execute t task id s context w)
  unfolding Processor.execute
  execute-Sees id code_review context w e = ask-Sees _ id code_review context w
  execute-Sees id s context w e = cc
