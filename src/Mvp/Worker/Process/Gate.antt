-- ===== src/Mvp/Worker/Process/Gate.antt =====
-- Without the yolo mode, nothing is merged that the user has not approved.
use one_dev_army.Common.{ℕ, zero, suc, ◌≡◌, refl, false, String}
use one_dev_army.Common.Effect.{Result, ok, err}
use one_dev_army.GitHub.Issue.{Issue}
use one_dev_army.Mvp.Orchestrator.{Action, approve, decline, UserDecision}
use one_dev_army.Mvp.Worker.{
  cancelled, Outcome, value, fault, waiting, Job, Tools, Run, ◌>>=◌, call,
}
use one_dev_army.Mvp.Worker.Steps.{finally}
use one_dev_army.Mvp.Worker.Process.{Config, act, decide, approval_loop, phases, clean_up, process}
use one_dev_army.Mvp.Worker.Process.Frames.{Any, Holds, >>=-Holds}

-- Any fault is allowed, and no value.
abbrev pub IsRefused : {W A : Type 0} → Outcome A × Job W → Type 0
IsRefused r = Holds (λ _ _. ⊥) (λ _ _. Unit) r

-- The user approves of nothing.
abbrev pub Declines : {W : Type 0} → Tools W → Type 0
Declines {W} tools =
    (w : W) (d : UserDecision) → (tools.next_decision w).0 ≡ ok d → d.action ≡ decline

module _ {W A : Type 0} where
  anyhow : (r : Outcome A × Job W) → Holds Any (λ _ _. Unit) r
  anyhow (value a, j) = tt
  anyhow (fault e, j) = tt
  anyhow (waiting, j) = tt

  finally-IsRefused :
      (m : Run W A) (c : Run W Unit) (j : Job W) → IsRefused (m j) → IsRefused (finally m c j)
  unfolding finally
  finally-IsRefused m c j = go (m j)
    where
      go : (r : Outcome A × Job W) → IsRefused r → IsRefused (finally (λ _. r) c j)
      go (value a, j') h = h
      go (fault e, j') h = tt
      go (waiting, j') h = tt

  past :
      {B : Type 0} (m : Run W A) (f : A → Run W B) (j : Job W)
      → ((a : A) (j' : Job W) → IsRefused (f a j'))
      → IsRefused ((m >>= f) j)
  past m f j k = >>=-Holds (λ _ _. Unit) Any (λ _ _. ⊥) m f j (anyhow (m j)) (λ a j' _. k a j')

module _ {W : Type 0} (tools : Tools W) (cfg : Config) (i : Issue) (manual : cfg.yolo_mode ≡ false)
    (declines : Declines tools) where
  decide-Declines :
      (j : Job W) → Holds (λ d _. d.action ≡ decline) (λ _ _. Unit) (decide tools cfg i j)
  unfolding decide call
  decide-Declines j =
      rw manual (go (tools.next_decision j.orchestrator.remote) (declines j.orchestrator.remote))
    where
      go :
          (r : Result UserDecision × W)
          → ((d : UserDecision) → r.0 ≡ ok d → d.action ≡ decline)
          → Holds (λ d _. d.action ≡ decline) (λ _ _. Unit) (call cancelled (λ _. r) j)
      go (ok d, w) h = h d refl
      go (err e, w) h = tt

  act-IsRefused :
      (a : Action) (m n : Run W Unit) (j : Job W)
      → a ≡ decline
      → IsRefused (n j)
      → IsRefused (act tools cfg i a m n j)
  act-IsRefused approve m n j e h = cc
  act-IsRefused decline m n j e h = h

  approval_loop-IsRefused :
      (rounds : ℕ) (url : String) (j : Job W) → IsRefused (approval_loop tools cfg i rounds url j)
  unfolding approval_loop
  approval_loop-IsRefused zero url j = tt
  approval_loop-IsRefused (suc rounds) url j =
      let later = approval_loop-IsRefused rounds url in
      past _ _ j λ _ j1. past _ _ j1 λ _ j2.
        >>=-Holds (λ _ _. Unit) (λ d _. d.action ≡ decline) (λ _ _. ⊥) _ _ j2 (decide-Declines j2)
          λ d j3 e. act-IsRefused d.action _ _ j3 e (past _ _ j3 λ _ j4. later j4)

  -- Without the yolo mode and with a user who approves of nothing, `Process` never returns nil:
  -- whatever is stored of the task, and however the checks and the reviews went.
  pub process-IsRefused :
      (polls rounds : ℕ) (j : Job W) → IsRefused (process tools cfg i polls rounds j)
  unfolding process phases
  process-IsRefused polls rounds j = past _ _ j λ from j1. past _ _ j1 λ _ j2. past _ _ j2 λ _ j3.
      past _ _ j3 λ _ j4. past _ _ j4 λ _ j5.
        finally-IsRefused (phases tools cfg i polls rounds from) (clean_up tools cfg i) j5 (
          past _ _ j5 λ _ j6. past _ _ j6 λ _ j7. past _ _ j7 λ _ j8.
            past _ _ j8
              λ _ j9. past _ _ j9 λ _ k. past _ _ k λ _ k1. approval_loop-IsRefused rounds _ k1)
