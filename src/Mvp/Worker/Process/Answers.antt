-- ===== src/Mvp/Worker/Process/Answers.antt =====
-- Steps that are never cut off, along the frames that they are built from.
use one_dev_army.Common.{ℕ, Bool, true, false, String, if◌then◌else◌, arith}
use one_dev_army.Common.Effect.{Result, ok, err, Effect}
use one_dev_army.GitHub.Issue.{Issue}
use one_dev_army.Mvp.Worker.{
  Fault, Outcome, value, fault, waiting, Job, Tools, Run, ◌>>=◌, call, call_logged, update, attempt,
  handle,
}
use one_dev_army.Mvp.Worker.Steps.{
  set_session, insert, finish, finally, on_fault, prefixed, in_session, llm_step, plan_for,
  ensure_commit, implement, handle_pipeline_failure,
}

-- A step that is not cut off.
abbrev pub Answers : {W A : Type 0} → Outcome A × Job W → Type 0
Answers (value a, j) = Unit
Answers (fault e, j) = Unit
Answers (waiting, j) = ⊥

abbrev pub IsFault : {W A : Type 0} → Outcome A × Job W → Type 0
IsFault (value a, j) = ⊥
IsFault (fault e, j) = Unit
IsFault (waiting, j) = ⊥

module _ {W A : Type 0} where
  pub bind-Answers :
      {B : Type 0} (m : Run W A) (f : A → Run W B) (j : Job W)
      → Answers (m j)
      → ((a : A) (j' : Job W) → Answers (f a j'))
      → Answers ((m >>= f) j)
  unfolding ◌>>=◌
  bind-Answers {B} m f j h k = go (m j) h
    where
      go : (r : Outcome A × Job W) → Answers r → Answers (((λ _. r) >>= f) j)
      go (value a, j') h = k a j'
      go (fault e, j') h = tt
      go (waiting, j') h = h

  pub bind-IsFault :
      {B : Type 0} (m : Run W A) (f : A → Run W B) (j : Job W)
      → IsFault (m j)
      → IsFault ((m >>= f) j)
  unfolding ◌>>=◌
  bind-IsFault {B} m f j = go (m j)
    where
      go : (r : Outcome A × Job W) → IsFault r → IsFault (((λ _. r) >>= f) j)
      go (value a, j') h = absurd h
      go (fault e, j') h = tt
      go (waiting, j') h = h

  pub behind-IsFault :
      {B : Type 0} (m : Run W A) (f : A → Run W B) (j : Job W)
      → Answers (m j)
      → ((a : A) (j' : Job W) → IsFault (f a j'))
      → IsFault ((m >>= f) j)
  unfolding ◌>>=◌
  behind-IsFault {B} m f j h k = go (m j) h
    where
      go : (r : Outcome A × Job W) → Answers r → IsFault (((λ _. r) >>= f) j)
      go (value a, j') h = k a j'
      go (fault e, j') h = tt
      go (waiting, j') h = h

  pub IsFault-Answers : (r : Outcome A × Job W) → IsFault r → Answers r
  IsFault-Answers (value a, j) h = tt
  IsFault-Answers (fault e, j) h = tt
  IsFault-Answers (waiting, j) h = h

  pub attempt-Answers :
      (prefix : String) (m : Run W A) (j : Job W) → Answers (m j) → Answers (attempt prefix m j)
  unfolding attempt
  attempt-Answers prefix m j = go (m j)
    where
      go : (r : Outcome A × Job W) → Answers r → Answers (attempt prefix (λ _. r) j)
      go (value a, j') h = tt
      go (fault e, j') h = tt
      go (waiting, j') h = h

  pub call-Answers : (kind : String → Fault) (m : Effect W A) (j : Job W) → Answers (call kind m j)
  unfolding call
  call-Answers kind m j = go (m j.orchestrator.remote)
    where
      go : (r : Result A × W) → Answers (call kind (λ _. r) j)
      go (ok a, w) = tt
      go (err e, w) = tt

  pub prefixed-Answers :
      (prefix : String) (m : Run W A) (j : Job W) → Answers (m j) → Answers (prefixed prefix m j)
  unfolding prefixed
  prefixed-Answers prefix m j = go (m j)
    where
      go : (r : Outcome A × Job W) → Answers r → Answers (prefixed prefix (λ _. r) j)
      go (value a, j') h = tt
      go (fault e, j') h = tt
      go (waiting, j') h = h

  pub on_fault-Answers :
      (m : Run W A) (g : Fault → Run W Unit) (j : Job W) → Answers (m j) → Answers (on_fault m g j)
  unfolding on_fault
  on_fault-Answers m g j = go (m j)
    where
      go : (r : Outcome A × Job W) → Answers r → Answers (on_fault (λ _. r) g j)
      go (value a, j') h = tt
      go (fault e, j') h = tt
      go (waiting, j') h = h

  pub finally-Answers :
      (m : Run W A) (c : Run W Unit) (j : Job W) → Answers (m j) → Answers (finally m c j)
  unfolding finally
  finally-Answers m c j = go (m j)
    where
      go : (r : Outcome A × Job W) → Answers r → Answers (finally (λ _. r) c j)
      go (value a, j') h = tt
      go (fault e, j') h = tt
      go (waiting, j') h = h

  pub if-Answers :
      (b : Bool) (m n : Run W A) (j : Job W)
      → Answers (m j)
      → Answers (n j)
      → Answers ((if b then m else n) j)
  if-Answers true m n j h k = h
  if-Answers false m n j h k = k

  pub handle-Answers :
      {B : Type 0} (m : Run W A) (f : A → Run W B) (g : Fault → Run W B) (j : Job W)
      → Answers (m j)
      → ((a : A) (j' : Job W) → Answers (f a j'))
      → ((e : Fault) (j' : Job W) → Answers (g e j'))
      → Answers (handle m f g j)
  unfolding handle
  handle-Answers {B} m f g j h k l = go (m j) h
    where
      go : (r : Outcome A × Job W) → Answers r → Answers (handle (λ _. r) f g j)
      go (value a, j') h = k a j'
      go (fault e, j') h = l e j'
      go (waiting, j') h = h

module _ {W : Type 0} (tools : Tools W) where
  pub insert-Answers :
      (n : ℕ) (name prompt session llm : String) (j : Job W)
      → Answers (insert n name prompt session llm j)
  unfolding insert
  insert-Answers n name prompt session llm j = ground arith

  pub finish-Answers : (id : ℕ) (response : String) (j : Job W) → Answers (finish id response j)
  unfolding finish
  finish-Answers id response j = tt

  pub set_session-Answers : (id : String) (j : Job W) → Answers (set_session id j)
  unfolding set_session
  set_session-Answers id j = tt

  pub in_session-Answers :
      {A : Type 0} (n : ℕ) (name prompt llm prefix : String) (exchange : String → Effect W A)
      (text : A → String) (j : Job W)
      → Answers (in_session tools n name prompt llm prefix exchange text j)
  unfolding in_session
  in_session-Answers n name prompt llm prefix exchange text j =
      bind-Answers _ _ j (call-Answers _ _ j) λ s j1. finally-Answers _ _ j1 (
        bind-Answers _ _ j1 (set_session-Answers _ j1) λ _ j2.
          bind-Answers _ _ j2 (insert-Answers _ _ _ _ _ j2) λ id j3.
            bind-Answers _ _ j3
              (prefixed-Answers _ _ j3 (on_fault-Answers _ _ j3 (call-Answers _ _ j3)))
              λ a j4. bind-Answers _ _ j4 (finish-Answers _ _ j4) λ _ j5. tt)

  pub llm_step-Answers :
      (n : ℕ) (name prompt llm : String) (j : Job W) → Answers (llm_step tools n name prompt llm j)
  unfolding llm_step
  llm_step-Answers n name prompt llm j =
      in_session-Answers n name prompt llm "sending message: " _ _ j

  pub plan_for-Answers : (n : ℕ) (plan : String) (j : Job W) → Answers (plan_for tools n plan j)
  unfolding plan_for
  plan_for-Answers n plan j = tt

  pub update-Answers : (f : W → W) (j : Job W) → Answers (update f j)
  unfolding update
  update-Answers f j = tt

  pub logged-Answers : {A : Type 0} (m : Effect W A) (j : Job W) → Answers (call_logged m j)
  unfolding call_logged
  logged-Answers m j = tt

  pub ensure_commit-Answers : (i : Issue) (j : Job W) → Answers (ensure_commit tools i j)
  unfolding ensure_commit
  ensure_commit-Answers i j =
      bind-Answers _ _ j (logged-Answers _ j) λ _ j1.
        handle-Answers _ _ _ j1 (call-Answers _ _ j1) (λ _ j2. tt) λ _ j2. logged-Answers _ j2

  pub implement-Answers :
      (i : Issue) (plan llm : String) (j : Job W) → Answers (implement tools i plan llm j)
  unfolding implement
  implement-Answers i plan llm j =
      bind-Answers _ _ j (plan_for-Answers _ _ j)
        λ p j1. bind-Answers _ _ j1 (llm_step-Answers _ _ _ _ j1) λ _ j2. ensure_commit-Answers i j2

  pub failure-Answers :
      (n : ℕ) (logs : String) (j : Job W) → Answers (handle_pipeline_failure tools n logs j)
  unfolding handle_pipeline_failure call_logged
  failure-Answers n logs j =
      bind-Answers _ _ j (update-Answers _ j) λ _ j1. bind-Answers _ _ j1 tt λ _ j2. tt
