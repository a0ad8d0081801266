-- ===== src/Mvp/Worker/Process/Frames.antt =====
-- What a step promises of its value and of its fault, along the frames that steps are built from.
use one_dev_army.Common.{ℕ, ◌≡◌, refl, Bool, true, false, String, if◌then◌else◌, ◌⊎◌, inl, inr}
use one_dev_army.Common.Effect.{Result, ok, err, Effect}
use one_dev_army.Mvp.Worker.{
  failed, Fault, cancelled, Outcome, value, fault, waiting, Job, Run, ◌>>=◌, call, call_logged,
  handle, attempt,
}
use one_dev_army.Mvp.Worker.Steps.{stored_response}

-- A step has what it promises: `P` of a value, `Q` of a fault.
abbrev pub Holds :
    {W A : Type 0} → (A → Job W → Type 0) → (Fault → Job W → Type 0) → Outcome A × Job W → Type 0
Holds P Q (value a, j) = P a j
Holds P Q (fault e, j) = Q e j
Holds P Q (waiting, j) = Unit

abbrev pub Any : {W A : Type 0} → A → Job W → Type 0
Any _ _ = Unit

abbrev pub IsCancelled : Fault → Type 0
IsCancelled (cancelled _) = Unit
IsCancelled _ = ⊥

-- A fault has failed the task, unless it is the context's.
abbrev pub Fails : {W : Type 0} → Fault → Job W → Type 0
Fails e j = (j.status ≡ failed) ⊎ IsCancelled e

module _ {W : Type 0} (Q : Fault → Job W → Type 0) {A B : Type 0} (P : A → Job W → Type 0)
    (R : B → Job W → Type 0) where
  pub >>=-Holds :
      (m : Run W A) (f : A → Run W B) (j : Job W)
      → Holds P Q (m j)
      → ((a : A) (j' : Job W) → P a j' → Holds R Q (f a j'))
      → Holds R Q ((m >>= f) j)
  unfolding ◌>>=◌
  >>=-Holds m f j h k = go (m j) h
    where
      go : (r : Outcome A × Job W) → Holds P Q r → Holds R Q (((λ _. r) >>= f) j)
      go (value a, j') p = k a j' p
      go (fault e, j') q = q
      go (waiting, j') q = tt

module _ {W A : Type 0} where
  pub attempt-Fails :
      (prefix : String) (m : Run W A) (j : Job W) → Holds Any Fails (attempt prefix m j)
  unfolding attempt
  attempt-Fails prefix m j = go (m j)
    where
      go : (r : Outcome A × Job W) → Holds Any Fails (attempt prefix (λ _. r) j)
      go (value a, j') = tt
      go (fault e, j') = inl refl
      go (waiting, j') = tt

  -- Behind a step that fails the task if it fails.
  pub chain :
      {B : Type 0} (R : B → Job W → Type 0) (m : Run W A) (f : A → Run W B) (j : Job W)
      → Holds Any Fails (m j)
      → ((a : A) (j' : Job W) → Holds R Fails (f a j'))
      → Holds R Fails ((m >>= f) j)
  chain R m f j h k = >>=-Holds Fails Any R m f j h (λ a j' _. k a j')

  pub if-Holds :
      (R : A → Job W → Type 0) (b : Bool) (m n : Run W A) (j : Job W)
      → Holds R Fails (m j)
      → Holds R Fails (n j)
      → Holds R Fails ((if b then m else n) j)
  if-Holds R true m n j h k = h
  if-Holds R false m n j h k = k

pub stored-Fails :
    {W : Type 0} (n : ℕ) (name : String) (j : Job W) → Holds Any Fails (stored_response n name j)
unfolding stored_response
stored-Fails n name j = tt

module _ {W : Type 0} where
  pub decision-Fails :
      {A : Type 0} (m : Effect W A) (j : Job W) → Holds Any Fails (call cancelled m j)
  unfolding call
  decision-Fails {A} m j = go (m j.orchestrator.remote)
    where
      go : (r : Result A × W) → Holds Any Fails (call cancelled (λ _. r) j)
      go (ok a, w) = tt
      go (err e, w) = inr tt

  pub logged-Fails : {A : Type 0} (m : Effect W A) (j : Job W) → Holds Any Fails (call_logged m j)
  unfolding call_logged
  logged-Fails m j = tt

  pub handle-Holds :
      {A B : Type 0} (R : B → Job W → Type 0) (m : Run W A) (f : A → Run W B) (g : Fault → Run W B)
      (j : Job W)
      → ((a : A) (j' : Job W) → Holds R Fails (f a j'))
      → ((e : Fault) (j' : Job W) → Holds R Fails (g e j'))
      → Holds R Fails (handle m f g j)
  unfolding handle
  handle-Holds {A} R m f g j h k = go (m j)
    where
      go : (r : Outcome A × Job W) → Holds R Fails (handle (λ _. r) f g j)
      go (value a, j') = h a j'
      go (fault e, j') = k e j'
      go (waiting, j') = tt
