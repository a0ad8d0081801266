-- ===== src/Common/Effect.antt =====
-- Calls that act on a world and may fail: Go's `(value, error)` results with the effects explicit.
use Prim.Native.String.{String}
use mathlib.Core.Path.{◌≡◌, refl, subst}
use mathlib.Core.Logic.{◌⊎◌, inl, inr}

pub data Result (A : Type 0) : Type 0 where
  ok : A → Result A
  err : String → Result A

abbrev pub Effect : Type 0 → Type 0 → Type 0
Effect W A = W → Result A × W

-- `if err != nil { return wrap(err) }`: an error is wrapped and ends the function, and the effects
-- of the call stay.
unfoldable pub try :
    {W A B : Type 0} → (String → String) → Effect W A → (A → Effect W B) → Effect W B
try wrap m f w = let (r, w') = m w in elim r [ ok a ↦ f a w' | err e ↦ (err (wrap e), w') ]

-- A call whose error is logged and otherwise ignored.
unfoldable pub ignore : {W A B : Type 0} → Effect W A → Effect W B → Effect W B
ignore m f w = f (m w).1

abbrev pub pure : {W A : Type 0} → A → Effect W A
pure a w = (ok a, w)

abbrev pub fail : {W A : Type 0} → String → Effect W A
fail e w = (err e, w)

pub Result-cases :
    {A : Type 0} (r : Result A) → ((a : A) × (r ≡ ok a)) ⊎ ((e : String) × (r ≡ err e))
Result-cases (ok a) = inl (a, refl)
Result-cases (err e) = inr (e, refl)

-- A call that succeeds has a result for which `P` holds.
abbrev pub Ensures : {W A : Type 0} → (A → Type 0) → Result A × W → Type 0
Ensures P (ok a, w) = P a
Ensures P (err e, w) = Unit

module _ {W A : Type 0} where
  pub Ensures-self : (r : Result A × W) → Ensures (λ a. r.0 ≡ ok a) r
  Ensures-self (ok a, w) = refl
  Ensures-self (err e, w) = tt

  pub Ensures-any : (r : Result A × W) → Ensures (λ _. Unit {0}) r
  Ensures-any (ok a, w) = tt
  Ensures-any (err e, w) = tt

  pub Ensures-eq :
      (P : A → Type 0) (r : Result A × W) {a : A} {w : W} → Ensures P r → r ≡ (ok a, w) → P a
  Ensures-eq P r h e = subst (λ q. Ensures P q) e h

  module _ {B : Type 0} (wrap : String → String) (m : Effect W A) (f : A → Effect W B) (w : W) where
    pub try-Ensures :
        (Q : A → Type 0) (P : B → Type 0)
        → Ensures Q (m w)
        → ((a : A) (w' : W) → Q a → Ensures P (f a w'))
        → Ensures P (try wrap m f w)
    unfolding try
    try-Ensures Q P h k = go (m w) h
      where
        go : (r : Result A × W) → Ensures Q r → Ensures P (try wrap (λ _. r) f w)
        go (ok a, w') q = k a w' q
        go (err e, w') q = tt
