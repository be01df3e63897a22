-- ===== src/Common/Exec.antt =====
-- Code that changes an object and may throw: what was written before a throw stays written, so
-- the state comes back beside the error too. `Exec` is for methods, `Result` for pure functions.
pub mod Halts
pub mod Rules
use mathlib.Core.Path.{◌≡◌, refl}
use mathlib.Core.Bool.{Bool, true, false}
use file_vault.Common.Errors.{ErrorCode, Result, ok, err, out_of_fuel}

abbrev pub Exec : Type 0 → Type 0 → Type 0
Exec S A = S → Result A × S

module _ {S : Type 0} where
  unfoldable pub pure : {A : Type 0} → A → Exec S A
  pure a s = (ok a, s)

  unfoldable pub throw : {A : Type 0} → ErrorCode → Exec S A
  throw e s = (err e, s)

  unfoldable pub lift : {A : Type 0} → Result A → Exec S A
  lift r s = (r, s)

  unfoldable pub gets : {A : Type 0} → (S → A) → Exec S A
  gets f s = (ok (f s), s)

  unfoldable pub modify : (S → S) → Exec S (Unit {0})
  modify f s = (ok tt, f s)

  -- throws `e` unless the test holds
  unfoldable pub check : Bool → ErrorCode → Exec S (Unit {0})
  check true e s = (ok tt, s)
  check false e s = (err e, s)

  abbrev pub continue : {A B : Type 0} → Result A → (A → Exec S B) → Exec S B
  continue (ok a) f s = f a s
  continue (err e) f s = (err e, s)
  continue out_of_fuel f s = (out_of_fuel, s)

  infixl 5 ◌>>=◌ ◌>>◌
  -- opening this opens the actions above too
  unfoldable pub ◌>>=◌ : {A B : Type 0} → Exec S A → (A → Exec S B) → Exec S B
  unfolding pure throw lift gets modify check
  ◌>>=◌ m f s = continue (m s).0 f (m s).1

  abbrev pub ◌>>◌ : {B : Type 0} → Exec S (Unit {0}) → Exec S B → Exec S B
  m >> n = m >>= λ _. n

  -- Two blocks with one first step agree if their rests do.
  pub continue_congr :
      {A B : Type 0} (r : Result A) (f g : A → Exec S B) (s : S)
      → ((a : A) → f a s ≡ g a s)
      → continue r f s ≡ continue r g s
  continue_congr (ok a) f g s h = h a
  continue_congr (err e) f g s h = refl
  continue_congr out_of_fuel f g s h = refl

  -- A block that returned went through its first step.
  pub bind-eq-ok :
      {A B : Type 0} (m : Exec S A) (f : A → Exec S B) (s : S) (t : S) (b : B)
      → (m >>= f) s ≡ (ok b, t)
      → (a : A) × (u : S) × (m s ≡ (ok a, u)) × (f a u ≡ (ok b, t))
  unfolding ◌>>=◌
  bind-eq-ok {A} {B} m f s t b h = go (m s) refl h
    where
      go :
          (r : Result A × S)
          → m s ≡ r
          → continue r.0 f r.1 ≡ (ok b, t)
          → (a : A) × (u : S) × (m s ≡ (ok a, u)) × (f a u ≡ (ok b, t))
      go (ok a, u) e k = (a, u, e, k)
      go (err x, u) e k = cc
      go (out_of_fuel, u) e k = cc
