-- ===== src/Common/Exec/Halts.antt =====
-- Actions that return or throw from every state, with a rule for each way to build one.
use mathlib.Core.Path.{refl}
use mathlib.Core.Logic.{◌≢◌}
use mathlib.Core.Bool.{Bool, true, false}
use file_vault.Common.Errors.{ErrorCode, Result, ok, err, out_of_fuel, require}
use file_vault.Common.Checked
use file_vault.Common.Tests.{if◌then◌else◌}
use file_vault.Common.Exec.{Exec, pure, throw, lift, gets, modify, check, continue, ◌>>=◌}

-- The function returns or throws.
pub record Finishes {A : Type 0} (result : Result A) : Type 0 where
  pub at : result ≢ out_of_fuel

pub record Halts {S A : Type 0} (m : Exec S A) : Type 0 where
  pub at : (s : S) → (m s).0 ≢ out_of_fuel

module _ {A : Type 0} where
  pub Finishes-ok : (a : A) → Finishes (ok a)
  Finishes-ok a = record { at = λ e. cc }

  pub Finishes-err : (code : ErrorCode) → Finishes {A = A} (err code)
  Finishes-err code = record { at = λ e. cc }

  pub Finishes-if :
      (b : Bool) (first second : Result A)
      → Finishes first
      → Finishes second
      → Finishes (if b then first else second)
  Finishes-if true first second f g = f
  Finishes-if false first second f g = g

pub Finishes-require : (test : Bool) (code : ErrorCode) → Finishes (require test code)
Finishes-require true code = Finishes-ok tt
Finishes-require false code = Finishes-err code

pub Finishes-bind :
    {A B : Type 0} (first : Result A) (rest : A → Result B)
    → Finishes first
    → ((a : A) → Finishes (rest a))
    → Finishes (Checked.◌>>=◌ first rest)
Finishes-bind (ok a) rest f g = g a
Finishes-bind (err code) rest f g = Finishes-err code
Finishes-bind out_of_fuel rest f g = record { at = λ e. f.at refl }

module _ {S A : Type 0} where
  pub Halts-pure : (a : A) → Halts {S = S} (pure a)
  unfolding pure
  Halts-pure a = record { at = λ s e. cc }

  pub Halts-throw : (code : ErrorCode) → Halts {S = S} (throw {A = A} code)
  unfolding throw
  Halts-throw code = record { at = λ s e. cc }

  pub Halts-lift : (result : Result A) → Finishes result → Halts {S = S} (lift result)
  unfolding lift
  Halts-lift result f = record { at = λ s. f.at }

  pub Halts-gets : (read : S → A) → Halts (gets read)
  unfolding gets
  Halts-gets read = record { at = λ s e. cc }

module _ {S : Type 0} where
  pub Halts-modify : (change : S → S) → Halts (modify change)
  unfolding modify
  Halts-modify change = record { at = λ s e. cc }

  pub Halts-check : (test : Bool) (code : ErrorCode) → Halts {S = S} (check test code)
  unfolding check
  Halts-check true code = record { at = λ s e. cc }
  Halts-check false code = record { at = λ s e. cc }

module _ {S A B : Type 0} where
  pub Halts-bind :
      (m : Exec S A) (f : A → Exec S B) → Halts m → ((a : A) → Halts (f a)) → Halts (m >>= f)
  unfolding ◌>>=◌
  Halts-bind m f hm hf = record { at = λ s. go (m s).0 (m s).1 (hm.at s) }
    where
      go : (r : Result A) (u : S) → r ≢ out_of_fuel → (continue r f u).0 ≢ out_of_fuel
      go (ok a) u h = (hf a).at u
      go (err code) u h = λ e. cc
      go out_of_fuel u h = absurd (h refl)

pub ruleset halts_rules = (
  Finishes-ok, Finishes-err, Finishes-if, Finishes-require, Finishes-bind, Halts-pure, Halts-throw,
  Halts-lift, Halts-gets, Halts-modify, Halts-check, Halts-bind,
)
