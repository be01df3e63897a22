-- ===== src/Common/Exec/Rules.antt =====
-- Statements about actions, with a rule for each way to build one.
use mathlib.Core.Path.{◌≡◌, refl, ap, subst}
use mathlib.Core.Bool.{Bool, true, false}
use file_vault.Common.Errors.{ErrorCode, Result, ok, err, out_of_fuel}
use file_vault.Common.Exec.{
  Exec, pure, throw, lift, gets, modify, check, continue, ◌>>=◌, bind-eq-ok,
}

-- However the action ends, it leaves a state of which `P` holds.
pub record Keeps {S A : Type 0} (P : S → Type 0) (m : Exec S A) : Type 0 where
  pub at : (s : S) → P s → P (m s).1

-- If the action returns, `Q` holds of the value and of the state that it leaves.
pub record Ensures {S A : Type 0} (P : S → Type 0) (m : Exec S A) (Q : A → S → Type 0)
    : Type 0 where
  pub at : (s t : S) (a : A) → P s → m s ≡ (ok a, t) → Q a t

-- The action returns, and `Q` holds then.
pub record Succeeds {S A : Type 0} (P : S → Type 0) (m : Exec S A) (Q : A → S → Type 0)
    : Type 0 where
  pub at : (s : S) → P s → (a : A) × (t : S) × (m s ≡ (ok a, t)) × Q a t

module _ {S A : Type 0} {P : S → Type 0} where
  pub Keeps-lift : (result : Result A) → Keeps P (lift result)
  unfolding lift
  Keeps-lift result = record { at = λ s kept. kept }

  pub Keeps-throw : (code : ErrorCode) → Keeps P (throw {A = A} code)
  unfolding throw
  Keeps-throw code = record { at = λ s kept. kept }

  pub Keeps-gets : (read : S → A) → Keeps P (gets read)
  unfolding gets
  Keeps-gets read = record { at = λ s kept. kept }

  pub Keeps-pure : (value : A) → Keeps P (pure value)
  unfolding pure
  Keeps-pure value = record { at = λ s kept. kept }

module _ {S : Type 0} {P : S → Type 0} where
  pub Keeps-modify : (change : S → S) → ((s : S) → P s → P (change s)) → Keeps P (modify change)
  unfolding modify
  Keeps-modify change k = record { at = k }

  pub Keeps-check : (test : Bool) (code : ErrorCode) → Keeps P (check test code)
  unfolding check
  Keeps-check true code = record { at = λ s kept. kept }
  Keeps-check false code = record { at = λ s kept. kept }

module _ {S A B : Type 0} {P : S → Type 0} where
  -- the rest of the block may use what the first step is known to ensure
  pub Keeps-bind-using :
      (R : A → Type 0) (m : Exec S A) (f : A → Exec S B)
      → Keeps P m
      → ((s : S) (a : A) → P s → (m s).0 ≡ ok a → R a)
      → ((a : A) → R a → Keeps P (f a))
      → Keeps P (m >>= f)
  unfolding ◌>>=◌
  Keeps-bind-using R m f km q kf = record { at = λ s h. go s (m s).0 refl h (km.at s h) }
    where
      go : (s : S) (r : Result A) → (m s).0 ≡ r → P s → P (m s).1 → P (continue r f (m s).1).1
      go s (ok a) e h k = (kf a (q s a h e)).at (m s).1 k
      go s (err x) e h k = k
      go s out_of_fuel e h k = k

  pub Keeps-bind-lift :
      (result : Result A) (rest : A → Exec S B)
      → ((value : A) → result ≡ ok value → Keeps P (rest value))
      → Keeps P (lift result >>= rest)
  unfolding ◌>>=◌
  Keeps-bind-lift out_of_fuel rest k = record { at = λ s kept. kept }
  Keeps-bind-lift (err code) rest k = record { at = λ s kept. kept }
  Keeps-bind-lift (ok value) rest k = k value refl

  pub Keeps-bind :
      (first : Exec S A) (rest : A → Exec S B)
      → Keeps P first
      → ((value : A) → Keeps P (rest value))
      → Keeps P (first >>= rest)
  Keeps-bind first rest k1 k2 =
      Keeps-bind-using (λ _. Unit) first rest k1 (λ s a h e. tt) (λ a _. k2 a)

  -- what follows may use that the value was read from the state at hand
  pub Keeps-gets-bind :
      (F : S → A) (f : A → Exec S B) → ((s : S) → P s → P (f (F s) s).1) → Keeps P (gets F >>= f)
  unfolding ◌>>=◌
  Keeps-gets-bind F f k = record { at = k }

pub ruleset keeps_rules =
    (Keeps-pure, Keeps-throw, Keeps-lift, Keeps-gets, Keeps-check, Keeps-modify, Keeps-bind)

module _ {S A B : Type 0} {P : S → Type 0} {R : A → S → Type 0} {Q : B → S → Type 0} where
  pub Ensures-bind :
      (m : Exec S A) (f : A → Exec S B)
      → Ensures P m R
      → ((a : A) → Ensures (R a) (f a) Q)
      → Ensures P (m >>= f) Q
  Ensures-bind m f hm hf = record {
    at = λ s t b p e.
        let (a, u, e1, e2) = bind-eq-ok m f s t b e in (hf a).at u t b (hm.at s u a p e1) e2;
  }

  pub Succeeds-bind :
      (m : Exec S A) (f : A → Exec S B)
      → Succeeds P m R
      → ((a : A) → Succeeds (R a) (f a) Q)
      → Succeeds P (m >>= f) Q
  unfolding ◌>>=◌
  Succeeds-bind m f hm hf = record { at = λ s p. go s (hm.at s p) }
    where
      go :
          (s : S)
          → (a : A) × (t : S) × (m s ≡ (ok a, t)) × R a t
          → (b : B) × (t : S) × (continue (m s).0 f (m s).1 ≡ (ok b, t)) × Q b t
      go s (a, u, e, r) = let (b, t, e2, q) = (hf a).at u r in (b, t, rw e e2, q)

-- A test whose outcome is used by what follows.
pub Ensures-check :
    {S : Type 0} {P : S → Type 0} (b : Bool) (e : ErrorCode)
    → Ensures P (check b e) (λ _ s. P s × (b ≡ true))
unfolding check
Ensures-check {P} true e = record { at = λ s t a p h. (subst P (ap (λ x. x.1) h) p, refl) }
Ensures-check false e = record { at = λ s t a p h. cc }

-- Taking apart a block that returned, by its first step.
module _ {S B : Type 0} {t : S} {b : B} where
  pub check-then :
      (c : Bool) (e : ErrorCode) (f : Unit {0} → Exec S B) (s : S)
      → (check c e >>= f) s ≡ (ok b, t)
      → (c ≡ true) × (f tt s ≡ (ok b, t))
  unfolding ◌>>=◌
  check-then true e f s h = (refl, h)
  check-then false e f s h = cc

  pub modify-then :
      (change : S → S) (f : Unit {0} → Exec S B) (s : S)
      → (modify change >>= f) s ≡ (ok b, t)
      → f tt (change s) ≡ (ok b, t)
  unfolding ◌>>=◌
  modify-then change f s h = h

  pub pure-then : (a : B) (s : S) → pure a s ≡ (ok b, t) → (a ≡ b) × (s ≡ t)
  unfolding pure
  pure-then a s h = (cc, cc)

module _ {S A B : Type 0} {t : S} {b : B} where
  pub lift-then :
      (r : Result A) (f : A → Exec S B) (s : S)
      → (lift r >>= f) s ≡ (ok b, t)
      → (a : A) × (r ≡ ok a) × (f a s ≡ (ok b, t))
  unfolding ◌>>=◌
  lift-then (ok a) f s h = (a, refl, h)
  lift-then (err e) f s h = cc
  lift-then out_of_fuel f s h = cc

  pub gets-then :
      (read : S → A) (f : A → Exec S B) (s : S)
      → (gets read >>= f) s ≡ (ok b, t)
      → f (read s) s ≡ (ok b, t)
  unfolding ◌>>=◌
  gets-then read f s h = h

  -- the state behind the step is named by the step
  pub step-then :
      (m : Exec S A) (f : A → Exec S B) (s : S)
      → (m >>= f) s ≡ (ok b, t)
      → (a : A) × ((m s).0 ≡ ok a) × (f a (m s).1 ≡ (ok b, t))
  unfolding ◌>>=◌
  step-then m f s h = go (m s).0 refl h
    where
      go :
          (r : Result A)
          → (m s).0 ≡ r
          → continue r f (m s).1 ≡ (ok b, t)
          → (a : A) × ((m s).0 ≡ ok a) × (f a (m s).1 ≡ (ok b, t))
      go (ok a) e k = (a, e, k)
      go (err x) e k = cc
      go out_of_fuel e k = cc

module _ {S A : Type 0} {P : S → Type 0} where
  pub Ensures-any : (m : Exec S A) → Ensures P m (λ _ _. Unit)
  Ensures-any m = record { at = λ s t a p e. tt }

  pub Ensures-kept : (m : Exec S A) → Keeps P m → Ensures P m (λ _. P)
  Ensures-kept m k = record { at = λ s t a p e. subst P (ap (λ x. x.1) e) (k.at s p) }

module _ {S A : Type 0} {P : S → Type 0} {Q : A → S → Type 0} where
  pub Ensures-pure : (a : A) → ((s : S) → P s → Q a s) → Ensures P (pure a) Q
  Ensures-pure a h = record {
    at = λ s t b p e.
        let (same, left) = pure-then a s e in subst (λ x. Q x t) same (subst (Q a) left (h s p));
  }

  pub Ensures-throw : (code : ErrorCode) → Ensures P (throw code) Q
  unfolding throw
  Ensures-throw code = record { at = λ s t a p e. cc }

  -- what is known of the state at hand may be forgotten
  pub Ensures-forget : (m : Exec S A) → Ensures (λ _. Unit) m Q → Ensures P m Q
  Ensures-forget m h = record { at = λ s t a p e. h.at s t a tt e }

pub Ensures-assume :
    {S A X : Type 0} {Q : A → S → Type 0} (m : Exec S A)
    → (X → Ensures (λ _. Unit) m Q)
    → Ensures (λ _. X) m Q
Ensures-assume m h = record { at = λ s t a x e. (h x).at s t a tt e }
