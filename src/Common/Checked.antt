-- ===== src/Common/Checked.antt =====
-- Pure functions that may throw, chained in `do` blocks.
use mathlib.Core.Path.{◌≡◌, refl}
use file_vault.Common.Errors.{Result, ok, err, out_of_fuel}

infixl 5 ◌>>=◌
abbrev pub ◌>>=◌ {ℓ κ} : {A : Type ℓ} {B : Type κ} → Result A → (A → Result B) → Result B
out_of_fuel >>= rest = out_of_fuel
err code >>= rest = err code
ok value >>= rest = rest value

-- What was returned came out of the first step and went through the rest.
pub >>=-eq-ok {ℓ κ} :
    {A : Type ℓ} {B : Type κ} (first : Result A) (rest : A → Result B) {b : B}
    → (first >>= rest) ≡ ok b
    → (a : A) × (first ≡ ok a) × (rest a ≡ ok b)
>>=-eq-ok (ok value) rest returned = (value, refl, returned)
>>=-eq-ok (err code) rest returned = cc
>>=-eq-ok out_of_fuel rest returned = cc

infixl 5 ◌>>◌
abbrev pub ◌>>◌ {ℓ} : {B : Type ℓ} → Result (Unit {0}) → Result B → Result B
check >> rest = check >>= λ _. rest
