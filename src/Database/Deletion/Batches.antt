-- ===== src/Database/Deletion/Batches.antt =====
-- Rows removed in batches.
use file_vault.Common.{
  ℕ, zero, suc, ◌+◌, ◌-◌, ◌≡◌, refl, sym, ap, inl, inr, Bool, List, [], ◌∷◌, min, Bool-cases, arith,
}
use file_vault.Database.Deletion.{without_first, count_first, count_rows, other_rows}

module _ {R : Type 0} (test : R → Bool) where
  pub other_rows-without_first :
      (limit : ℕ) (rows : List R)
      → other_rows test (without_first limit test rows) ≡ other_rows test rows
  unfolding other_rows without_first
  other_rows-without_first zero rows = refl
  other_rows-without_first (suc limit) [] = refl
  other_rows-without_first (suc limit) (row ∷ rows) = elim (Bool-cases (test row)) [
    | inl yes' ↦ rw yes' (other_rows-without_first limit rows)
    | inr no' ↦ rw (no', no') (ap (◌∷◌ row) (other_rows-without_first (suc limit) rows))
  ]

  pub count_rows-without_first :
      (limit : ℕ) (rows : List R)
      → count_rows test (without_first limit test rows) ≡ count_rows test rows - limit
  unfolding count_rows without_first
  count_rows-without_first zero rows = omega arith
  count_rows-without_first (suc limit) [] = omega arith
  count_rows-without_first (suc limit) (row ∷ rows) =
      let here = count_rows-without_first limit rows in
      let later = count_rows-without_first (suc limit) rows in
      elim (Bool-cases (test row)) [
        | inl yes' ↦ rw yes' (omega arith)
        | inr no' ↦ rw (no', no') later
      ]

  pub count_first-min :
      (limit : ℕ) (rows : List R) → count_first limit test rows ≡ min limit (count_rows test rows)
  unfolding count_rows count_first
  count_first-min zero rows = omega arith
  count_first-min (suc limit) [] = omega arith
  count_first-min (suc limit) (row ∷ rows) =
      let here = count_first-min limit rows in
      let later = count_first-min (suc limit) rows in
      elim (Bool-cases (test row)) [ inl yes' ↦ rw yes' (omega arith) | inr no' ↦ rw no' later ]

  -- Where nothing is picked, the others are all rows.
  pub other_rows_all : (rows : List R) → count_rows test rows ≡ 0 → other_rows test rows ≡ rows
  unfolding count_rows other_rows
  other_rows_all [] e = refl
  other_rows_all (row ∷ rows) e = elim (Bool-cases (test row)) [
    | inl yes' ↦ absurd (ground arith)
    | inr no' ↦ rw no' (ap (◌∷◌ row) (other_rows_all rows (ground arith)))
  ]

  pub other_rows-idempotent :
      (rows : List R) → other_rows test (other_rows test rows) ≡ other_rows test rows
  unfolding other_rows
  other_rows-idempotent [] = refl
  other_rows-idempotent (row ∷ rows) = elim (Bool-cases (test row)) [
    | inl yes' ↦ rw yes' (other_rows-idempotent rows)
    | inr no' ↦ rw (no', no') (ap (◌∷◌ row) (other_rows-idempotent rows))
  ]

  pub without_first_none :
      (limit : ℕ) (rows : List R)
      → count_rows test rows ≡ 0
      → without_first limit test rows ≡ other_rows test rows
  unfolding count_rows without_first other_rows
  without_first_none zero rows e = unfold without_first in sym (other_rows_all rows e)
  without_first_none (suc limit) [] e = refl
  without_first_none (suc limit) (row ∷ rows) e = elim (Bool-cases (test row)) [
    | inl yes' ↦ absurd (ground arith)
    | inr no' ↦ rw no' (ap (◌∷◌ row) (without_first_none (suc limit) rows (ground arith)))
  ]

  -- Two batches take what one of both their sizes takes.
  pub without_first-add :
      (a b both : ℕ) (rows : List R)
      → both ≡ a + b
      → without_first b test (without_first a test rows) ≡ without_first both test rows
  unfolding without_first
  without_first-add zero b both rows e =
      ap (λ n. without_first n test rows) (let f : b ≡ both = omega arith in f)
  without_first-add (suc a) zero both rows e =
      ap (λ n. without_first n test rows) (let f : suc a ≡ both = omega arith in f)
  without_first-add (suc a) (suc b) zero rows e = absurd (omega arith)
  without_first-add (suc a) (suc b) (suc both) [] e = refl
  without_first-add (suc a) (suc b) (suc both) (row ∷ rows) e = elim (Bool-cases (test row)) [
    | inl yes' ↦ rw yes' (without_first-add a (suc b) both rows (omega arith))
    | inr no' ↦ rw (no', no') (ap (◌∷◌ row) (without_first-add (suc a) (suc b) (suc both) rows e))
  ]
