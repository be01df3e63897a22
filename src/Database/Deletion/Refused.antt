-- ===== src/Database/Deletion/Refused.antt =====
-- Snapshots that are kept.
use file_vault.Common.{
  ℕ, zero, suc, ◌≡◌, ◌<◌, ◌⊎◌, inl, inr, refl, Option, ap, ◌∙◌, Bool, false, List, [], ◌∷◌, All,
  Bool-cases, ◌==◌, nat_eq, nat_beq_iff, ok, err, ErrorCode, invalid_argument, arith,
}
use file_vault.Common.Exec.{Exec, ◌>>=◌}
use file_vault.Database.Snapshots.{SnapshotRow, SnapshotStatus, pending, complete}
use file_vault.Database.Deletion.{
  Tables, Injected, count_rows, delete_entry_batch, transaction, selected, require_status, batch,
  batches, is_deleting, is_incomplete, delete_deleting_snapshot, clean_incomplete_snapshot,
  checked_batch_limit, rolled_back,
}

-- The row, if it is the snapshot's, is pending or complete.
abbrev pub IsKept : ℕ → SnapshotRow → Type 0
IsKept id row = row.id ≡ id → (row.status ≡ pending) ⊎ (row.status ≡ complete)

module _ (id : ℕ) where
  -- a status that an operation admits is neither
  Excludes : (SnapshotStatus → Bool) → Type 0
  Excludes admitted = (admitted pending ≡ false) × (admitted complete ≡ false)

  not_selected :
      (admitted : SnapshotStatus → Bool) (rows : List SnapshotRow)
      → Excludes admitted
      → All (IsKept id) rows
      → count_rows (selected id admitted) rows ≡ 0
  unfolding count_rows selected Excludes
  not_selected admitted [] x kept = refl
  not_selected admitted (row ∷ rows) (x, y) (k, kept) =
      let rest = not_selected admitted rows (x, y) kept in
      elim (Bool-cases (row.id == id)) [
        | inr other ↦ rw other rest
        | inl same ↦ elim (k ((nat_beq_iff row.id id).0 same)) [
          | inl p ↦ rw (same, ap admitted p ∙ x) rest
          | inr c ↦ rw (same, ap admitted c ∙ y) rest
        ]
      ]

  batches-refuse :
      (fuel : ℕ) (admitted : SnapshotStatus → Bool) (remove : Exec Tables ℕ)
      (injected : ℕ → Option ErrorCode) (t : Tables)
      → 0 < fuel
      → count_rows (selected id admitted) t.snapshots ≡ 0
      → batches fuel id admitted remove injected 0 t ≡ (err invalid_argument, t)
  unfolding batches batch transaction rolled_back require_status ◌>>=◌
  batches-refuse zero admitted remove injected t some_fuel none_there = absurd (omega arith)
  batches-refuse (suc fuel) admitted remove injected t some_fuel none_there = rw none_there refl

  -- With an admitted limit of a batch and some fuel, deletion and cleanup of a snapshot that is pending or
  -- complete, or is not there, both fail with `invalid_argument` and change nothing.
  pub IsKept-refused :
      (fuel n limit : ℕ) (injected : Injected) (t : Tables)
      → checked_batch_limit n ≡ ok limit
      → 0 < fuel
      → All (IsKept id) t.snapshots
      → (delete_deleting_snapshot fuel id injected n t ≡ (err invalid_argument, t))
        × (clean_incomplete_snapshot fuel id injected n t ≡ (err invalid_argument, t))
  unfolding delete_deleting_snapshot clean_incomplete_snapshot Excludes ◌>>=◌
  IsKept-refused fuel n limit injected t e some_fuel kept =
      let a = not_selected is_deleting t.snapshots (refl, refl) kept in
      let b = not_selected is_incomplete t.snapshots (refl, refl) kept in
      (
        rw
            (
              e,
              batches-refuse fuel is_deleting (delete_entry_batch id limit) injected.entries t
                  some_fuel a,
            )
            refl,
        rw
            (
              e,
              batches-refuse fuel is_incomplete (delete_entry_batch id limit) injected.entries t
                  some_fuel b,
            )
            refl,
      )
