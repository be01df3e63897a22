-- ===== src/Database/Deletion/Purge.antt =====
-- Removal in batches against removal at once.
use file_vault.Common.{
  ℕ, zero, suc, ◌+◌, ◌-◌, ◌<◌, ◌≡◌, refl, ap, ◌∙◌, inl, inr, Bool, Option, none, min, ◌==◌, nat_eq,
  Bool-cases, ok, ErrorCode, arith,
}
use file_vault.Common.Exec.{Exec, ◌>>=◌}
use file_vault.Database.Snapshots.{SnapshotStatus}
use file_vault.Database.Deletion.{
  Tables, Injected, without_first, count_rows, other_rows, entry_of, warning_of, delete_entry_batch,
  delete_warning_batch, transaction, hit, selected, cascade, require_status, batch, batches,
  is_deleting, is_incomplete, clean_incomplete_snapshot, remove_snapshot, delete_deleting_snapshot,
  checked_batch_limit, rolled_back,
}
use file_vault.Database.Deletion.Batches.{
  other_rows-without_first, count_rows-without_first, count_first-min, other_rows-idempotent,
  without_first_none,
}

-- The snapshot with its entries and warnings, removed at once.
unfoldable pub purge : ℕ → Tables → Tables
purge id t = record {
  snapshots = other_rows (selected id is_deleting) t.snapshots;
  entries = other_rows (entry_of id) t.entries;
  warnings = other_rows (warning_of id) t.warnings;
}

-- An operation that removes up to `limit` of the rows that are to go; `done` has none of them left.
pub record IsRemoval (limit : ℕ) (remove : Exec Tables ℕ) (done : Tables → Tables) : Type 0 where
  pub left_to_go : Tables → ℕ
  pub left : Tables → Tables
  pub runs : (t : Tables) → remove t ≡ (ok (min limit (left_to_go t)), left t)
  pub shrinks : (t : Tables) → left_to_go (left t) ≡ left_to_go t - limit
  pub snapshots : (t : Tables) → (left t).snapshots ≡ t.snapshots
  pub done_left : (t : Tables) → done (left t) ≡ done t
  pub done_none : (t : Tables) → left_to_go t ≡ 0 → left t ≡ done t

module _ (id limit : ℕ) (admitted : SnapshotStatus → Bool) (remove : Exec Tables ℕ)
    (done : Tables → Tables) (i : IsRemoval limit remove done) where
  pub batch-ok :
      (t : Tables)
      → count_rows (selected id admitted) t.snapshots ≡ 1
      → batch id admitted remove none t ≡ (ok (min limit (i.left_to_go t)), i.left t)
  unfolding batch transaction rolled_back require_status hit ◌>>=◌
  batch-ok t one = rw (one, i.runs t) refl

  batches-ok :
      (fuel n : ℕ) (injected : ℕ → Option ErrorCode) (t : Tables)
      → 0 < limit
      → ((k : ℕ) → injected k ≡ none)
      → count_rows (selected id admitted) t.snapshots ≡ 1
      → i.left_to_go t < fuel
      → batches fuel id admitted remove injected n t ≡ (ok tt, done t)
  unfolding batches ◌>>=◌
  batches-ok zero n injected t pos quiet one enough = absurd (omega arith)
  batches-ok (suc fuel) n injected t pos quiet one enough =
      elim (Bool-cases (min limit (i.left_to_go t) == 0)) [
        | inl last ↦
            rw (quiet n, batch-ok t one, last) (ap (λ u. (ok tt, u)) (i.done_none t (ground arith)))
        | inr more ↦
            rw (quiet n, batch-ok t one, more)
              (batches-ok fuel (n + 1) injected (i.left t) pos quiet
                  (ap (count_rows (selected id admitted)) (i.snapshots t) ∙ one)
                  (let s = i.shrinks t in ground arith)
                ∙ ap (λ u. (ok tt, u)) (i.done_left t))
      ]

module _ (id limit : ℕ) where
  abbrev pub no_entries : Tables → Tables
  no_entries t = record t { entries = other_rows (entry_of id) t.entries }

  abbrev pub no_warnings : Tables → Tables
  no_warnings t = record t { warnings = other_rows (warning_of id) t.warnings }

  unfoldable pub entries_removed : IsRemoval limit (delete_entry_batch id limit) no_entries
  unfolding delete_entry_batch ◌>>=◌
  entries_removed = record {
    left_to_go = λ t. count_rows (entry_of id) t.entries;
    left = λ t. record t { entries = without_first limit (entry_of id) t.entries };
    runs = λ t. rw (count_first-min (entry_of id) limit t.entries) refl;
    shrinks = λ t. count_rows-without_first (entry_of id) limit t.entries;
    snapshots = λ t. refl;
    done_left = λ t. rw (other_rows-without_first (entry_of id) limit t.entries) refl;
    done_none = λ t e. rw (without_first_none (entry_of id) limit t.entries e) refl;
  }

  unfoldable pub warnings_removed : IsRemoval limit (delete_warning_batch id limit) no_warnings
  unfolding delete_warning_batch ◌>>=◌
  warnings_removed = record {
    left_to_go = λ t. count_rows (warning_of id) t.warnings;
    left = λ t. record t { warnings = without_first limit (warning_of id) t.warnings };
    runs = λ t. rw (count_first-min (warning_of id) limit t.warnings) refl;
    shrinks = λ t. count_rows-without_first (warning_of id) limit t.warnings;
    snapshots = λ t. refl;
    done_left = λ t. rw (other_rows-without_first (warning_of id) limit t.warnings) refl;
    done_none = λ t e. rw (without_first_none (warning_of id) limit t.warnings e) refl;
  }

module _ (id limit : ℕ) (admitted : SnapshotStatus → Bool) where
  -- the loop on entries, and that on warnings
  pub emptied_entries :
      (fuel : ℕ) (injected : ℕ → Option ErrorCode) (t : Tables)
      → 0 < limit
      → ((k : ℕ) → injected k ≡ none)
      → count_rows (selected id admitted) t.snapshots ≡ 1
      → count_rows (entry_of id) t.entries < fuel
      → batches fuel id admitted (delete_entry_batch id limit) injected 0 t
        ≡ (ok tt, no_entries id limit t)
  emptied_entries fuel injected t pos quiet one few =
      batches-ok id limit admitted (delete_entry_batch id limit) (no_entries id limit)
        (entries_removed id limit) fuel 0 injected t pos quiet one (unfold entries_removed in few)

  pub emptied_warnings :
      (fuel : ℕ) (injected : ℕ → Option ErrorCode) (t : Tables)
      → 0 < limit
      → ((k : ℕ) → injected k ≡ none)
      → count_rows (selected id admitted) t.snapshots ≡ 1
      → count_rows (warning_of id) t.warnings < fuel
      → batches fuel id admitted (delete_warning_batch id limit) injected 0 t
        ≡ (ok tt, no_warnings id limit t)
  emptied_warnings fuel injected t pos quiet one few =
      batches-ok id limit admitted (delete_warning_batch id limit) (no_warnings id limit)
        (warnings_removed id limit) fuel 0 injected t pos quiet one (unfold warnings_removed in few)

module _ (id : ℕ) where
  pub remove_snapshot-ok :
      (t : Tables)
      → count_rows (selected id is_deleting) t.snapshots ≡ 1
      → remove_snapshot id none t ≡ (ok tt, purge id t)
  unfolding remove_snapshot transaction rolled_back hit cascade purge ◌>>=◌
  remove_snapshot-ok t one = rw one refl

  pub limit-bounds : (n limit : ℕ) → checked_batch_limit n ≡ ok limit → 0 < limit
  unfolding checked_batch_limit
  limit-bounds n limit e = ground arith

  -- If a snapshot is being deleted, the limit of a batch is admitted and no commit fails, then deletion in
  -- batches, run on more fuel than there are entries and than there are warnings of the snapshot, returns
  -- and leaves what removing the snapshot with its entries and warnings at once leaves.
  pub delete_deleting_snapshot-purge :
      (fuel n limit : ℕ) (injected : Injected) (t : Tables)
      → checked_batch_limit n ≡ ok limit
      → ((k : ℕ) → injected.entries k ≡ none)
      → ((k : ℕ) → injected.warnings k ≡ none)
      → injected.final ≡ none
      → count_rows (selected id is_deleting) t.snapshots ≡ 1
      → count_rows (entry_of id) t.entries < fuel
      → count_rows (warning_of id) t.warnings < fuel
      → delete_deleting_snapshot fuel id injected n t ≡ (ok tt, purge id t)
  unfolding delete_deleting_snapshot ◌>>=◌ purge
  delete_deleting_snapshot-purge fuel n limit injected t e quiet quiet' quiet'' one few few' =
      let pos = limit-bounds n limit e in
      rw
        (
          e,
          emptied_entries id limit is_deleting fuel injected.entries t pos quiet one few,
          emptied_warnings id limit is_deleting fuel injected.warnings (no_entries id limit t) pos
              quiet' one few',
          quiet'',
        )
        (remove_snapshot-ok (no_warnings id limit (no_entries id limit t)) one
          ∙ rw
              (
                other_rows-idempotent (entry_of id) t.entries,
                other_rows-idempotent (warning_of id) t.warnings,
              )
              refl)

  -- If a snapshot has failed or was cancelled, the limit of a batch is admitted and no commit fails, then
  -- cleanup in batches, run on more fuel than there are entries and than there are warnings of the
  -- snapshot, returns and leaves every row but those.
  pub clean_incomplete_snapshot-empties :
      (fuel n limit : ℕ) (injected : Injected) (t : Tables)
      → checked_batch_limit n ≡ ok limit
      → ((k : ℕ) → injected.entries k ≡ none)
      → ((k : ℕ) → injected.warnings k ≡ none)
      → count_rows (selected id is_incomplete) t.snapshots ≡ 1
      → count_rows (entry_of id) t.entries < fuel
      → count_rows (warning_of id) t.warnings < fuel
      → clean_incomplete_snapshot fuel id injected n t ≡ (
        ok tt,
        record t {
          entries = other_rows (entry_of id) t.entries;
          warnings = other_rows (warning_of id) t.warnings;
        },
      )
  unfolding clean_incomplete_snapshot ◌>>=◌
  clean_incomplete_snapshot-empties fuel n limit injected t e quiet quiet' one few few' =
      let pos = limit-bounds n limit e in
      rw
        (
          e,
          emptied_entries id limit is_incomplete fuel injected.entries t pos quiet one few,
          emptied_warnings id limit is_incomplete fuel injected.warnings (no_entries id limit t) pos
              quiet' one few',
        )
        refl
