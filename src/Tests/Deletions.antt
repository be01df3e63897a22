-- ===== src/Tests/Deletions.antt =====
-- A snapshot of two entries and a warning is deleted beside another.
use file_vault.Common.{
  ℕ, ◌<◌, ◌≡◌, refl, none, some, [], ◌∷◌, codes, ok, err, pos, arith, database_error,
  invalid_argument, inr,
}
use file_vault.Common.Exec.{◌>>=◌}
use file_vault.Database.Deletion.{
  Tables, Injected, batches, batch, transaction, rolled_back, require_status, delete_entry_batch,
  is_deleting, is_incomplete, clean_incomplete_snapshot, delete_warning_batch, hit,
  checked_batch_limit, delete_deleting_snapshot, count_rows, other_rows, without_first, count_first,
  entry_of, warning_of, selected,
}
use file_vault.Database.Deletion.Purge.{
  purge, delete_deleting_snapshot-purge, clean_incomplete_snapshot-empties,
}
use file_vault.Database.Deletion.Broken.{
  broken, in_warnings, no_failure, delete_deleting_snapshot-resumes,
}
use file_vault.Database.Deletion.Refused.{IsKept-refused}
use file_vault.Database.Entries.{EntryType}
use file_vault.Database.Snapshots.{
  EntryRow, SnapshotRow, SnapshotStatus, deleting, failed, complete, no_totals,
}

abbrev snapshot_row : ℕ → SnapshotStatus → SnapshotRow
snapshot_row id status = record {
  id = id;
  created_at_ns = pos 5;
  completed_at_ns = some (pos 7);
  status = status;
  totals = no_totals;
  failure_message = none;
}

abbrev entry_row : ℕ → ℕ → EntryRow
entry_row id snapshot_id = record {
  id = id;
  snapshot_id = snapshot_id;
  entry_type = EntryType.directory;
  logical_size = 0;
  file_hash = none;
}

abbrev tables : Tables
tables = record {
  snapshots = snapshot_row 1 deleting ∷ snapshot_row 2 complete ∷ [];
  entries = entry_row 1 1 ∷ entry_row 2 2 ∷ entry_row 3 1 ∷ [];
  warnings = record { id = 1; snapshot_id = 1; relative_path = []; warning_code = codes "w" } ∷ [];
}

-- the same, where the first has failed
abbrev failed_tables : Tables
failed_tables = record tables { snapshots = snapshot_row 1 failed ∷ snapshot_row 2 complete ∷ [] }

abbrev quiet : Injected
quiet = record { entries = λ i. none; warnings = λ i. none; final = none }

abbrev failing : Injected
failing = record { entries = λ i. none; warnings = λ i. some database_error; final = none }

abbrev remaining : Tables
remaining = record {
  snapshots = snapshot_row 2 complete ∷ [];
  entries = entry_row 2 2 ∷ [];
  warnings = [];
}

purged : purge 1 tables ≡ remaining
unfolding purge other_rows entry_of warning_of selected
purged = refl

-- The batch of entries stays, that of warnings is rolled back.
fails :
    delete_deleting_snapshot 3 1 failing 1 tables
    ≡ (err database_error, record tables { entries = entry_row 2 2 ∷ [] })
unfolding delete_deleting_snapshot batches batch transaction rolled_back require_status hit
    delete_entry_batch delete_warning_batch checked_batch_limit count_rows count_first without_first
    entry_of warning_of selected ◌>>=◌
fails = refl

limit : checked_batch_limit 1 ≡ ok 1
unfolding checked_batch_limit
limit = refl

one_snapshot : count_rows (selected 1 is_deleting) tables.snapshots ≡ 1
unfolding count_rows selected
one_snapshot = refl

two_entries : count_rows (entry_of 1) tables.entries < 3
unfolding count_rows entry_of
two_entries = omega arith

one_warning : count_rows (warning_of 1) tables.warnings < 3
unfolding count_rows warning_of
one_warning = omega arith

delete_deleting_snapshot-purge_example :
    delete_deleting_snapshot 3 1 quiet 1 tables ≡ (ok tt, purge 1 tables)
delete_deleting_snapshot-purge_example =
    delete_deleting_snapshot-purge 1 3 1 1 quiet tables limit (λ k. refl) (λ k. refl) refl
      one_snapshot two_entries one_warning

delete_deleting_snapshot-resumes_example :
    (delete_deleting_snapshot 3 1 failing 1 tables
      ≡ (err database_error, broken 1 1 (in_warnings 0) tables))
    × (delete_deleting_snapshot 3 1 no_failure 1 (broken 1 1 (in_warnings 0) tables)
        ≡ (ok tt, purge 1 tables))
delete_deleting_snapshot-resumes_example =
    delete_deleting_snapshot-resumes 1 3 1 1 failing tables (in_warnings 0) database_error limit
      one_snapshot two_entries one_warning
      (λ k. refl, (λ k below. absurd (omega arith), refl, omega arith))

-- the same, where the first is complete
abbrev complete_tables : Tables
complete_tables = record tables {
  snapshots = snapshot_row 1 complete ∷ snapshot_row 2 complete ∷ [];
}

IsKept-refused_example :
    (delete_deleting_snapshot 1 1 quiet 1 complete_tables ≡ (err invalid_argument, complete_tables))
    × (clean_incomplete_snapshot 1 1 quiet 1 complete_tables
        ≡ (err invalid_argument, complete_tables))
IsKept-refused_example =
    IsKept-refused 1 1 1 1 quiet complete_tables limit (omega arith)
      (λ same. inr refl, (λ same. inr refl, tt))

one_failed : count_rows (selected 1 is_incomplete) failed_tables.snapshots ≡ 1
unfolding count_rows selected
one_failed = refl

clean_incomplete_snapshot-empties_example : clean_incomplete_snapshot 3 1 quiet 1 failed_tables ≡ (
  ok tt,
  record failed_tables {
    entries = other_rows (entry_of 1) failed_tables.entries;
    warnings = other_rows (warning_of 1) failed_tables.warnings;
  },
)
clean_incomplete_snapshot-empties_example =
    clean_incomplete_snapshot-empties 1 3 1 1 quiet failed_tables limit (λ k. refl) (λ k. refl)
      one_failed two_entries one_warning
