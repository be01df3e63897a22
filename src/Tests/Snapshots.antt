-- ===== src/Tests/Snapshots.antt =====
-- A pending snapshot of one hashed file is completed.
use file_vault.Common.{◌≡◌, refl, some, none, [], ◌∷◌, All, ok, pos, codes}
use file_vault.Database.Chunks.{checked_int64}
use file_vault.Common.Exec.{◌>>=◌}
use file_vault.Database.Entries.{EntryType}
use file_vault.Database.Snapshots.{
  Database, SnapshotTotals, pending, complete, no_totals, mark_snapshot_complete, returned_rows,
  update_rows, final_totals, update, require_single_updated_row, picked, sum_entries,
  is_unhashed_file,
}
use file_vault.Database.Snapshots.Status.{finish, perform, Evolves, perform-Evolves}
use file_vault.Database.Snapshots.Replaced.{Replaces}
use file_vault.Database.Snapshots.Totals.{AreTotals}
use file_vault.Database.Snapshots.Completion.{IsHashed, mark_snapshot_complete_sound}

abbrev before : Database
before = record {
  snapshots =
      record {
        id = 1;
        created_at_ns = pos 5;
        completed_at_ns = none;
        status = pending;
        totals = no_totals;
        failure_message = none;
      }
      ∷ [];
  entries =
      record {
        id = 1;
        snapshot_id = 1;
        entry_type = EntryType.directory;
        logical_size = 0;
        file_hash = none;
      }
      ∷ record {
        id = 2;
        snapshot_id = 1;
        entry_type = EntryType.regular_file;
        logical_size = 9;
        file_hash = some (codes "ab");
      }
      ∷ [];
  last_snapshot_id = 1;
}

abbrev totals_after : SnapshotTotals
totals_after = record no_totals { file_count = 1; directory_count = 1; logical_size = 9 }

abbrev after : Database
after = record before {
  snapshots =
      record {
        id = 1;
        created_at_ns = pos 5;
        completed_at_ns = some (pos 7);
        status = complete;
        totals = totals_after;
        failure_message = none;
      }
      ∷ [];
}

completes : mark_snapshot_complete 1 no_totals (pos 7) before ≡ (ok tt, after)
unfolding mark_snapshot_complete ◌>>=◌ checked_int64 final_totals sum_entries is_unhashed_file
    update require_single_updated_row returned_rows picked update_rows
completes = refl

mark_snapshot_complete_sound_example :
    (final : SnapshotTotals) × All (IsHashed 1) before.entries
    × (after.entries ≡ before.entries)
    × (after.last_snapshot_id ≡ before.last_snapshot_id)
    × AreTotals 1 before.entries no_totals final
    × Replaces 1
        (λ row. record row { completed_at_ns = some (pos 7); status = complete; totals = final })
        before.snapshots
        after.snapshots
mark_snapshot_complete_sound_example =
    mark_snapshot_complete_sound 1 no_totals (pos 7) before after completes

perform-Evolves_example :
    Evolves before.snapshots (perform (finish 1 no_totals (pos 7)) before).snapshots
perform-Evolves_example = perform-Evolves (finish 1 no_totals (pos 7)) before
