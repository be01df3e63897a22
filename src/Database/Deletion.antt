-- ===== src/Database/Deletion.antt =====
-- The removal of a snapshot in batches, of src/core/database/metadata_store.cpp, on the tables `snapshots`,
-- `entries` and `snapshot_warnings`, whose rows stand in the order of their identifiers. The cascade to
-- `entry_chunks` is left out.
pub mod Batches
pub mod Broken
pub mod Purge
pub mod Refused
pub mod Resumes
use file_vault.Common.{
  ℕ, zero, suc, ◌+◌, ◌≡◌, Bool, true, false, not, ◌&&◌, ◌||◌, Option, none, some, List, [], ◌∷◌,
  Bytes, ltb, ◌==◌, nat_eq, if◌then◌else◌, i64_max, Result, ok, err, out_of_fuel, ErrorCode,
  invalid_argument, database_error,
}
use file_vault.Common.Exec.{Exec, pure, throw, check, lift, gets, modify, ◌>>=◌, ◌>>◌}
use file_vault.Database.Snapshots.{
  SnapshotRow, EntryRow, SnapshotStatus, failed, cancelled, deleting, is_status,
}

pub record WarningRow : Type 0 where
  pub id : ℕ
  pub snapshot_id : ℕ
  pub relative_path : Bytes
  pub warning_code : Bytes

pub record Tables : Type 0 where
  pub snapshots : List SnapshotRow
  pub entries : List EntryRow
  pub warnings : List WarningRow

unfoldable pub checked_batch_limit : ℕ → Result ℕ
checked_batch_limit entry_batch_limit =
    if entry_batch_limit == 0 || ltb i64_max entry_batch_limit
    then err invalid_argument
    else ok entry_batch_limit

module _ {R : Type 0} where
  -- the rows that are left without the first `limit` of those that the test picks
  unfoldable pub without_first : ℕ → (R → Bool) → List R → List R
  without_first zero test rows = rows
  without_first (suc limit) test [] = []
  without_first (suc limit) test (row ∷ rows) =
      let here = without_first limit test rows in
      let later = without_first (suc limit) test rows in if test row then here else row ∷ later

  unfoldable pub count_first : ℕ → (R → Bool) → List R → ℕ
  count_first zero test rows = 0
  count_first (suc limit) test [] = 0
  count_first (suc limit) test (row ∷ rows) =
      let here = count_first limit test rows in
      let later = count_first (suc limit) test rows in if test row then suc here else later

  -- the rows that the test picks, and the others
  unfoldable pub count_rows : (R → Bool) → List R → ℕ
  count_rows test [] = 0
  count_rows test (row ∷ rows) =
      let rest = count_rows test rows in if test row then suc rest else rest

  unfoldable pub other_rows : (R → Bool) → List R → List R
  other_rows test [] = []
  other_rows test (row ∷ rows) =
      let rest = other_rows test rows in if test row then rest else row ∷ rest

unfoldable pub entry_of : ℕ → EntryRow → Bool
entry_of id entry = entry.snapshot_id == id

unfoldable pub warning_of : ℕ → WarningRow → Bool
warning_of id warning = warning.snapshot_id == id

unfoldable pub delete_entry_batch : ℕ → ℕ → Exec Tables ℕ
delete_entry_batch id limit = do
  removed ← gets (λ t. count_first limit (entry_of id) t.entries)
  modify (λ t. record t { entries = without_first limit (entry_of id) t.entries })
  pure removed

unfoldable pub delete_warning_batch : ℕ → ℕ → Exec Tables ℕ
delete_warning_batch id limit = do
  removed ← gets (λ t. count_first limit (warning_of id) t.warnings)
  modify (λ t. record t { warnings = without_first limit (warning_of id) t.warnings })
  pure removed

-- A `Transaction` that is not committed is rolled back.
unfoldable pub rolled_back : {A : Type 0} → Result A × Tables → Tables → Result A × Tables
rolled_back (ok a, after) before = (ok a, after)
rolled_back (err code, after) before = (err code, before)
rolled_back (out_of_fuel, after) before = (out_of_fuel, before)

unfoldable pub transaction : {A : Type 0} → Exec Tables A → Exec Tables A
unfolding rolled_back
transaction body t = rolled_back (body t) t

-- the failure point before a commit
unfoldable pub hit : Option ErrorCode → Exec Tables (Unit {0})
hit none = pure tt
hit (some code) = throw code

-- The rows of the snapshot in one of the statuses that the caller admits.
unfoldable pub selected : ℕ → (SnapshotStatus → Bool) → SnapshotRow → Bool
selected id admitted row = row.id == id && admitted row.status

unfoldable pub require_status : ℕ → (SnapshotStatus → Bool) → Exec Tables (Unit {0})
require_status id admitted = do
  rows ← gets (λ t. count_rows (selected id admitted) t.snapshots)
  check (not (rows == 0)) invalid_argument
  check (rows == 1) database_error

-- One pass of a loop.
unfoldable pub batch :
    ℕ → (SnapshotStatus → Bool) → Exec Tables ℕ → Option ErrorCode → Exec Tables ℕ
batch id admitted remove injected =
    transaction (do require_status id admitted; removed ← remove; hit injected; pure removed)

-- The loop `for (;;)`; `injected i` is what the failure point before the i-th commit throws.
unfoldable pub batches :
    ℕ
    → ℕ
    → (SnapshotStatus → Bool)
    → Exec Tables ℕ
    → (ℕ → Option ErrorCode)
    → ℕ
    → Exec Tables (Unit {0})
batches zero id admitted remove injected i = lift out_of_fuel
batches (suc fuel) id admitted remove injected i = do
  removed ← batch id admitted remove (injected i)
  if removed == 0 then pure tt else batches fuel id admitted remove injected (i + 1)

abbrev pub is_deleting : SnapshotStatus → Bool
is_deleting status = is_status deleting status

abbrev pub is_incomplete : SnapshotStatus → Bool
is_incomplete status = is_status failed status || is_status cancelled status

-- `ON DELETE CASCADE` on the rows that refer to the snapshot; where no snapshot is removed, the statement
-- is rolled back.
unfoldable pub cascade : ℕ → Tables → Tables
cascade id t = record t {
  entries = other_rows (entry_of id) t.entries;
  warnings = other_rows (warning_of id) t.warnings;
}

unfoldable pub remove_snapshot : ℕ → Option ErrorCode → Exec Tables (Unit {0})
remove_snapshot id injected = transaction (do
  removed ← gets (λ t. count_rows (selected id is_deleting) t.snapshots)
  modify
      (λ t. cascade id (record t { snapshots = other_rows (selected id is_deleting) t.snapshots }))
  check (not (removed == 0)) invalid_argument
  check (removed == 1) database_error
  hit injected)

-- What the three failure points throw, in the loop on entries, in that on warnings, and at the end.
pub record Injected : Type 0 where
  pub entries : ℕ → Option ErrorCode
  pub warnings : ℕ → Option ErrorCode
  pub final : Option ErrorCode

unfoldable pub delete_deleting_snapshot : ℕ → ℕ → Injected → ℕ → Exec Tables (Unit {0})
delete_deleting_snapshot fuel id injected entry_batch_limit = do
  batch_limit ← lift (checked_batch_limit entry_batch_limit)
  batches fuel id is_deleting (delete_entry_batch id batch_limit) injected.entries 0
  batches fuel id is_deleting (delete_warning_batch id batch_limit) injected.warnings 0
  remove_snapshot id injected.final

unfoldable pub clean_incomplete_snapshot : ℕ → ℕ → Injected → ℕ → Exec Tables (Unit {0})
clean_incomplete_snapshot fuel id injected entry_batch_limit = do
  batch_limit ← lift (checked_batch_limit entry_batch_limit)
  batches fuel id is_incomplete (delete_entry_batch id batch_limit) injected.entries 0
  batches fuel id is_incomplete (delete_warning_batch id batch_limit) injected.warnings 0
