-- ===== src/Database/Snapshots.antt =====
-- The status of snapshots in src/core/database/metadata_store.cpp, on the tables `snapshots` and `entries` of
-- migrations.cpp. The SQL text is read as SQLite documents it; a table is the list of its rows. Columns
-- that these methods neither test nor change are left out.
pub mod Status
pub mod Completion
pub mod Replaced
pub mod Totals
use file_vault.Common.{
  ℕ, suc, ◌+◌, ◌≡◌, Bool, true, false, not, ◌&&◌, ◌||◌, Option, none, some, List, [], ◌∷◌, ◌++◌,
  Bytes, ℤ, pos, any, ltb, ◌==◌, nat_eq, list_eq, if◌then◌else◌, Result, ok, err, out_of_fuel,
  ErrorCode, invalid_argument, database_error,
}
use file_vault.Common.Exec.{Exec, pure, throw, check, lift, gets, modify, ◌>>=◌, ◌>>◌}
use file_vault.Database.Chunks.{checked_int64}
use file_vault.Database.Entries.{EntryType, regular_file, directory, symbolic_link}
use file_vault.Storage.Blake3Hasher.{is_lowercase_blake3_hex}

pub data SnapshotStatus : Type 0 where
  pending complete failed cancelled deleting : SnapshotStatus

pub record SnapshotTotals : Type 0 where
  pub file_count : ℕ
  pub directory_count : ℕ
  pub symlink_count : ℕ
  pub logical_size : ℕ
  pub new_stored_size : ℕ
  pub new_chunk_count : ℕ
  pub reused_chunk_count : ℕ
  pub duration_ms : ℤ

pub record SnapshotRow : Type 0 where
  pub id : ℕ
  pub created_at_ns : ℤ
  pub completed_at_ns : Option ℤ
  pub status : SnapshotStatus
  pub totals : SnapshotTotals
  pub failure_message : Option Bytes

pub record EntryRow : Type 0 where
  pub id : ℕ
  pub snapshot_id : ℕ
  pub entry_type : EntryType
  pub logical_size : ℕ
  pub file_hash : Option Bytes

-- `last_snapshot_id` is the counter of AUTOINCREMENT.
pub record Database : Type 0 where
  pub snapshots : List SnapshotRow
  pub entries : List EntryRow
  pub last_snapshot_id : ℕ

abbrev pub no_totals : SnapshotTotals
no_totals = record {
  file_count = 0;
  directory_count = 0;
  symlink_count = 0;
  logical_size = 0;
  new_stored_size = 0;
  new_chunk_count = 0;
  reused_chunk_count = 0;
  duration_ms = pos 0;
}

abbrev pub is_status : SnapshotStatus → SnapshotStatus → Bool
is_status pending pending = true
is_status complete complete = true
is_status failed failed = true
is_status cancelled cancelled = true
is_status deleting deleting = true
is_status _ _ = false

-- The rows that an UPDATE of one snapshot in a given status picks.
unfoldable pub picked : ℕ → SnapshotStatus → SnapshotRow → Bool
picked id from row = row.id == id && is_status from row.status

-- UPDATE ... WHERE id = :snapshot_id AND status = ...
unfoldable pub update_rows :
    ℕ → SnapshotStatus → (SnapshotRow → SnapshotRow) → List SnapshotRow → List SnapshotRow
update_rows id from set [] = []
update_rows id from set (row ∷ rows) =
    (if picked id from row then set row else row) ∷ update_rows id from set rows

-- The number of rows that RETURNING gives.
unfoldable pub returned_rows : ℕ → SnapshotStatus → List SnapshotRow → ℕ
returned_rows id from [] = 0
returned_rows id from (row ∷ rows) =
    let rest = returned_rows id from rows in if picked id from row then suc rest else rest

-- `require_single_updated_row`, and the same two tests elsewhere.
unfoldable pub require_single_updated_row : ℕ → Exec Database (Unit {0})
require_single_updated_row count = do
  check (not (count == 0)) invalid_argument
  check (count == 1) database_error

unfoldable pub update : ℕ → SnapshotStatus → (SnapshotRow → SnapshotRow) → Exec Database (Unit {0})
update id from set = do
  count ← gets (λ db. returned_rows id from db.snapshots)
  modify (λ db. record db { snapshots = update_rows id from set db.snapshots })
  require_single_updated_row count

-- A `Transaction` that is not committed is rolled back.
unfoldable pub transaction : Exec Database (Unit {0}) → Exec Database (Unit {0})
transaction body db = elim (body db).0 [
  | ok _ ↦ body db
  | err e ↦ (err e, db)
  | out_of_fuel ↦ (out_of_fuel, db)
]

-- The failure point before a commit, which throws `injected` if there is one.
unfoldable pub hit : Option ErrorCode → Exec Database (Unit {0})
hit none = pure tt
hit (some e) = throw e

unfoldable pub create_pending_snapshot : ℤ → Exec Database ℕ
create_pending_snapshot created_at_ns = do
  id ← gets (λ db. suc db.last_snapshot_id)
  modify (λ db. record db {
    snapshots =
        db.snapshots
        ++ record {
          id = id;
          created_at_ns = created_at_ns;
          completed_at_ns = none;
          status = pending;
          totals = no_totals;
          failure_message = none;
        }
          ∷ [];
    last_snapshot_id = id;
  })
  pure id

abbrev pub is_entry_type : EntryType → EntryType → Bool
is_entry_type regular_file regular_file = true
is_entry_type directory directory = true
is_entry_type symbolic_link symbolic_link = true
is_entry_type _ _ = false

-- SUM(CASE WHEN entry_type = ... THEN value ELSE 0 END) over the entries of a snapshot
unfoldable pub sum_entries : ℕ → EntryType → (EntryRow → ℕ) → List EntryRow → ℕ
sum_entries id type value [] = 0
sum_entries id type value (entry ∷ entries) =
    let rest = sum_entries id type value entries in
    if entry.snapshot_id == id && is_entry_type type entry.entry_type
    then value entry + rest
    else rest

is_null : Option Bytes → Bool
is_null none = true
is_null (some hash) = false

-- The entries of the NOT EXISTS clause.
unfoldable pub is_unhashed_file : ℕ → EntryRow → Bool
unfolding is_null
is_unhashed_file id entry =
    entry.snapshot_id == id
    && is_entry_type regular_file entry.entry_type
    && is_null entry.file_hash

-- `totals` with the four counters of the query.
unfoldable pub final_totals : ℕ → SnapshotTotals → List EntryRow → SnapshotTotals
final_totals id totals entries = record totals {
  file_count = sum_entries id regular_file (λ entry. 1) entries;
  directory_count = sum_entries id directory (λ entry. 1) entries;
  symlink_count = sum_entries id symbolic_link (λ entry. 1) entries;
  logical_size = sum_entries id regular_file (λ entry. entry.logical_size) entries;
}

abbrev pub bind_int64 : ℕ → Exec Database (Unit {0})
bind_int64 value = lift (checked_int64 value) >>= λ _. pure tt

abbrev pub completed : SnapshotTotals → ℤ → SnapshotRow → SnapshotRow
completed totals completed_at_ns row = record row {
  completed_at_ns = some completed_at_ns;
  status = complete;
  totals = totals;
}

-- The UPDATE, which picks no row if a file has no hash.
update_unless : Bool → ℕ → SnapshotTotals → ℤ → Exec Database (Unit {0})
update_unless true id totals completed_at_ns = require_single_updated_row 0
update_unless false id totals completed_at_ns = update id pending (completed totals completed_at_ns)

unfoldable pub mark_snapshot_complete : ℕ → SnapshotTotals → ℤ → Exec Database (Unit {0})
unfolding update_unless
mark_snapshot_complete id totals completed_at_ns = do
  final ← gets (λ db. final_totals id totals db.entries)
  unhashed ← gets (λ db. any (is_unhashed_file id) db.entries)
  bind_int64 final.file_count
  bind_int64 final.directory_count
  bind_int64 final.symlink_count
  bind_int64 final.logical_size
  bind_int64 final.new_stored_size
  bind_int64 final.new_chunk_count
  bind_int64 final.reused_chunk_count
  update_unless unhashed id final completed_at_ns

unfoldable pub mark_snapshot_incomplete : ℕ → SnapshotStatus → Bytes → ℤ → Exec Database (Unit {0})
mark_snapshot_incomplete id status failure_message completed_at_ns = do
  check (is_status failed status || is_status cancelled status) invalid_argument
  update id pending (λ row. record row {
    completed_at_ns = some completed_at_ns;
    status = if is_status cancelled status then cancelled else failed;
    failure_message = some failure_message;
  })

unfoldable pub transition_snapshot_to_deleting : ℕ → Option ErrorCode → Exec Database (Unit {0})
transition_snapshot_to_deleting id injected =
    transaction (update id complete (λ row. record row { status = deleting }) >> hit injected)

unfoldable pub mark_stale_pending_snapshot_failed :
    ℕ → Bytes → ℤ → Option ErrorCode → Exec Database (Unit {0})
mark_stale_pending_snapshot_failed id failure_message completed_at_ns injected = transaction (
    update id pending (λ row. record row {
      completed_at_ns = some completed_at_ns;
      status = failed;
      failure_message = some failure_message;
    })
    >> hit injected)
