-- ===== src/Database/Chunks.antt =====
-- The table `chunks` of migrations.cpp, and `MetadataStore::ensure_chunk` and `find_chunk` of
-- metadata_store.cpp. The SQL text is read as SQLite documents it. The table is the list of its rows;
-- its constraints are the primary key `hash`, the unique `object_path` and two positive sizes.
pub mod Halts
use file_vault.Common.{
  ℕ, ◌&&◌, ◌||◌, Option, none, some, List, [], ◌∷◌, ◌++◌, Bytes, ℤ, any, ltb, ◌==◌, nat_eq, list_eq,
  if◌then◌else◌, i64_max, Result, ok, err, database_error, object_corrupt,
}
use file_vault.Common.Exec.{Exec, pure, throw, check, lift, modify, gets, ◌>>=◌, ◌>>◌}
use file_vault.Filesystem.Tree.{FilePath}

pub record StoredChunkInfo : Type 0 where
  pub hash_hex : Bytes
  pub raw_size : ℕ
  pub stored_size : ℕ
  pub object_path : FilePath
  pub created_at_ns : ℤ

abbrev pub Table : Type 0
Table = List StoredChunkInfo

unfoldable pub checked_int64 : ℕ → Result ℕ
checked_int64 value = if ltb i64_max value then err database_error else ok value

unfoldable pub select_by_hash : Bytes → Table → Option StoredChunkInfo
select_by_hash hash [] = none
select_by_hash hash (row ∷ rows) =
    if row.hash_hex == hash then some row else select_by_hash hash rows

-- INSERT ... ON CONFLICT DO NOTHING
unfoldable pub insert_or_ignore : StoredChunkInfo → Table → Table
insert_or_ignore chunk rows =
    if any (λ row. row.hash_hex == chunk.hash_hex || row.object_path == chunk.object_path) rows
    then rows
    else rows ++ chunk ∷ []

verify_row : StoredChunkInfo → Option StoredChunkInfo → Exec Table (Unit {0})
verify_row chunk none = throw object_corrupt
verify_row chunk (some row) =
    check
      (row.raw_size == chunk.raw_size
        && row.stored_size == chunk.stored_size
        && row.object_path == chunk.object_path)
      object_corrupt

unfoldable pub ensure_chunk : StoredChunkInfo → Exec Table (Unit {0})
unfolding checked_int64 verify_row
ensure_chunk chunk = do
  lift (checked_int64 chunk.raw_size) >>= λ _. pure tt
  lift (checked_int64 chunk.stored_size) >>= λ _. pure tt
  check (ltb 0 chunk.raw_size && ltb 0 chunk.stored_size) database_error
  modify (insert_or_ignore chunk)
  row ← gets (select_by_hash chunk.hash_hex)
  verify_row chunk row

-- No size is negative in the table, so the test on `raw_size <= 0` is one on zero.
unfoldable pub find_chunk : Bytes → Table → Result (Option StoredChunkInfo)
find_chunk hash rows = elim (select_by_hash hash rows) [
  | none ↦ ok none
  | some row ↦
      if row.raw_size == 0 || row.stored_size == 0 then err object_corrupt else ok (some row)
]
