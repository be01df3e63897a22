-- ===== src/Storage/ObjectFiles.antt =====
-- The helpers of object_store.cpp on files, and the parts of `TemporaryOutputFile` that it calls
-- (platform/posix_file_metadata.cpp). A temporary file has a fresh random name below
-- temporary/objects, where nothing else looks: it is the bytes written so far.
pub mod Halts
pub mod Keeps
pub mod Reads
use file_vault.Common.{
  ℕ, zero, suc, ◌+◌, ◌-◌, ◌*◌, ◌≤◌, ◌≡◌, Bool, true, false, not, ◌&&◌, ◌||◌, Option, none, some,
  List, [], ◌∷◌, ◌++◌, Bytes, codes, length, take, drop, min, ltb, leb, ◌==◌, nat_eq, list_eq,
  if◌then◌else◌, u64_max, ErrorCode, Result, ok, err, out_of_fuel, filesystem_error, object_corrupt,
  object_missing,
}
use file_vault.Common.Exec.{Exec, pure, throw, check, lift, gets, modify, ◌>>=◌, ◌>>◌}
use file_vault.Filesystem.Tree.{
  FilePath, Tree, Node, absent, directory, other, file, write, is_directory, parent_path,
  create_directories,
}
use file_vault.Storage.Blake3Hasher.{is_lowercase_blake3_hex, update_impl, to_hex}
use file_vault.Storage.World.{World, State, external}

unfoldable pub require_valid_hash : Bytes → ErrorCode → Result (Unit {0})
require_valid_hash hash_hex error_code =
    if is_lowercase_blake3_hex hash_hex then ok tt else err error_code

unfoldable pub derived_path : Bytes → FilePath
derived_path hash_hex = codes "objects" ∷ take 2 hash_hex ∷ (hash_hex ++ codes ".zst") ∷ []

abbrev pub maximum_read : ℕ
maximum_read = 64 * 1024

pub set_files : Tree → State → State
set_files t s = record s { files = t }

module _ (w : World) where
  unfoldable pub hash_raw : Bytes → Bytes
  unfolding update_impl
  hash_raw raw_bytes = to_hex (w.blake3.finish (update_impl w.blake3 w.blake3.init raw_bytes))

  created : Option Tree → Exec State (Unit {0})
  unfolding set_files
  created none = throw filesystem_error
  created (some t) = modify (set_files t)

  unfoldable pub ensure_directory : FilePath → Exec State (Unit {0})
  unfolding created
  ensure_directory path = do
    external w filesystem_error
    t ← gets (λ s. create_directories [] path s.files)
    created t
    external w filesystem_error
    status ← gets (λ s. s.files path)
    check (is_directory status) filesystem_error

  file_size : Node → Exec State (Option ℕ)
  file_size absent = pure none
  file_size (file bytes) = do
    external w filesystem_error
    check (leb (length bytes) u64_max) object_corrupt
    pure (some (length bytes))
  file_size _ = throw object_corrupt

  unfoldable pub regular_file_size : FilePath → Exec State (Option ℕ)
  unfolding file_size
  regular_file_size path = do
    external w filesystem_error
    status ← gets (λ s. s.files path)
    file_size status

  -- The loop of `read_exact`: `left` is `bytes.size() - offset`, and `bytes` what is read so far.
  unfoldable pub read_pieces : ℕ → ℕ → Bytes → Bytes → Exec State Bytes
  read_pieces fuel zero input bytes = pure bytes
  read_pieces zero (suc left) input bytes = lift out_of_fuel
  read_pieces (suc fuel) (suc left) input bytes = do
    let count = min maximum_read (suc left)
    external w object_corrupt
    check (length (take count input) == count) object_corrupt
    read_pieces fuel (suc left - count) (drop count input) (bytes ++ take count input)

  open_and_read : ℕ → Node → Exec State Bytes
  open_and_read size (file bytes) = read_pieces size size bytes []
  open_and_read size _ = throw object_missing

  unfoldable pub read_exact : FilePath → ℕ → Exec State Bytes
  unfolding read_pieces open_and_read
  read_exact path size = do
    external w object_missing
    status ← gets (λ s. s.files path)
    open_and_read size status

  unfoldable pub sync_existing_regular_file : FilePath → Exec State (Unit {0})
  sync_existing_regular_file path = external w filesystem_error

  unfoldable pub flush_containing_directory : FilePath → Exec State (Unit {0})
  flush_containing_directory path = external w filesystem_error

  unfoldable pub temporary_file : Exec State (Unit {0})
  temporary_file = external w filesystem_error

  unfoldable pub temporary_write : Bytes → Bytes → Exec State Bytes
  temporary_write temporary bytes = do external w filesystem_error; pure (temporary ++ bytes)

  unfoldable pub temporary_sync : Exec State (Unit {0})
  temporary_sync = external w filesystem_error

pub data RestorePublishResult : Type 0 where
  published destination_exists : RestorePublishResult

rename_no_replace : Bytes → FilePath → Node → Exec State RestorePublishResult
unfolding set_files
rename_no_replace temporary path absent = do
  modify (λ s. set_files (write path (file temporary) s.files) s)
  pure published
rename_no_replace temporary path _ = pure destination_exists

-- `publish` with `replace_existing` false: renameat2 with RENAME_NOREPLACE
unfoldable pub publish : World → Bytes → FilePath → Exec State RestorePublishResult
unfolding rename_no_replace
publish w temporary path = do
  external w filesystem_error
  parent ← gets (λ s. s.files (parent_path path))
  check (is_directory parent) filesystem_error
  status ← gets (λ s. s.files path)
  rename_no_replace temporary path status
