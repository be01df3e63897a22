-- ===== src/Database/Entries.antt =====
-- Rows of the metadata store as include/localvault/types.hpp and src/core/database/metadata_store.hpp
-- declare them.
use file_vault.Common.{ℕ, Option, Bytes, ℤ}
use file_vault.Filesystem.Tree.{FilePath}

pub data EntryType : Type 0 where
  regular_file directory symbolic_link : EntryType

pub record EntryInfo : Type 0 where
  pub id : ℤ
  pub snapshot_id : ℤ
  pub relative_path : FilePath
  pub type : EntryType
  pub logical_size : ℕ
  pub modified_time_ns : ℤ
  pub posix_mode : ℕ
  pub windows_attributes : Option ℕ
  pub file_hash_hex : Option Bytes
  pub symlink_target : Option FilePath

pub record ChunkReferenceInfo : Type 0 where
  pub sequence_number : ℤ
  pub hash_hex : Bytes
  pub object_path : FilePath
  pub raw_offset : ℕ
  pub raw_length : ℕ
  pub raw_size : ℕ
  pub stored_size : ℕ
