-- ===== src/Filesystem/FileMetadata.antt =====
-- src/core/filesystem/platform/file_metadata.hpp: what the platform layer tells of a file.
use file_vault.Common.{ℕ, Bool, false, ◌&&◌, ℤ, pos, negsuc, ◌==◌, nat_eq}

pub record PlatformFileMetadata : Type 0 where
  pub logical_size : ℕ
  pub modified_time_ns : ℤ
  pub changed_time_ns : ℤ
  pub file_id_volume : ℕ
  pub file_id_value : ℕ
  pub posix_mode : ℕ

-- `==` on std::int64_t
int_beq : ℤ → ℤ → Bool
int_beq (pos m) (pos n) = m == n
int_beq (negsuc m) (negsuc n) = m == n
int_beq _ _ = false

unfoldable pub same_stable_identity : PlatformFileMetadata → PlatformFileMetadata → Bool
unfolding int_beq
same_stable_identity self other =
    self.logical_size == other.logical_size
    && int_beq self.modified_time_ns other.modified_time_ns
    && int_beq self.changed_time_ns other.changed_time_ns
    && self.file_id_volume == other.file_id_volume
    && self.file_id_value == other.file_id_value

pub data ScannerReparseKind : Type 0 where
  no_reparse_point symbolic_link junction volume_mount_point other_reparse_point :
      ScannerReparseKind

pub record ScannerPlatformMetadata : Type 0 where
  pub filesystem_identity : ℕ
  pub reparse_kind : ScannerReparseKind
  pub hidden : Bool
  pub cloud_placeholder : Bool
