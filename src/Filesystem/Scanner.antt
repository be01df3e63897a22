-- ===== src/Filesystem/Scanner.antt =====
-- src/core/filesystem/file_scanner.hpp and file_scanner.cpp: what is captured of the source directory. What
-- the operating system says of an entry is a parameter. Messages of warnings are for display and left out.
pub mod Walk
pub mod Decision
pub mod Paths
use file_vault.Common.{
  ℕ, zero, suc, ◌+◌, Bool, true, false, not, ◌&&◌, ◌||◌, ◌⊎◌, inl, inr, Option, none, some, List,
  [], ◌∷◌, ◌++◌, Bytes, ℤ, codes, take, drop, ◌==◌, nat_eq, if◌then◌else◌,
}
use file_vault.Common.Exec.{Exec, pure, ◌>>=◌, ◌>>◌}
use file_vault.Filesystem.FileMetadata as M
use file_vault.Filesystem.FileMetadata.{
  PlatformFileMetadata, ScannerReparseKind, ScannerPlatformMetadata, no_reparse_point,
  other_reparse_point,
}
use file_vault.Filesystem.Tree.{FilePath}
use file_vault.Database.Entries.{EntryType, regular_file, directory, symbolic_link}
use file_vault.Restore.Utf8.{is_valid_utf8}

pub record ScannedEntry : Type 0 where
  pub source_path : FilePath
  pub relative_path : Bytes
  pub parent_path : Bytes
  pub name : Bytes
  pub type : EntryType
  pub logical_size : ℕ
  pub modified_time_ns : ℤ
  pub posix_mode : ℕ
  pub symlink_target : Option Bytes

pub record ScanWarning : Type 0 where
  pub relative_path : Bytes
  pub code : Bytes

pub record FileScannerOptions : Type 0 where
  pub include_hidden : Bool
  pub one_file_system : Bool

pub data ScanEntryKind : Type 0 where
  ordinary link junction volume_mount_point unsupported_reparse_point : ScanEntryKind

pub record ScanEntryFacts : Type 0 where
  pub kind : ScanEntryKind
  pub hidden : Bool
  pub cloud_placeholder : Bool
  pub filesystem_boundary : Bool

-- Each action, with the warning code where there is one.
pub data ScanEntryDecision : Type 0 where
  capture capture_as_symbolic_link skip : ScanEntryDecision
  warn_and_skip : Bytes → ScanEntryDecision

is_mount_point : ScanEntryKind → Bool
is_mount_point volume_mount_point = true
is_mount_point _ = false

is_unsupported : ScanEntryKind → Bool
is_unsupported unsupported_reparse_point = true
is_unsupported _ = false

is_link : ScanEntryKind → Bool
is_link link = true
is_link junction = true
is_link _ = false

unfoldable pub decide_scan_entry : ScanEntryFacts → FileScannerOptions → ScanEntryDecision
unfolding is_mount_point is_unsupported is_link
decide_scan_entry facts options =
    if not options.include_hidden && facts.hidden
    then skip
    else if facts.cloud_placeholder
    then warn_and_skip (codes "cloud_placeholder")
    else if is_mount_point facts.kind
    then warn_and_skip (codes "volume_mount_point")
    else if is_unsupported facts.kind
    then warn_and_skip (codes "unsupported_reparse_point")
    else if options.one_file_system && facts.filesystem_boundary
    then warn_and_skip (codes "filesystem_boundary")
    else if is_link facts.kind
    then capture_as_symbolic_link
    else capture

-- `text.rfind(c)`
unfoldable pub rfind : ℕ → Bytes → Option ℕ
rfind c [] = none
rfind c (d ∷ text) = elim (rfind c text) [
  | some index ↦ some (suc index)
  | none ↦ if d == c then some 0 else none
]

unfoldable pub parent_path : Bytes → Bytes
parent_path relative_path = elim (rfind b'/' relative_path) [
  | none ↦ []
  | some separator ↦ take separator relative_path
]

unfoldable pub entry_name : Bytes → Bytes
entry_name relative_path = elim (rfind b'/' relative_path) [
  | none ↦ relative_path
  | some separator ↦ drop (suc separator) relative_path
]

-- `path.generic_u8string()` of a path of components
unfoldable pub generic_string : FilePath → Bytes
generic_string [] = []
generic_string (c ∷ []) = c
generic_string (c ∷ d ∷ path) = c ++ b'/' ∷ generic_string (d ∷ path)

unfoldable pub path_to_utf8 : Bytes → Option Bytes
path_to_utf8 encoded = if is_valid_utf8 encoded then some encoded else none

-- the type that `symlink_status` tells
pub data FileType : Type 0 where
  is_regular is_directory is_symlink is_other : FileType

-- What the system answers for an entry; none is an error.
pub record EntryAnswers : Type 0 where
  pub status : Option FileType
  pub platform : Option ScannerPlatformMetadata
  pub metadata : Option PlatformFileMetadata
  pub target : Option Bytes

abbrev is_symlink_type : FileType → Bool
is_symlink_type is_symlink = true
is_symlink_type _ = false

abbrev pub is_directory_type : FileType → Bool
is_directory_type is_directory = true
is_directory_type _ = false

unfoldable pub scan_entry_kind : FileType → ScannerReparseKind → ScanEntryKind
scan_entry_kind status M.symbolic_link = link
scan_entry_kind status M.junction = junction
scan_entry_kind status M.volume_mount_point = volume_mount_point
scan_entry_kind status other_reparse_point = unsupported_reparse_point
scan_entry_kind status no_reparse_point = if is_symlink_type status then link else ordinary

-- the type captured, or none for a special entry
unfoldable pub captured_type : Bool → FileType → Option EntryType
captured_type true status = some symbolic_link
captured_type false is_symlink = some symbolic_link
captured_type false is_regular = some regular_file
captured_type false is_directory = some directory
captured_type false is_other = none

-- the size of a file, and 0 of anything else
size_of : EntryType → ℕ → ℕ
size_of regular_file n = n
size_of _ n = 0

-- the target of a symbolic link, or the code of a warning
target_of : EntryType → Option Bytes → Bytes ⊎ Option Bytes
target_of symbolic_link none = inl (codes "symlink_target_unavailable")
target_of symbolic_link (some target) = elim (path_to_utf8 target) [
  | none ↦ inl (codes "unsupported_path_encoding")
  | some text ↦ inr (some text)
]
target_of _ target = inr none

make_entry :
    FilePath
    → Bytes
    → EntryType
    → PlatformFileMetadata
    → Bytes ⊎ Option Bytes
    → ScanWarning ⊎ ScannedEntry
unfolding size_of
make_entry source_path relative_path type metadata (inl code) =
    inl (record { relative_path = relative_path; code = code })
make_entry source_path relative_path type metadata (inr symlink_target) = inr (record {
  source_path = source_path;
  relative_path = relative_path;
  parent_path = parent_path relative_path;
  name = entry_name relative_path;
  type = type;
  logical_size = size_of type metadata.logical_size;
  modified_time_ns = metadata.modified_time_ns;
  posix_mode = metadata.posix_mode;
  symlink_target = symlink_target;
})

read_metadata :
    FilePath
    → Bytes
    → EntryType
    → Option PlatformFileMetadata
    → Option Bytes
    → ScanWarning ⊎ ScannedEntry
unfolding make_entry target_of
read_metadata source_path relative_path type none target =
    inl (record { relative_path = relative_path; code = codes "metadata_unavailable" })
read_metadata source_path relative_path type (some metadata) target =
    make_entry source_path relative_path type metadata (target_of type target)

entry_of_type : FilePath → Bytes → Option EntryType → EntryAnswers → ScanWarning ⊎ ScannedEntry
unfolding read_metadata
entry_of_type source_path relative_path none answers =
    inl (record { relative_path = relative_path; code = codes "unsupported_file_type" })
entry_of_type source_path relative_path (some type) answers =
    read_metadata source_path relative_path type answers.metadata answers.target

-- An entry, or the warning given in its place.
unfoldable pub scan_entry :
    FilePath → Bytes → FileType → Bool → EntryAnswers → ScanWarning ⊎ ScannedEntry
unfolding entry_of_type
scan_entry source_path relative_path status as_link answers =
    entry_of_type source_path relative_path (captured_type as_link status) answers
