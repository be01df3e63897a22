-- ===== src/Tests/Destinations.antt =====
-- A small snapshot is accepted, and a destination beside the repository.
use file_vault.Common.{◌≡◌, ◌↔◌, refl, false, none, some, [], ◌∷◌, codes, ok, pos, All}
use file_vault.Database.Entries.{EntryInfo, EntryType}
use file_vault.Filesystem.Tree.{FilePath}
use file_vault.Restore.Plan.{is_component_prefix}
use file_vault.Restore.Paths.{
  DestinationAnswers, enoent, normalized_destination, validate_entries, inspect_ancestors,
  inspect_path_no_follow, from_root, platform_path_is_component_prefix,
}
use file_vault.Restore.Paths.Destination.{AreDirectories, normalized_destination-ok}
use file_vault.Restore.Paths.Entries.{IsValidEntry, roots, validate_entries_iff}

abbrev pub entry_at : FilePath → EntryType → EntryInfo
entry_at path type = record {
  id = pos 1;
  snapshot_id = pos 1;
  relative_path = path;
  type = type;
  logical_size = 3;
  modified_time_ns = pos 0;
  posix_mode = 0;
  windows_attributes = none;
  file_hash_hex = none;
  symlink_target = none;
}

validate_entries_iff_example :
    (validate_entries
        (λ path. path)
        (entry_at [] EntryType.directory ∷ entry_at (codes "f" ∷ []) EntryType.regular_file ∷ [])
      ≡ ok tt)
    ↔ (All
          (IsValidEntry (λ path. path))
          (entry_at [] EntryType.directory ∷ entry_at (codes "f" ∷ []) EntryType.regular_file ∷ [])
        × (roots (
              entry_at [] EntryType.directory
              ∷ entry_at (codes "f" ∷ []) EntryType.regular_file
              ∷ [])
            ≡ 1))
validate_entries_iff_example =
    validate_entries_iff (λ path. path)
      (entry_at [] EntryType.directory ∷ entry_at (codes "f" ∷ []) EntryType.regular_file ∷ [])

abbrev wanted : FilePath
wanted = codes "/" ∷ codes "r" ∷ []

abbrev repository : FilePath
repository = codes "/" ∷ codes "v" ∷ []

abbrev answers : DestinationAnswers
answers = record {
  absolute = some wanted;
  inspect = λ path. enoent;
  weakly_canonical = λ path. some path;
}

returns : normalized_destination (λ path. path) answers wanted repository ≡ ok wanted
unfolding normalized_destination inspect_ancestors inspect_path_no_follow
    platform_path_is_component_prefix is_component_prefix
returns = refl

normalized_destination-ok_example :
    (absolute : FilePath) × (resolved_destination : FilePath) × (resolved_repository : FilePath)
    × (some wanted ≡ some absolute)
    × (wanted ≡ absolute)
    × AreDirectories (λ path. enoent) (codes "/" ∷ []) (codes "r" ∷ [])
    × (some wanted ≡ some resolved_destination)
    × (some repository ≡ some resolved_repository)
    × (platform_path_is_component_prefix resolved_repository resolved_destination ≡ false)
    × (platform_path_is_component_prefix resolved_destination resolved_repository ≡ false)
unfolding from_root
normalized_destination-ok_example =
    normalized_destination-ok (λ path. path) answers wanted repository wanted returns
