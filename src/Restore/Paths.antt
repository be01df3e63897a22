-- ===== src/Restore/Paths.antt =====
-- The tests on paths of src/core/restore_engine.cpp, and path_safety.hpp with posix_path_safety.cpp. A path
-- is the list of the components that iterating over it gives, of which "/" is the root. The answers of the
-- system and `lexically_normal` of the standard library are parameters.
pub mod Destination
pub mod Entries
use file_vault.Common.{
  ℕ, suc, Bool, true, false, not, ◌&&◌, ◌||◌, Option, none, some, List, [], ◌∷◌, ◌++◌, Bytes, codes,
  any, ◌==◌, nat_eq, list_eq, if◌then◌else◌, Result, ok, err, out_of_fuel, require,
  invalid_argument, filesystem_error, unsafe_restore_path, destination_exists, database_error,
}
use file_vault.Common.Checked.{◌>>=◌, ◌>>◌}
use file_vault.Database.Entries.{EntryInfo, EntryType, regular_file, directory, symbolic_link}
use file_vault.Filesystem.Scanner.{generic_string}
use file_vault.Filesystem.Tree.{FilePath}
use file_vault.Restore.Plan.{
  NoFollowPathType, not_found, indirection, is_component_prefix, is_directory_entry,
}
use file_vault.Restore.Utf8.{is_valid_utf8}

-- What `lstat` reports: an error number, or the type of the file.
pub data Lstat : Type 0 where
  enoent enotdir other_error link directory_found other_found : Lstat

unfoldable pub inspect_path_no_follow : Lstat → Result NoFollowPathType
inspect_path_no_follow enoent = ok not_found
inspect_path_no_follow enotdir = ok not_found
inspect_path_no_follow other_error = err filesystem_error
inspect_path_no_follow link = ok indirection
inspect_path_no_follow directory_found = ok NoFollowPathType.directory
inspect_path_no_follow other_found = ok NoFollowPathType.other

-- the loop of `platform_path_is_component_prefix`, the same as that of `is_component_prefix`
unfoldable pub platform_path_is_component_prefix : FilePath → FilePath → Bool
platform_path_is_component_prefix prefix path = is_component_prefix prefix path

abbrev pub root_component : Bytes
root_component = codes "/"

unfoldable pub has_root_path : FilePath → Bool
has_root_path [] = false
has_root_path (component ∷ path) = component == root_component

unfoldable pub is_dot_component : Bytes → Bool
is_dot_component component = component == [] || component == codes "." || component == codes ".."

unfoldable pub is_empty_path : FilePath → Bool
is_empty_path [] = true
is_empty_path (component ∷ path) = false

unfoldable pub is_safe_stored_path : (FilePath → FilePath) → FilePath → Bool
unfolding is_empty_path
is_safe_stored_path lexically_normal path =
    if is_empty_path path || has_root_path path || not (lexically_normal path == path)
    then false
    else if any is_dot_component path
    then false
    else is_valid_utf8 (generic_string path)

-- The test of one entry in the loop of `validate_entries`, and whether it is the root.
unfoldable pub validate_entry : (FilePath → FilePath) → EntryInfo → Result Bool
unfolding is_empty_path
validate_entry lexically_normal entry =
    if is_empty_path entry.relative_path
    then (if is_directory_entry entry.type then ok true else err database_error)
    else if is_safe_stored_path lexically_normal entry.relative_path
    then ok false
    else err unsafe_restore_path

unfoldable pub count_roots : (FilePath → FilePath) → ℕ → List EntryInfo → Result ℕ
count_roots lexically_normal root_count [] = ok root_count
count_roots lexically_normal root_count (entry ∷ entries) = do
  is_root ← validate_entry lexically_normal entry
  count_roots lexically_normal (if is_root then suc root_count else root_count) entries

unfoldable pub validate_entries : (FilePath → FilePath) → List EntryInfo → Result (Unit {0})
validate_entries lexically_normal entries = do
  root_count ← count_roots lexically_normal 0 entries
  require (root_count == 1) database_error

-- What the system answers about a destination; none is an error.
pub record DestinationAnswers : Type 0 where
  pub absolute : Option FilePath
  pub inspect : FilePath → Lstat
  pub weakly_canonical : FilePath → Option FilePath

or_filesystem_error : {A : Type 0} → Option A → Result A
or_filesystem_error none = err filesystem_error
or_filesystem_error (some a) = ok a

after_inspection : NoFollowPathType → Result (Unit {0}) → Result (Unit {0})
after_inspection not_found next = ok tt
after_inspection indirection next = err unsafe_restore_path
after_inspection NoFollowPathType.directory next = next
after_inspection NoFollowPathType.other next = err destination_exists

-- the loop on the components, from `current` down
unfoldable pub inspect_ancestors : (FilePath → Lstat) → FilePath → FilePath → Result (Unit {0})
unfolding after_inspection
inspect_ancestors inspect current [] = ok tt
inspect_ancestors inspect current (component ∷ rest) =
    let next = inspect_ancestors inspect (current ++ component ∷ []) rest in
    inspect_path_no_follow (inspect (current ++ component ∷ [])) >>= λ type.
    after_inspection type next

-- the components without the root, below `current`
unfoldable pub from_root : FilePath → FilePath × FilePath
from_root [] = ([], [])
from_root (component ∷ path) =
    if component == root_component then (component ∷ [], path) else ([], component ∷ path)

unfoldable pub normalized_destination :
    (FilePath → FilePath) → DestinationAnswers → FilePath → FilePath → Result FilePath
unfolding or_filesystem_error from_root is_empty_path
normalized_destination lexically_normal answers requested repository_root = do
  require (not (is_empty_path requested)) invalid_argument
  absolute ← or_filesystem_error answers.absolute
  inspect_ancestors answers.inspect (from_root (lexically_normal absolute)).0
      (from_root (lexically_normal absolute)).1
  resolved_destination ← or_filesystem_error (answers.weakly_canonical (lexically_normal absolute))
  resolved_repository ← or_filesystem_error (answers.weakly_canonical repository_root)
  require
      (not (
        platform_path_is_component_prefix resolved_repository resolved_destination
        || platform_path_is_component_prefix resolved_destination resolved_repository))
      unsafe_restore_path
  ok (lexically_normal absolute)
