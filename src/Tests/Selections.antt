-- ===== src/Tests/Selections.antt =====
-- A file is selected from a small snapshot, with the directory above it.
use file_vault.Common.{◌≡◌, refl, none, some, List, [], ◌∷◌, codes, ok, All, Option, Bytes}
use file_vault.Common.Exec.Halts.{Finishes}
use file_vault.Database.Entries.{EntryInfo, EntryType}
use file_vault.Filesystem.Scanner.{generic_string}
use file_vault.Filesystem.Tree.{FilePath}
use file_vault.Restore.Plan.{is_component_prefix}
use file_vault.Restore.Paths.{is_empty_path, is_safe_stored_path, has_root_path, is_dot_component}
use file_vault.Restore.Selection.{
  PathMap, index_entries, select_entries, select_keys, select_requested, select_found,
  select_ancestors, select_parents, select_below, emplace, emplace_where, insert_sorted, key_less,
  find, found_or, directory_or, pointers,
}
use file_vault.Restore.Selection.Closed.{Selects, HasAncestors, select_entries-Selects}
use file_vault.Restore.Selection.Maps.{Grows}
use file_vault.Restore.Selection.Returns.{select_entries-Finishes}
use file_vault.Restore.Utf8.{is_valid_utf8, valid_from, sequence_length, sequence_here, is_excluded}
use file_vault.Tests.Destinations.{entry_at}

abbrev root : EntryInfo
root = entry_at [] EntryType.directory

abbrev directory_d : EntryInfo
directory_d = entry_at (codes "d" ∷ []) EntryType.directory

abbrev file_f : EntryInfo
file_f = entry_at (codes "d" ∷ codes "f" ∷ []) EntryType.regular_file

abbrev file_g : EntryInfo
file_g = entry_at (codes "g" ∷ []) EntryType.regular_file

abbrev entries : List EntryInfo
entries = root ∷ file_g ∷ file_f ∷ directory_d ∷ []

abbrev wanted : FilePath
wanted = codes "d" ∷ codes "f" ∷ []

selects :
    select_entries (λ path. path) entries (wanted ∷ [])
    ≡ ok (some root ∷ some directory_d ∷ some file_f ∷ [])
unfolding select_entries select_keys select_requested is_safe_stored_path has_root_path
    is_dot_component is_valid_utf8 valid_from sequence_length sequence_here is_excluded
    generic_string found_or find index_entries emplace emplace_where insert_sorted key_less
    select_ancestors select_found is_empty_path is_component_prefix directory_or pointers
    select_below select_parents
selects = refl

select_entries-Finishes_example : Finishes (select_entries (λ path. path) entries (wanted ∷ []))
select_entries-Finishes_example = select_entries-Finishes (λ path. path) entries (wanted ∷ [])

select_entries-Selects_example :
    (requested : PathMap) × (selected : PathMap) × (◌≡◌ {A = List (Option EntryInfo)}
      (some root ∷ some directory_d ∷ some file_f ∷ [])
      ((index_entries entries none []).0 ∷ pointers selected))
    × Grows selected (index_entries entries none []).1
    × Grows requested selected
    × All (λ p. Selects (index_entries entries none []).1 requested p) (wanted ∷ [])
    × All (λ (node : Bytes × EntryInfo). HasAncestors selected node.1) requested
select_entries-Selects_example = select_entries-Selects (λ path. path) entries wanted [] _ selects
