-- ===== src/Restore/Plan/Order.antt =====
-- `build_plan` of src/core/restore_engine.cpp: the order of the plan, and the plan. The sort of the standard
-- library is an insertion sort here; the paths of a snapshot differ, so there is one sorted list.
use file_vault.Common.{
  ℕ, Bool, not, List, [], ◌∷◌, length, ltb, ◌==◌, nat_eq, if◌then◌else◌, Result,
}
use file_vault.Database.Entries.{EntryInfo}
use file_vault.Filesystem.Tree.{FilePath}
use file_vault.Restore.Plan.{RestoreRequest, PlannedEntry, Destination, plan_entries}
use file_vault.Restore.Selection.{key_less, path_key}

abbrev pub path_depth : FilePath → ℕ
path_depth path = length path

unfoldable pub goes_before : EntryInfo → EntryInfo → Bool
goes_before left right =
    if not (path_depth left.relative_path == path_depth right.relative_path)
    then ltb (path_depth left.relative_path) (path_depth right.relative_path)
    else key_less (path_key left.relative_path) (path_key right.relative_path)

unfoldable pub insert_ordered : EntryInfo → List EntryInfo → List EntryInfo
insert_ordered entry [] = entry ∷ []
insert_ordered entry (other ∷ entries) =
    let later = insert_ordered entry entries in
    if goes_before other entry then other ∷ later else entry ∷ other ∷ entries

unfoldable pub sort_entries : List EntryInfo → List EntryInfo
sort_entries [] = []
sort_entries (entry ∷ entries) = insert_ordered entry (sort_entries entries)

unfoldable pub build_plan :
    RestoreRequest → Destination → FilePath → List EntryInfo → Result (List PlannedEntry)
build_plan request there root selected =
    plan_entries request there root 0 [] (sort_entries selected)
