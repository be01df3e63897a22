-- ===== src/Restore/Selection/Returns.antt =====
-- The selection of entries comes to an end.
use file_vault.Common.{
  ℕ, zero, suc, ◌≡◌, ◌≤◌, ◌<◌, inl, inr, false, Option, none, some, List, [], ◌∷◌, Bytes, length,
  map, Bool-cases, arith, invalid_argument, database_error,
}
use file_vault.Common.Exec.Halts.{
  Finishes, Finishes-ok, Finishes-err, Finishes-if, Finishes-require, Finishes-bind,
}
use file_vault.Database.Entries.{EntryInfo}
use file_vault.Filesystem.Tree.{FilePath, parent_path}
use file_vault.Restore.Plan.{is_directory_entry}
use file_vault.Restore.Paths.{is_empty_path, is_safe_stored_path}
use file_vault.Restore.Selection.{
  PathMap, path_key, find, index_entries, found_or, directory_or, select_parents, select_ancestors,
  select_requested, select_keys, select_entries,
}

parent_path-shorter : (c : Bytes) (path : FilePath) → length (parent_path (c ∷ path)) ≤ length path
parent_path-shorter c [] = omega arith
parent_path-shorter c (d ∷ path) = omega (arith, parent_path-shorter d path)

length-parent_path : (path : FilePath) → length (parent_path path) ≤ length path
length-parent_path [] = omega arith
length-parent_path (c ∷ path) = omega (arith, parent_path-shorter c path)

shorter :
    (path : FilePath) (fuel : ℕ)
    → is_empty_path path ≡ false
    → length path < suc fuel
    → length (parent_path path) < fuel
unfolding is_empty_path
shorter [] fuel full enough = cc
shorter (c ∷ path) fuel full enough = omega (arith, parent_path-shorter c path)

found_or-Finishes : (o : Option EntryInfo) → Finishes (found_or o)
unfolding found_or
found_or-Finishes none = Finishes-err invalid_argument
found_or-Finishes (some entry) = Finishes-ok entry

directory_or-Finishes : (o : Option EntryInfo) → Finishes (directory_or o)
unfolding directory_or
directory_or-Finishes none = Finishes-err database_error
directory_or-Finishes (some entry) =
    Finishes-if (is_directory_entry entry.type) _ _ (Finishes-ok entry)
      (Finishes-err database_error)

module _ (by_path : PathMap) where
  select_parents-Finishes :
      (fuel : ℕ) (parent : FilePath) (selected : PathMap)
      → length parent < fuel
      → Finishes (select_parents fuel by_path parent selected)
  unfolding select_parents
  select_parents-Finishes zero parent selected enough = absurd (omega arith)
  select_parents-Finishes (suc fuel) parent selected enough =
      elim (Bool-cases (is_empty_path parent)) [
        | inl empty ↦ rw empty (Finishes-ok selected)
        | inr full ↦ rw full (
            Finishes-bind (directory_or (find (path_key parent) by_path)) _
              (directory_or-Finishes _)
              (λ entry.
                select_parents-Finishes fuel (parent_path parent) _
                  (shorter parent fuel full enough)))
      ]

  select_ancestors-Finishes :
      (nodes selected : PathMap) → Finishes (select_ancestors by_path nodes selected)
  unfolding select_ancestors
  select_ancestors-Finishes [] selected = Finishes-ok selected
  select_ancestors-Finishes ((key, entry) ∷ nodes) selected =
      Finishes-bind _ _
        (select_parents-Finishes (suc (length entry.relative_path))
          (parent_path entry.relative_path) selected
          (omega (arith, length-parent_path entry.relative_path)))
        (λ more. select_ancestors-Finishes nodes more)

  select_requested-Finishes :
      (lexically_normal : FilePath → FilePath) (paths : List FilePath) (selected : PathMap)
      → Finishes (select_requested lexically_normal by_path paths selected)
  unfolding select_requested
  select_requested-Finishes lexically_normal [] selected = Finishes-ok selected
  select_requested-Finishes lexically_normal (path ∷ paths) selected =
      Finishes-bind _ _
        (Finishes-require (is_safe_stored_path lexically_normal path) invalid_argument)
        (λ _.
          Finishes-bind _ _ (found_or-Finishes _)
            (λ entry. select_requested-Finishes lexically_normal paths _))

-- The selection of entries comes to a result or an error.
pub select_entries-Finishes :
    (lexically_normal : FilePath → FilePath) (entries : List EntryInfo) (paths : List FilePath)
    → Finishes (select_entries lexically_normal entries paths)
unfolding select_entries select_keys
select_entries-Finishes lexically_normal entries [] = Finishes-ok (map some entries)
select_entries-Finishes lexically_normal entries (path ∷ paths) =
    let by_path = (index_entries entries none []).1 in
    Finishes-bind _ _
      (Finishes-bind _ _ (select_requested-Finishes by_path lexically_normal (path ∷ paths) [])
        (λ requested. select_ancestors-Finishes by_path requested requested))
      (λ selected. Finishes-ok _)
