-- ===== src/Restore/Selection.antt =====
-- `select_entries` of src/core/restore_engine.cpp. A `std::map` from keys to entries is the list of its pairs in the
-- order of the keys; the set of selected keys stands with the entries that `by_path` has at them. A null pointer
-- is none.
pub mod Closed
pub mod Maps
pub mod Returns
pub mod Steps
use file_vault.Common.{
  ℕ, zero, suc, ◌≡◌, Bool, true, false, not, Option, none, some, List, [], ◌∷◌, Bytes, length, map,
  ltb, ◌==◌, nat_eq, list_eq, if◌then◌else◌, Result, ok, err, out_of_fuel, require, ErrorCode,
  invalid_argument, database_error,
}
use file_vault.Common.Checked.{◌>>=◌, ◌>>◌}
use file_vault.Database.Entries.{EntryInfo}
use file_vault.Filesystem.Scanner.{generic_string}
use file_vault.Filesystem.Tree.{FilePath, parent_path}
use file_vault.Restore.Plan.{is_component_prefix, is_directory_entry}
use file_vault.Restore.Paths.{is_safe_stored_path, is_empty_path}

abbrev pub PathMap : Type 0
PathMap = List (Bytes × EntryInfo)

abbrev pub path_key : FilePath → Bytes
path_key path = generic_string path

-- the order of `std::string`
unfoldable pub key_less : Bytes → Bytes → Bool
key_less [] [] = false
key_less [] (d ∷ right) = true
key_less (c ∷ left) [] = false
key_less (c ∷ left) (d ∷ right) =
    let rest = key_less left right in if ltb c d then true else if ltb d c then false else rest

unfoldable pub find : Bytes → PathMap → Option EntryInfo
find key [] = none
find key ((here, entry) ∷ nodes) =
    let later = find key nodes in if key == here then some entry else later

unfoldable pub insert_sorted : Bytes → EntryInfo → PathMap → PathMap
insert_sorted key entry [] = (key, entry) ∷ []
insert_sorted key entry ((here, other) ∷ nodes) =
    let later = insert_sorted key entry nodes in
    if key_less key here then (key, entry) ∷ (here, other) ∷ nodes else (here, other) ∷ later

-- An insertion where the key is there changes nothing.
unfoldable pub emplace_where : Option EntryInfo → Bytes → EntryInfo → PathMap → PathMap
emplace_where (some other) key entry nodes = nodes
emplace_where none key entry nodes = insert_sorted key entry nodes

unfoldable pub emplace : Bytes → EntryInfo → PathMap → PathMap
emplace key entry nodes = emplace_where (find key nodes) key entry nodes

-- the first loop, with `root`
unfoldable pub index_entries :
    List EntryInfo → Option EntryInfo → PathMap → Option EntryInfo × PathMap
index_entries [] root by_path = (root, by_path)
index_entries (entry ∷ entries) root by_path =
    index_entries entries (if is_empty_path entry.relative_path then some entry else root) (
      if is_empty_path entry.relative_path
      then by_path
      else emplace (path_key entry.relative_path) entry by_path)

unfoldable pub select_below : FilePath → PathMap → PathMap → PathMap
select_below normalized [] selected = selected
select_below normalized ((key, candidate) ∷ nodes) selected = select_below normalized nodes (
    if is_component_prefix normalized candidate.relative_path
    then emplace key candidate selected
    else selected)

unfoldable pub found_or : Option EntryInfo → Result EntryInfo
found_or none = err invalid_argument
found_or (some entry) = ok entry

unfoldable pub select_found : FilePath → EntryInfo → PathMap → PathMap → PathMap
select_found normalized entry by_path selected =
    if is_directory_entry entry.type
    then select_below normalized by_path (emplace (path_key normalized) entry selected)
    else emplace (path_key normalized) entry selected

unfoldable pub directory_or : Option EntryInfo → Result EntryInfo
directory_or none = err database_error
directory_or (some entry) = if is_directory_entry entry.type then ok entry else err database_error

-- The loop `while (!parent.empty())`, which runs on fuel.
unfoldable pub select_parents : ℕ → PathMap → FilePath → PathMap → Result PathMap
select_parents zero by_path parent selected = out_of_fuel
select_parents (suc fuel) by_path parent selected =
    if is_empty_path parent
    then ok selected
    else (directory_or (find (path_key parent) by_path) >>= λ entry.
        select_parents fuel by_path (parent_path parent) (emplace (path_key parent) entry selected))

-- the loop on `descendant_keys`
unfoldable pub select_ancestors : PathMap → PathMap → PathMap → Result PathMap
select_ancestors by_path [] selected = ok selected
select_ancestors by_path ((key, entry) ∷ descendants) selected =
    select_parents (suc (length entry.relative_path)) by_path (parent_path entry.relative_path)
      selected
    >>= λ more. select_ancestors by_path descendants more

module _ (lexically_normal : FilePath → FilePath) (by_path : PathMap) where
  unfoldable pub select_requested : List FilePath → PathMap → Result PathMap
  select_requested [] selected = ok selected
  select_requested (requested ∷ paths) selected = do
    require (is_safe_stored_path lexically_normal requested) invalid_argument
    entry ← found_or (find (path_key (lexically_normal requested)) by_path)
    select_requested paths (select_found (lexically_normal requested) entry by_path selected)

  unfoldable pub select_keys : List FilePath → Result PathMap
  select_keys requested_paths = do
    descendants ← select_requested requested_paths []
    select_ancestors by_path descendants descendants

unfoldable pub pointers : PathMap → List (Option EntryInfo)
pointers [] = []
pointers ((key, entry) ∷ nodes) = some entry ∷ pointers nodes

unfoldable pub select_entries :
    (FilePath → FilePath) → List EntryInfo → List FilePath → Result (List (Option EntryInfo))
select_entries lexically_normal entries [] = ok (map some entries)
select_entries lexically_normal entries (requested ∷ paths) = do
  selected ← select_keys lexically_normal (index_entries entries none []).1 (requested ∷ paths)
  ok ((index_entries entries none []).0 ∷ pointers selected)
