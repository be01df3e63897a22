-- ===== src/Restore/Selection/Closed.antt =====
-- What `select_entries` selects.
use mathlib.Core.Path.{subst}
use file_vault.Common.{
  suc, ◌≡◌, ◌≢◌, refl, sym, ap, ◌∙◌, Bool, true, false, Option, none, some, List, [], ◌∷◌, ◌++◌,
  Bytes, All, nat_eq, list_eq, if◌then◌else◌, ok, length, require, invalid_argument,
}
use file_vault.Common.Checked.{>>=-eq-ok}
use file_vault.Database.Entries.{EntryInfo, EntryType, directory, regular_file, symbolic_link}
use file_vault.Filesystem.Tree.{FilePath, parent_path}
use file_vault.Restore.Plan.{is_component_prefix, is_directory_entry}
use file_vault.Restore.Paths.{is_empty_path, is_safe_stored_path}
use file_vault.Restore.Selection.{
  PathMap, path_key, find, emplace, index_entries, select_below, found_or, select_found,
  select_parents, select_ancestors, select_requested, select_keys, pointers, select_entries,
}
use file_vault.Restore.Selection.Steps.{
  Extends, Extends-refl, Extends-trans, emplaced, select_below-Extends, select_below-found, Climbs,
  select_parents-Climbs, parent_path-append, returned,
}
use file_vault.Restore.Selection.Maps.{Grows, IsMap, emplace-found, emplace-IsMap}

-- The node of a path that was asked for, and of a directory all that lies below it.
pub record Selects (by_path selected : PathMap) (path : FilePath) : Type 0 where
  pub entry : EntryInfo
  pub here : find (path_key path) selected ≡ some entry
  pub below :
      entry.type ≡ directory
      → (key : Bytes) (e : EntryInfo) → find key by_path ≡ some e
      → is_component_prefix path e.relative_path ≡ true
      → find key selected ≡ some e

-- A directory stands at each path above the one of the entry.
abbrev pub HasAncestors : PathMap → EntryInfo → Type 0
HasAncestors selected entry =
    (above : FilePath) (c : Bytes) (rest : FilePath)
    → above ≢ []
    → entry.relative_path ≡ above ++ c ∷ rest
    → (d : EntryInfo) × (find (path_key above) selected ≡ some d) × (d.type ≡ directory)

index-IsMap :
    (entries : List EntryInfo) (root : Option EntryInfo) (m : PathMap)
    → IsMap m
    → IsMap (index_entries entries root m).1
unfolding index_entries
index-IsMap [] root m i = i
index-IsMap (entry ∷ entries) root m i =
    index-IsMap entries _ _ (go (is_empty_path entry.relative_path))
  where
    go : (b : Bool) → IsMap (if b then m else emplace (path_key entry.relative_path) entry m)
    go true = i
    go false = emplace-IsMap (path_key entry.relative_path) entry m i

nothing : (m : PathMap) → Grows [] m
unfolding find
nothing m k x p = cc

module _ (by_path : PathMap) where
  select_ancestors-HasAncestors :
      (nodes m n : PathMap)
      → Grows m by_path
      → select_ancestors by_path nodes m ≡ ok n
      → Extends by_path m n × All (λ (node : Bytes × EntryInfo). HasAncestors n node.1) nodes
  unfolding select_ancestors Climbs
  select_ancestors-HasAncestors [] m n part e =
      (subst (Extends by_path m) (returned e) (Extends-refl by_path m), tt)
  select_ancestors-HasAncestors ((key, entry) ∷ nodes) m n part e =
      let (more, climbed, e') =
        >>=-eq-ok
          (select_parents (suc (length entry.relative_path)) by_path
            (parent_path entry.relative_path) m)
          _ e in
      let (extends, climbs) = select_parents-Climbs by_path _ _ m more part climbed in
      let (extends', others) = select_ancestors-HasAncestors nodes more n (extends.part part) e' in
      (
        Extends-trans by_path extends extends',
        (
          λ above c rest nonempty split.
              let (d, there, is_dir) =
                climbs above (parent_path (c ∷ rest)) nonempty
                  (ap parent_path split ∙ parent_path-append above c rest) in
              (d, extends'.grows (path_key above) d there, is_dir),
          others,
        ),
      )

  module _ (lexically_normal : FilePath → FilePath) (nodes : IsMap by_path) where
    select_found-Selects :
        (path : FilePath) (entry : EntryInfo) (m : PathMap)
        → Grows m by_path
        → find (path_key path) by_path ≡ some entry
        → Extends by_path m (select_found path entry by_path m)
          × Selects by_path (select_found path entry by_path m) path
    unfolding select_found
    select_found-Selects path entry m part there = go entry.type refl
      where
        start : Extends by_path m (emplace (path_key path) entry m)
        start = emplaced by_path (path_key path) entry m there

        at_path : find (path_key path) (emplace (path_key path) entry m) ≡ some entry
        at_path = emplace-found (path_key path) entry m by_path part there

        Goal : PathMap → Type 0
        Goal n = Extends by_path m n × Selects by_path n path

        plain :
            (entry.type ≡ directory
              → (key : Bytes) (e : EntryInfo) → find key by_path ≡ some e
              → is_component_prefix path e.relative_path ≡ true
              → find key (emplace (path_key path) entry m) ≡ some e)
            → Goal (emplace (path_key path) entry m)
        plain below = (start, record { entry = entry; here = at_path; below = below })

        go :
            (type : EntryType)
            → entry.type ≡ type
            → Goal (
                if is_directory_entry type
                then select_below path by_path (emplace (path_key path) entry m)
                else emplace (path_key path) entry m)
        go directory t =
            let below = select_below-Extends by_path path by_path _ nodes in
            (
              Extends-trans by_path start below,
              record {
                entry = entry;
                here = below.grows (path_key path) entry at_path;
                below = λ is_dir key e at_key is_below.
                    select_below-found by_path path by_path _ nodes (start.part part) key e at_key
                      is_below;
              },
            )
        go regular_file t = plain (λ is_dir. absurd (apart (sym t ∙ is_dir)))
          where
            apart : regular_file ≢ directory
            apart p = cc
        go symbolic_link t = plain (λ is_dir. absurd (apart (sym t ∙ is_dir)))
          where
            apart : symbolic_link ≢ directory
            apart p = cc

    found_or-ok : (o : Option EntryInfo) (x : EntryInfo) → found_or o ≡ ok x → o ≡ some x
    unfolding found_or
    found_or-ok none x e = cc
    found_or-ok (some y) x e = ap some (cc)

    Selects-Grows :
        {m n : PathMap} (path : FilePath)
        → Grows m n
        → Selects by_path m path
        → Selects by_path n path
    Selects-Grows path grows s = record {
      entry = s.entry;
      here = grows (path_key path) s.entry s.here;
      below = λ is_dir key e there is_below. grows key e (s.below is_dir key e there is_below);
    }

    select_requested-Selects :
        (paths : List FilePath) (m n : PathMap)
        → Grows m by_path
        → select_requested lexically_normal by_path paths m ≡ ok n
        → Extends by_path m n × All (λ path. Selects by_path n (lexically_normal path)) paths
    unfolding select_requested
    select_requested-Selects [] m n part e =
        (subst (Extends by_path m) (returned e) (Extends-refl by_path m), tt)
    select_requested-Selects (path ∷ paths) m n part e =
        let (_, safe, e1) =
          >>=-eq-ok (require (is_safe_stored_path lexically_normal path) invalid_argument) _ e in
        let (entry, found, e2) =
          >>=-eq-ok (found_or (find (path_key (lexically_normal path)) by_path)) _ e1 in
        let (extends, selects) =
          select_found-Selects (lexically_normal path) entry m part (found_or-ok _ entry found) in
        let (extends', others) = select_requested-Selects paths _ n (extends.part part) e2 in
        (
          Extends-trans by_path extends extends',
          (Selects-Grows (lexically_normal path) extends'.grows selects, others),
        )

-- If entries are selected for a nonempty list of paths, they are the root with the nodes of a map
-- `selected` for which there is a map `requested`: all are entries of the snapshot; `requested` has
-- the entry of each path, and if that is a directory every entry below it; and `selected` has besides,
-- for each entry of `requested`, a directory at every path above it.
pub select_entries-Selects :
    (lexically_normal : FilePath → FilePath) (entries : List EntryInfo) (path : FilePath)
    (paths : List FilePath) (chosen : List (Option EntryInfo))
    → select_entries lexically_normal entries (path ∷ paths) ≡ ok chosen
    → (requested : PathMap) × (selected : PathMap) × (chosen
        ≡ (index_entries entries none []).0 ∷ pointers selected)
      × Grows selected (index_entries entries none []).1
      × Grows requested selected
      × All
          (λ p. Selects (index_entries entries none []).1 requested (lexically_normal p))
          (path ∷ paths)
      × All (λ (node : Bytes × EntryInfo). HasAncestors selected node.1) requested
unfolding select_entries select_keys
select_entries-Selects lexically_normal entries path paths chosen e =
    let by_path = (index_entries entries none []).1 in
    let (selected, keys, e1) =
      >>=-eq-ok (select_keys lexically_normal by_path (path ∷ paths)) _ e in
    let (requested, first, second) =
      >>=-eq-ok (select_requested lexically_normal by_path (path ∷ paths) []) _ keys in
    let (extends, selects) =
      select_requested-Selects by_path lexically_normal (index-IsMap entries none [] tt)
        (path ∷ paths) [] requested (nothing by_path) first in
    let (extends', climbs) =
      select_ancestors-HasAncestors by_path requested requested selected
        (extends.part (nothing by_path)) second in
    (
      requested,
      selected,
      sym (same e1),
      extends'.part (extends.part (nothing by_path)),
      extends'.grows,
      selects,
      climbs,
    )
  where
    same : {a b : List (Option EntryInfo)} → ok a ≡ ok b → a ≡ b
    same p = cc
