-- ===== src/Restore/Plan/Built.antt =====
-- What a plan is, whatever order the entries were selected in.
use mathlib.Core.List.{Perm}
use mathlib.Core.List.Perm
use file_vault.Common.{◌≤◌, ◌≡◌, true, false, List, [], ◌∷◌, ◌++◌, map, All, Bytes, nat_eq, list_eq}
use file_vault.Database.Entries.{EntryInfo}
use file_vault.Filesystem.Tree.{FilePath}
use file_vault.Restore.Plan.{RestoreRequest, PlannedEntry, RestoreAction, is_directory_entry}
use file_vault.Restore.Plan.Order.{path_depth}
use file_vault.Restore.Plan.Reasons.{HasReason}
use file_vault.Restore.Plan.Skips.{Allowed}

-- No entry is deeper than a later one.
abbrev pub ByDepth : List EntryInfo → Type 0
ByDepth [] = Unit
ByDepth (entry ∷ entries) =
    All (λ (later : EntryInfo). path_depth entry.relative_path ≤ path_depth later.relative_path)
      entries
    × ByDepth entries

-- If the first is a directory that is skipped, the second is skipped wherever it lies below that, and its
-- metadata left alone.
abbrev pub SkipsBelow : PlannedEntry → PlannedEntry → Type 0
SkipsBelow first second =
    first.action ≡ RestoreAction.skip
    → is_directory_entry first.entry.type ≡ true
    → (c : Bytes) (rest : FilePath)
    → second.entry.relative_path ≡ first.entry.relative_path ++ c ∷ rest
    → (second.action ≡ RestoreAction.skip) × (second.metadata_allowed ≡ false)

pub record IsPlanOf (request : RestoreRequest) (root : FilePath) (selected : List EntryInfo)
    (plan : List PlannedEntry) : Type 0 where
  pub same : Perm (map (λ (p : PlannedEntry). p.entry) plan) selected
  pub by_depth : ByDepth (map (λ (p : PlannedEntry). p.entry) plan)
  pub allowed : All (Allowed request root) plan
  pub reasons : All (HasReason request root plan) plan
  pub skips : All (λ first. All (SkipsBelow first) plan) plan
