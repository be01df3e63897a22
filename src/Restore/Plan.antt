-- ===== src/Restore/Plan.antt =====
-- The planning stage of src/core/restore_engine.cpp: what `build_plan` decides for each selected entry. What
-- the destination looks like is a parameter, which may change from one entry to the next.
pub mod Built
pub mod Order
pub mod Reasons
pub mod Skips
use file_vault.Common.{
  ℕ, suc, ◌+◌, ◌≡◌, Bool, true, false, not, ◌&&◌, ◌||◌, Option, none, some, List, [], ◌∷◌, ◌++◌,
  Bytes, length, any, ltb, ◌==◌, nat_eq, list_eq, if◌then◌else◌, Result, ok, err, out_of_fuel,
  require, ErrorCode, invalid_argument, cancelled, unsafe_restore_path, destination_exists,
}
use file_vault.Common.Checked.{◌>>=◌, ◌>>◌}
use file_vault.Filesystem.Tree.{FilePath, parent_path}
use file_vault.Database.Entries.{EntryInfo, EntryType}

pub data OverwritePolicy : Type 0 where
  never always prompt : OverwritePolicy

pub data ConflictDecision : Type 0 where
  skip replace cancel : ConflictDecision

pub data RestoreAction : Type 0 where
  create merge_directory skip replace : RestoreAction

pub record RestoreRequest : Type 0 where
  pub overwrite_policy : OverwritePolicy
  pub conflict_resolver : Option (FilePath → EntryType → ConflictDecision)

pub record PlannedEntry : Type 0 where
  pub entry : EntryInfo
  pub action : RestoreAction
  pub metadata_allowed : Bool

-- What `inspect_path_no_follow` tells, and the types of a `file_status` that the code tells apart.
pub data NoFollowPathType : Type 0 where
  not_found directory indirection other : NoFollowPathType

pub data FileStatus : Type 0 where
  directory symlink other : FileStatus

-- The destination as it is when an entry of a given number is planned: what `inspect_path_no_follow` and
-- `existing_status` return or throw.
pub record Destination : Type 0 where
  pub inspect : ℕ → FilePath → Result NoFollowPathType
  pub status : ℕ → FilePath → Result (Option FileStatus)

-- Component by component; a path is the list of its components.
unfoldable pub is_component_prefix : FilePath → FilePath → Bool
is_component_prefix [] path = true
is_component_prefix (c ∷ prefix) [] = false
is_component_prefix (c ∷ prefix) (d ∷ path) =
    let rest = is_component_prefix prefix path in if c == d then rest else false

is_real_directory : NoFollowPathType → Bool
is_real_directory NoFollowPathType.directory = true
is_real_directory _ = false

after_ancestor : NoFollowPathType → Result (Unit {0}) → Result (Unit {0})
after_ancestor not_found next = ok tt
after_ancestor indirection next = err unsafe_restore_path
after_ancestor NoFollowPathType.directory next = next
after_ancestor NoFollowPathType.other next = err destination_exists

-- The loop of `require_safe_ancestors`, from `current` down; it ends at what is not there.
unfoldable pub require_ancestors :
    (FilePath → Result NoFollowPathType) → FilePath → FilePath → Result (Unit {0})
unfolding after_ancestor
require_ancestors inspect current [] = ok tt
require_ancestors inspect current (component ∷ rest) =
    let next = require_ancestors inspect (current ++ component ∷ []) rest in
    inspect (current ++ component ∷ []) >>= λ type. after_ancestor type next

unfoldable pub require_safe_ancestors :
    (FilePath → Result NoFollowPathType) → FilePath → FilePath → Result (Unit {0})
unfolding is_real_directory
require_safe_ancestors inspect root relative_path = do
  type ← inspect root
  require (is_real_directory type) unsafe_restore_path
  require_ancestors inspect root (parent_path relative_path)

abbrev pub is_directory_entry : EntryType → Bool
is_directory_entry EntryType.directory = true
is_directory_entry _ = false

-- `std::filesystem::is_directory`, of a status that does not follow links
abbrev pub is_directory_status : FileStatus → Bool
is_directory_status FileStatus.directory = true
is_directory_status _ = false

-- The decision, asked for under the policy `prompt` only.
decide :
    OverwritePolicy
    → Option (FilePath → EntryType → ConflictDecision)
    → FilePath
    → EntryType
    → Result ConflictDecision
decide prompt none destination type = err invalid_argument
decide prompt (some resolver) destination type = ok (resolver destination type)
decide _ resolver destination type = ok replace

is_never : OverwritePolicy → Bool
is_never never = true
is_never _ = false

carry_out : ConflictDecision → Bool → Result RestoreAction
carry_out cancel either_directory = err cancelled
carry_out ConflictDecision.skip either_directory = ok RestoreAction.skip
carry_out ConflictDecision.replace either_directory =
    if either_directory then err destination_exists else ok RestoreAction.replace

unfoldable pub conflict_action :
    RestoreRequest → EntryInfo → FilePath → FileStatus → Result RestoreAction
unfolding decide is_never carry_out
conflict_action request entry destination existing =
    if is_directory_entry entry.type && is_directory_status existing
    then ok merge_directory
    else if is_never request.overwrite_policy
    then ok RestoreAction.skip
    else (decide request.overwrite_policy request.conflict_resolver destination entry.type
        >>= λ decision.
            carry_out decision (is_directory_entry entry.type || is_directory_status existing))

action_for : RestoreRequest → EntryInfo → FilePath → Option FileStatus → Result RestoreAction
action_for request entry destination none = ok create
action_for request entry destination (some existing) =
    conflict_action request entry destination existing

abbrev pub is_skip : RestoreAction → Bool
is_skip RestoreAction.skip = true
is_skip _ = false

unfoldable pub is_root : FilePath → Bool
is_root [] = true
is_root (c ∷ path) = false

abbrev pub added : EntryInfo → RestoreAction → List FilePath → List FilePath
added entry action skipped_directories =
    if is_skip action && is_directory_entry entry.type
    then entry.relative_path ∷ skipped_directories
    else skipped_directories

module _ (request : RestoreRequest) (there : Destination) (root : FilePath) where
  -- `action` for an entry that is not below a skipped directory
  unfoldable pub plan_action : ℕ → EntryInfo → Result RestoreAction
  unfolding action_for
  plan_action i entry = do
    require_safe_ancestors (there.inspect i) root entry.relative_path
    status ← there.status i (root ++ entry.relative_path)
    action_for request entry (root ++ entry.relative_path) status

  abbrev cons_plan : PlannedEntry → Result (List PlannedEntry) → Result (List PlannedEntry)
  cons_plan planned rest = rest >>= λ plan. ok (planned ∷ plan)

  -- The loop, over the sorted entries.
  unfoldable pub plan_entries : ℕ → List FilePath → List EntryInfo → Result (List PlannedEntry)
  unfolding is_root
  plan_entries i skipped_directories [] = ok []
  plan_entries i skipped_directories (entry ∷ selected) =
      let continue = λ (skipped : List FilePath). plan_entries (suc i) skipped selected in
      if is_root entry.relative_path
      then cons_plan (record { entry = entry; action = merge_directory; metadata_allowed = true })
          (continue skipped_directories)
      else if any (λ skipped. is_component_prefix skipped entry.relative_path) skipped_directories
      then cons_plan
          (record { entry = entry; action = RestoreAction.skip; metadata_allowed = false })
          (continue skipped_directories)
      else (plan_action i entry >>= λ action.
          cons_plan
            (record { entry = entry; action = action; metadata_allowed = not (is_skip action) })
            (continue (added entry action skipped_directories)))
