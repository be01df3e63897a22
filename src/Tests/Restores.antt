-- ===== src/Tests/Restores.antt =====
-- A file of one chunk is planned and restored on the machine of the tests.
use file_vault.Common.{
  ℕ, All, inl, inr, ◌+◌, ◌≡◌, ◌↔◌, refl, ap, true, false, some, none, List, [], ◌∷◌, codes, length,
  ok, pos, arith, min, u64_max, ◌/◌, ◌*◌,
}
use file_vault.Filesystem.Tree.{FilePath}
use file_vault.Database.Entries.{EntryInfo, EntryType, ChunkReferenceInfo}
use file_vault.Storage.ObjectFiles.{derived_path, hash_raw}
use file_vault.Restore.ChunkList.{validate_chunks, maximum_stored_size}
use file_vault.Restore.ChunkList.Cover.{Covers, validate_chunks_iff, maximum_stored_size-min}
use file_vault.Restore.Content.{restore_content}
use file_vault.Restore.Content.Verified.{Holds, restore_content_sound}
use file_vault.Restore.Content.RoundTrip.{AreStored, restore_content-AreStored}
use file_vault.Restore.Utf8.{is_valid_utf8}
use file_vault.Restore.Utf8.Scalar.{IsScalar, encode_all, is_valid_utf8-encode_all}
use file_vault.Restore.Plan.{
  RestoreRequest, PlannedEntry, RestoreAction, OverwritePolicy, Destination, NoFollowPathType,
  FileStatus, merge_directory,
}
use file_vault.Tests.Machine.{machine, objects, at_start, lengths-Blake3Laws}
use file_vault.Tests.Objects.{
  sample, sample_hash, sample_tree, sample_object, sample_at, sample_valid,
}

abbrev entry_at : FilePath → EntryType → EntryInfo
entry_at path type = record {
  id = pos 1;
  snapshot_id = pos 1;
  relative_path = path;
  type = type;
  logical_size = 3;
  modified_time_ns = pos 0;
  posix_mode = 0;
  windows_attributes = none;
  file_hash_hex = some sample_hash;
  symlink_target = none;
}

abbrev entry : EntryInfo
entry = entry_at (codes "f" ∷ []) EntryType.regular_file

abbrev chunk : ChunkReferenceInfo
chunk = record {
  sequence_number = pos 0;
  hash_hex = sample_hash;
  object_path = derived_path sample_hash;
  raw_offset = 0;
  raw_length = 3;
  raw_size = 3;
  stored_size = 4;
}

validate_chunks_iff_example :
    (validate_chunks entry (chunk ∷ []) 4 ≡ ok tt)
    ↔ Covers 4 (maximum_stored_size 4) 0 0 (chunk ∷ []) 3
validate_chunks_iff_example =
    validate_chunks_iff entry (chunk ∷ []) 4 (omega arith) (omega arith) (omega arith)

maximum_stored_size-min_example :
    maximum_stored_size 4194304 ≡ min u64_max (4194304 + 4194304 / 8 + 64 * 1024)
maximum_stored_size-min_example = maximum_stored_size-min 4194304 (omega arith)

stored : AreStored machine objects sample_tree (chunk ∷ []) sample
unfolding sample_object
stored = (
  sample,
  [],
  refl,
  record {
    stored = 0 ∷ sample;
    valid_hash = sample_valid;
    path = refl;
    at = sample_at;
    object = sample_object;
    content = refl;
    raw_size = refl;
    raw_length = refl;
    stored_size = refl;
  },
  refl,
)

restore_content-AreStored_example :
    (restore_content machine objects (λ i. false) entry (chunk ∷ []) (at_start sample_tree)).0
    ≡ ok sample
restore_content-AreStored_example =
    restore_content-AreStored machine lengths-Blake3Laws (λ n. refl) (λ n point. refl) objects
      (omega arith) (λ i. false) (λ i. refl) entry (chunk ∷ []) (at_start sample_tree) sample
      (omega arith) stored refl refl

restore_content_sound_example :
    Holds machine (chunk ∷ []) sample
    × (some sample_hash ≡ some (hash_raw machine sample))
    × (length sample ≡ 3)
restore_content_sound_example =
    restore_content_sound machine lengths-Blake3Laws objects (λ i. false) entry (chunk ∷ [])
      (at_start sample_tree)
      (restore_content machine objects (λ i. false) entry (chunk ∷ []) (at_start sample_tree)).1
      sample
      (ap
        (λ r. (
          r,
          (restore_content machine objects (λ i. false) entry (chunk ∷ [])
              (at_start sample_tree)).1,
        ))
        restore_content-AreStored_example)

abbrev request : RestoreRequest
request = record { overwrite_policy = OverwritePolicy.never; conflict_resolver = none }

-- A file stands where the directory "d" is to go.
abbrev there : Destination
there = record {
  inspect = λ i path. ok NoFollowPathType.directory;
  status = λ i path. ok (some FileStatus.other);
}

abbrev plan : List PlannedEntry
plan =
    record {
      entry = entry_at [] EntryType.directory;
      action = merge_directory;
      metadata_allowed = true;
    }
    ∷ record {
      entry = entry_at (codes "d" ∷ []) EntryType.directory;
      action = RestoreAction.skip;
      metadata_allowed = false;
    }
    ∷ record {
      entry = entry_at (codes "d" ∷ codes "f" ∷ []) EntryType.regular_file;
      action = RestoreAction.skip;
      metadata_allowed = false;
    }
    ∷ []

abbrev selected_in_any_order : List EntryInfo
selected_in_any_order =
    entry_at (codes "d" ∷ codes "f" ∷ []) EntryType.regular_file
    ∷ entry_at [] EntryType.directory
    ∷ entry_at (codes "d" ∷ []) EntryType.directory
    ∷ []

abbrev scalars : List ℕ
scalars = 0x41 ∷ 0xE9 ∷ 0x20AC ∷ 0x1F600 ∷ []

is_valid_utf8-encode_all_example : is_valid_utf8 (encode_all scalars) ≡ true
is_valid_utf8-encode_all_example = is_valid_utf8-encode_all scalars scalars_are
  where
    scalars_are : All IsScalar scalars
    scalars_are = (
      (omega arith, inl (omega arith)),
      (
        (omega arith, inl (omega arith)),
        ((omega arith, inl (omega arith)), ((omega arith, inr (omega arith)), tt)),
      ),
    )
