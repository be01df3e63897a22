-- ===== src/Tests/Captures.antt =====
-- A file of one byte is captured and restored on the machine of the tests.
use mathlib.Core.Path.{subst}
use file_vault.Common.{
  ℕ, ◌≤◌, ◌≡◌, ◌≢◌, ◌⊎◌, inl, inr, refl, sym, ap, ◌∙◌, true, false, none, some, List, [], ◌∷◌,
  Bytes, map, length, pos, ok, arith, u64_max, replicate,
}
use file_vault.Common.Exec.{◌>>=◌}
use file_vault.Common.Exec.Halts.{Halts}
use file_vault.Database.Entries.{EntryInfo, regular_file}
use file_vault.Filesystem.FileMetadata.{PlatformFileMetadata, same_stable_identity}
use file_vault.Filesystem.Scanner.{ScannedEntry}
use file_vault.Filesystem.Tree.{create_directories}
use file_vault.Storage.Blake3Hasher.{to_hex, update_impl}
use file_vault.Storage.Blake3Hasher.Hex.{to_hex-injective}
use file_vault.Storage.Chunker.{Chunker, make, read_file, for_each_chunk_of_file, for_each_chunk}
use file_vault.Storage.ZstdCodec.{compress}
use file_vault.Storage.World.{State, StoredObject}
use file_vault.Storage.ObjectFiles.{
  derived_path, hash_raw, regular_file_size, ensure_directory, flush_containing_directory,
  temporary_file, temporary_write, temporary_sync, publish,
}
use file_vault.Storage.ObjectStore.{
  store, find_existing, find_known, store_new, find_existing_file, write_object, remember,
}
use file_vault.Storage.ObjectStore.Described.{Describes, store-Describes}
use file_vault.Restore.Content.{restore_content}
use file_vault.Snapshot.Counters.{add_bytes, checked_sequence}
use file_vault.Snapshot.Worker.{
  Observed, ProcessedEntry, ChunkReferenceRecord, scanned, attempts, rounds_of_file, process_job,
  read_source, conclude, captured, confirm_unchanged, keeping_error, store_chunk, append, record_of,
  on_store, update_hasher, count_chunk, fresh_attempt,
}
use file_vault.Snapshot.Worker.Halts.{process_job-Halts}
use file_vault.Snapshot.Worker.Pieces.{KnownDistinct, PiecesKnown}
use file_vault.Snapshot.RoundTrip.{attempts-restore_content, calm}
use file_vault.Snapshot.Writer.{reference}
use file_vault.Tests.Machine.{
  frames-ZstdLaws, lengths-Blake3Laws, machine, objects, empty_tree, at_start,
}

abbrev content : Bytes
content = 7 ∷ []

-- the content and its pieces
abbrev Known : Bytes → Type 0
Known x = (x ≡ []) ⊎ (x ≡ content)

content_parts : PiecesKnown Known content
content_parts [] [] z e = inl refl
content_parts [] (b ∷ []) z e = inr (let same : b ≡ 7 = cc in ap (λ c. c ∷ []) same)
content_parts [] (b ∷ c ∷ y) z e = cc
content_parts (a ∷ []) [] z e = inl refl
content_parts (a ∷ []) (b ∷ y) z e = cc
content_parts (a ∷ b ∷ x) y z e = cc

apart : hash_raw machine [] ≢ hash_raw machine content
unfolding hash_raw update_impl
apart e = absurd (
    zero_is_one
      (ap first (to_hex-injective (replicate 32 0) (replicate 32 1) (omega arith) (omega arith) e)))
  where
    first : Bytes → ℕ
    first [] = 0
    first (b ∷ bytes) = b

    zero_is_one : ◌≡◌ {A = ℕ} 0 1 → ⊥
    zero_is_one q = omega arith

known_distinct : KnownDistinct Known machine
known_distinct x y (inl p) (inl q) e = p ∙ sym q
known_distinct x y (inr p) (inr q) e = p ∙ sym q
known_distinct x y (inl p) (inr q) e =
    absurd (apart (ap (hash_raw machine) (sym p) ∙ e ∙ ap (hash_raw machine) q))
known_distinct x y (inr p) (inl q) e =
    absurd (apart (sym (ap (hash_raw machine) (sym p) ∙ e ∙ ap (hash_raw machine) q)))

abbrev metadata : PlatformFileMetadata
metadata = record {
  logical_size = 1;
  modified_time_ns = pos 5;
  changed_time_ns = pos 5;
  file_id_volume = 1;
  file_id_value = 2;
  posix_mode = 420;
}

abbrev observed : ℕ → Observed Bytes
observed i = record {
  spool = true;
  before = ok metadata;
  source = some content;
  after = ok metadata;
  stop = record {
    first = false;
    rounds = λ j. false;
    chunks = λ j. false;
    stores = λ j. false;
    writes = λ j. true;
  };
}

abbrev entry : ScannedEntry
entry = record {
  source_path = [];
  relative_path = 97 ∷ [];
  parent_path = [];
  name = 97 ∷ [];
  type = regular_file;
  logical_size = 1;
  modified_time_ns = pos 5;
  posix_mode = 420;
  symlink_target = none;
}

abbrev chunker : Chunker
chunker = record { maximum_chunk_size = 4 }

made : make 4 ≡ ok chunker
unfolding make
made = refl

abbrev records : List ChunkReferenceRecord
records =
    record {
      hash_hex = hash_raw machine content;
      raw_offset = 0;
      sequence_number = pos 0;
      raw_size = 1;
      stored_size = 2;
      newly_stored = true;
    }
    ∷ []

abbrev output : ProcessedEntry
output = record {
  value = scanned entry;
  chunk_references = some records;
  file_hash_hex = hash_raw machine content;
  chunk_count = 1;
  new_chunk_count = 1;
}

abbrev row : EntryInfo
row = record {
  id = pos 1;
  snapshot_id = pos 1;
  relative_path = (97 ∷ []) ∷ [];
  type = regular_file;
  logical_size = 1;
  modified_time_ns = pos 5;
  posix_mode = 420;
  windows_attributes = none;
  file_hash_hex = some (hash_raw machine content);
  symlink_target = none;
}

abbrev at_end : State
at_end =
    (attempts machine read_file objects chunker rounds_of_file 1 0 entry observed
      (at_start empty_tree)).1

run :
    (attempts machine read_file objects chunker rounds_of_file 1 0 entry observed
      (at_start empty_tree)).0
    ≡ ok output
unfolding store hash_raw derived_path ◌>>=◌ compress to_hex create_directories find_existing
    find_known store_new find_existing_file write_object remember regular_file_size ensure_directory
    flush_containing_directory temporary_file temporary_write temporary_sync publish attempts
    conclude read_source for_each_chunk_of_file for_each_chunk rounds_of_file read_file
    keeping_error store_chunk append record_of on_store update_hasher count_chunk fresh_attempt
    captured confirm_unchanged add_bytes checked_sequence same_stable_identity update_impl
run = refl

attempts-restore_content_example :
    (i : ℕ) × (c : Bytes) × (rs : List ChunkReferenceRecord) × (some content ≡ some c)
    × (some records ≡ some rs)
    × ((restore_content (calm machine) objects (λ j. false) row (map reference rs) at_end).0 ≡ ok c)
attempts-restore_content_example =
    attempts-restore_content machine frames-ZstdLaws lengths-Blake3Laws objects (omega arith) Known
      known_distinct (λ n t p h. refl) (λ n t k. k) 4 chunker made entry observed
      (λ i c e. let same : content ≡ c = cc in subst (λ x. length x ≤ u64_max) same (omega arith))
      (λ i c e. let same : content ≡ c = cc in subst (PiecesKnown Known) same content_parts)
      (λ i j. refl) 1 (at_start empty_tree) at_end output entry row (λ j. false)
      (λ h c e. absurd (ground arith)) (ap (λ r. (r, at_end)) run) refl refl refl (λ j. refl)

process_job-Halts_example :
    Halts
      (process_job machine read_file objects chunker rounds_of_file true (scanned entry) observed)
process_job-Halts_example =
    process_job-Halts machine objects 4 chunker made entry observed (λ i. record { at = λ e. cc })
      (λ i. record { at = λ e. cc })
      (λ i c e. let same : content ≡ c = cc in subst (λ x. length x ≤ u64_max) same (omega arith))
      (λ i j. refl) true

abbrev stored : StoredObject
stored = record {
  hash_hex = hash_raw machine content;
  relative_path = derived_path (hash_raw machine content);
  raw_size = 1;
  stored_size = 2;
  newly_stored = true;
}

store_run : (store machine objects content false (at_start empty_tree)).0 ≡ ok stored
unfolding store hash_raw derived_path ◌>>=◌ compress to_hex create_directories find_existing
    find_known store_new find_existing_file write_object remember regular_file_size ensure_directory
    flush_containing_directory temporary_file temporary_write temporary_sync publish
store_run = refl

store-Describes_example :
    Describes
      (hash_raw machine content)
      (derived_path (hash_raw machine content))
      1
      stored
      (store machine objects content false (at_start empty_tree)).1.files
store-Describes_example =
    store-Describes machine objects content false (at_start empty_tree)
      (store machine objects content false (at_start empty_tree)).1 stored
      (ap (λ r. (r, (store machine objects content false (at_start empty_tree)).1)) store_run)
