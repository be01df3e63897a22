-- ===== src/Snapshot/Worker.antt =====
-- A worker of src/core/snapshot_engine.cpp: the reading of one regular file, tried again if it is unstable.
-- What the operating system answers during an attempt is a parameter.
pub mod Appended
pub mod Halts
pub mod Pieces
pub mod Source
use file_vault.Common.{
  ℕ, zero, suc, ◌+◌, ◌*◌, ◌%◌, ◌^◌, ◌≡◌, Bool, true, false, not, ◌&&◌, ◌||◌, Option, none, some,
  List, [], ◌∷◌, ◌++◌, Bytes, ℤ, pos, codes, length, ltb, ◌==◌, nat_eq, if◌then◌else◌, ErrorCode,
  Result, ok, err, out_of_fuel, internal_error, cancelled, filesystem_error, source_changed,
}
use file_vault.Common.Exec.{Exec, pure, throw, check, lift, gets, modify, ◌>>=◌, ◌>>◌}
use file_vault.Database.Entries.{EntryType, regular_file, directory, symbolic_link}
use file_vault.Filesystem.FileMetadata.{PlatformFileMetadata, same_stable_identity}
use file_vault.Filesystem.Scanner.{ScannedEntry, ScanWarning}
use file_vault.Storage.Blake3Hasher.{digest_size, update_impl, to_hex}
use file_vault.Storage.Chunker.{Chunker, Istream, for_each_chunk_of_file}
use file_vault.Storage.World.{World, State, StoredObject}
use file_vault.Storage.ObjectStore.{ObjectStore, store}
use file_vault.Snapshot.Counters.{add_bytes, checked_sequence}

pub record ChunkReferenceRecord : Type 0 where
  pub hash_hex : Bytes
  pub raw_offset : ℕ
  pub sequence_number : ℤ
  pub raw_size : ℕ
  pub stored_size : ℕ
  pub newly_stored : Bool

pub data ScannedItem : Type 0 where
  scanned : ScannedEntry → ScannedItem
  warned : ScanWarning → ScannedItem

-- The spool is the list of the records written to it.
pub record ProcessedEntry : Type 0 where
  pub value : ScannedItem
  pub chunk_references : Option (List ChunkReferenceRecord)
  pub file_hash_hex : Bytes
  pub chunk_count : ℕ
  pub new_chunk_count : ℕ

-- What the stop token answers before an attempt, in the rounds of the chunker, and to the callback and
-- to `store` at each chunk, and whether the write to the spool succeeds at each chunk.
pub record StopAnswers : Type 0 where
  pub first : Bool
  pub rounds : ℕ → Bool
  pub chunks : ℕ → Bool
  pub stores : ℕ → Bool
  pub writes : ℕ → Bool

-- What an attempt finds: whether its spool is created, the metadata before and after, and the stream if
-- the file opens.
pub record Observed (I : Type 0) : Type 0 where
  pub spool : Bool
  pub before : Result PlatformFileMetadata
  pub source : Option I
  pub after : Result PlatformFileMetadata
  pub stop : StopAnswers

-- The rounds that the loop of the chunker needs for a file of known content.
unfoldable pub rounds_of_file : Option Bytes → ℕ
rounds_of_file none = 0
rounds_of_file (some content) = length content + 1

module _ (w : World) where
  -- The variables of an attempt, beside the state of the object store.
  pub record Attempt : Type 0 where
    pub store_state : State
    pub file_hasher : w.blake3.State
    pub bytes_read : ℕ
    pub sequence : ℕ
    pub new_chunk_count : ℕ
    pub chunk_references : List ChunkReferenceRecord
    pub callback_error : Option ErrorCode

  unfoldable pub fresh_attempt : State → Attempt
  fresh_attempt s = record {
    store_state = s;
    file_hasher = w.blake3.init;
    bytes_read = 0;
    sequence = 0;
    new_chunk_count = 0;
    chunk_references = [];
    callback_error = none;
  }

  unfoldable pub on_store : {A : Type 0} → Exec State A → Exec Attempt A
  on_store m a = ((m a.store_state).0, record a { store_state = (m a.store_state).1 })

  unfoldable pub record_of : StoredObject → ℕ → ℤ → ChunkReferenceRecord
  record_of object raw_offset sequence_number = record {
    hash_hex = object.hash_hex;
    raw_offset = raw_offset;
    sequence_number = sequence_number;
    raw_size = object.raw_size;
    stored_size = object.stored_size;
    newly_stored = object.newly_stored;
  }

  -- `ChunkReferenceSpool::append`
  unfoldable pub append : Bool → StoredObject → ℕ → ℤ → Exec Attempt (Unit {0})
  append written object raw_offset sequence_number = do
    check (length object.hash_hex == digest_size * 2) internal_error
    check written filesystem_error
    modify (λ a. record a {
      chunk_references = a.chunk_references ++ record_of object raw_offset sequence_number ∷ [];
    })

  unfoldable pub update_hasher : Bytes → Attempt → Attempt
  update_hasher raw_bytes a = record a {
    file_hasher = update_impl w.blake3 a.file_hasher raw_bytes;
  }

  unfoldable pub count_chunk : Bool → Attempt → Attempt
  count_chunk newly_stored a = record a {
    new_chunk_count = if newly_stored then (a.new_chunk_count + 1) % 2 ^ 64 else a.new_chunk_count;
    sequence = (a.sequence + 1) % 2 ^ 64;
  }

  -- the try block of the callback
  unfoldable pub store_chunk : ObjectStore → StopAnswers → ℕ → Bytes → Exec Attempt (Unit {0})
  store_chunk o stop raw_offset raw_bytes = do
    modify (update_hasher raw_bytes)
    sequence ← gets (λ a. a.sequence)
    check (not (stop.chunks sequence)) cancelled
    object ← on_store (store w o raw_bytes (stop.stores sequence))
    bytes_read ← gets (λ a. a.bytes_read)
    total ← lift (add_bytes bytes_read object.raw_size)
    modify (λ a. record a { bytes_read = total })
    sequence_number ← lift (checked_sequence sequence)
    append (stop.writes sequence) object raw_offset sequence_number
    modify (count_chunk object.newly_stored)

  note_error : Result (Unit {0}) × Attempt → Result (Unit {0}) × Attempt
  note_error (err e, a) = (err e, record a { callback_error = some e })
  note_error (ok _, a) = (ok tt, a)
  note_error (out_of_fuel, a) = (out_of_fuel, a)

  -- its catch block, which keeps the error and throws it again
  unfoldable pub keeping_error : Exec Attempt (Unit {0}) → Exec Attempt (Unit {0})
  unfolding note_error
  keeping_error m a = note_error (m a)

  module _ {I : Type 0} (read : Istream I) (o : ObjectStore) (chunker : Chunker)
      (rounds : Option I → ℕ) where
    -- the metadata after the reading, and the test
    unfoldable pub confirm_unchanged :
        Observed I → PlatformFileMetadata → Exec Attempt PlatformFileMetadata
    confirm_unchanged observed before = do
      after ← lift observed.after
      bytes_read ← gets (λ a. a.bytes_read)
      check
          (not (not (bytes_read == before.logical_size) || not (same_stable_identity before after)))
          source_changed
      pure before

    -- The try block of an attempt.
    unfoldable pub read_source : Observed I → Exec Attempt PlatformFileMetadata
    read_source observed = do
      check (not observed.stop.first) cancelled
      before ← lift observed.before
      for_each_chunk_of_file read observed.stop.rounds
          (some (λ offset bytes. keeping_error (store_chunk o observed.stop offset bytes))) chunker
          (rounds observed.source) observed.source
      confirm_unchanged observed before

    -- the assignments after the test
    unfoldable pub captured : ScannedEntry → PlatformFileMetadata → Attempt → ProcessedEntry
    captured original before a = record {
      value = scanned (record original {
        logical_size = before.logical_size;
        modified_time_ns = before.modified_time_ns;
        posix_mode = before.posix_mode;
      });
      chunk_references = some a.chunk_references;
      file_hash_hex = to_hex (w.blake3.finish a.file_hasher);
      chunk_count = a.sequence;
      new_chunk_count = a.new_chunk_count;
    }

    is_source_error : ErrorCode → Bool
    is_source_error filesystem_error = true
    is_source_error source_changed = true
    is_source_error _ = false

    warning_code : ErrorCode → Bytes
    warning_code source_changed = codes "source_changed"
    warning_code _ = codes "source_unavailable"

    unfoldable pub unavailable : ScannedEntry → ErrorCode → ProcessedEntry
    unfolding warning_code
    unavailable original e = record {
      value = warned (record { relative_path = original.relative_path; code = warning_code e });
      chunk_references = none;
      file_hash_hex = [];
      chunk_count = 0;
      new_chunk_count = 0;
    }

    -- The catch block: `retry` is what comes next if the error is one of the source's.
    unfoldable pub on_error :
        Option ErrorCode
        → ErrorCode
        → (ErrorCode → Exec State ProcessedEntry)
        → Exec State ProcessedEntry
    unfolding is_source_error
    on_error (some callback_error) e retry = throw callback_error
    on_error none e retry = if is_source_error e then retry e else throw e

    -- What follows the try block.
    unfoldable pub conclude :
        ScannedEntry
        → (ErrorCode → Exec State ProcessedEntry)
        → Result PlatformFileMetadata × Attempt
        → Result ProcessedEntry × State
    conclude original next (ok before, a) = (ok (captured original before a), a.store_state)
    conclude original next (out_of_fuel, a) = (out_of_fuel, a.store_state)
    conclude original next (err e, a) = on_error a.callback_error e next a.store_state

    -- The loop on attempts; `left` come after the one at hand.
    unfoldable pub attempts : ℕ → ℕ → ScannedEntry → (ℕ → Observed I) → Exec State ProcessedEntry
    attempts zero attempt original observed s =
        (check (observed attempt).spool filesystem_error >>= λ _ u.
        conclude original (λ e. pure (unavailable original e))
          (read_source (observed attempt) (fresh_attempt u)))
          s
    attempts (suc left) attempt original observed s =
        let retry = attempts left (attempt + 1) original observed in
        (check (observed attempt).spool filesystem_error >>= λ _ u.
        conclude original (λ e. retry) (read_source (observed attempt) (fresh_attempt u)))
          s

    passed_on : ScannedItem → ProcessedEntry
    passed_on value = record {
      value = value;
      chunk_references = none;
      file_hash_hex = [];
      chunk_count = 0;
      new_chunk_count = 0;
    }

    process_entry : Bool → EntryType → ScannedEntry → (ℕ → Observed I) → Exec State ProcessedEntry
    unfolding passed_on
    process_entry retry_unstable_files regular_file entry observed =
        attempts (if retry_unstable_files then 1 else 0) 0 entry observed
    process_entry retry_unstable_files _ entry observed = pure (passed_on (scanned entry))

    -- What a worker makes of one job.
    unfoldable pub process_job : Bool → ScannedItem → (ℕ → Observed I) → Exec State ProcessedEntry
    unfolding passed_on process_entry
    process_job retry_unstable_files (warned warning) observed = pure (passed_on (warned warning))
    process_job retry_unstable_files (scanned entry) observed =
        process_entry retry_unstable_files entry.type entry observed
