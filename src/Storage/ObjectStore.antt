-- ===== src/Storage/ObjectStore.antt =====
-- src/core/storage/object_store.hpp and object_store.cpp: the content-addressed store of compressed
-- objects. A method acts on `State`. Sizes of buffers in memory fit `std::size_t`, which has 64 bits.
pub mod Described
pub mod Halts
pub mod Keeps
pub mod Safety
pub mod ReadBack
pub mod Stored
use file_vault.Common.{
  ℕ, suc, ◌+◌, ◌*◌, ◌≤◌, ◌≡◌, Bool, true, false, not, ◌&&◌, ◌||◌, Option, none, some, List, [], ◌∷◌,
  ◌++◌, Bytes, codes, length, take, any, ltb, leb, ◌==◌, nat_eq, list_eq, if◌then◌else◌, u64_max,
  ErrorCode, Result, ok, err, out_of_fuel, require, invalid_argument, filesystem_error,
  compression_error, object_corrupt, object_missing, cancelled,
}
use file_vault.Common.Exec.{Exec, pure, throw, check, lift, gets, modify, ◌>>=◌, ◌>>◌}
use file_vault.Filesystem.Tree.{FilePath, Tree, Node, file, parent_path}
use file_vault.Database.Chunks.{StoredChunkInfo, Table, ensure_chunk, find_chunk}
use file_vault.Storage.ZstdCodec.{ZstdCodec, compress, decompress}
use file_vault.Storage.World.{
  World, State, StoredObject, FailurePoint, after_temp_object_write, after_object_fsync,
  after_object_rename, hit, tick,
}
use file_vault.Storage.ObjectFiles.{
  require_valid_hash, derived_path, hash_raw, ensure_directory, regular_file_size, read_exact,
  sync_existing_regular_file, flush_containing_directory, temporary_file, temporary_write,
  temporary_sync, publish, RestorePublishResult, published, destination_exists,
}

abbrev pub compressed_size_allowance : ℕ
compressed_size_allowance = 64 * 1024

abbrev pub permanent_maximum_chunk_size : ℕ
permanent_maximum_chunk_size = 4 * 1024 * 1024

abbrev pub maximum_known_objects : ℕ
maximum_known_objects = 64

-- `metadata` tells whether the pointer `metadata_` is set.
pub record ObjectStore : Type 0 where
  pub metadata : Bool
  pub maximum_chunk_size : ℕ
  pub codec : ZstdCodec

pub checked_maximum_chunk_size : ℕ → Result ℕ
checked_maximum_chunk_size size =
    if size == 0 || ltb permanent_maximum_chunk_size size || ltb u64_max size
    then err invalid_argument
    else ok size

-- `object_relative_path`
unfoldable pub object_relative_path : Bytes → Result FilePath
object_relative_path hash_hex = elim (require_valid_hash hash_hex invalid_argument) [
  | ok _ ↦ ok (derived_path hash_hex)
  | err e ↦ err e
  | out_of_fuel ↦ out_of_fuel
]

-- `known_objects_`, a map from digests
unfoldable pub find_known : Bytes → List (Bytes × StoredObject) → Option StoredObject
find_known hash [] = none
find_known hash ((key, object) ∷ rest) = if key == hash then some object else find_known hash rest

unfoldable pub insert_or_assign :
    Bytes → StoredObject → List (Bytes × StoredObject) → List (Bytes × StoredObject)
insert_or_assign hash object [] = (hash, object) ∷ []
insert_or_assign hash object ((key, old) ∷ rest) =
    if key == hash then (hash, object) ∷ rest else (key, old) ∷ insert_or_assign hash object rest

contains : Bytes → List (Bytes × StoredObject) → Bool
contains hash known = any (λ entry. entry.0 == hash) known

unfoldable pub remember_in :
    StoredObject → List (Bytes × StoredObject) → List (Bytes × StoredObject)
unfolding contains insert_or_assign
remember_in object known = insert_or_assign object.hash_hex object (
    if leb maximum_known_objects (length known) && not (contains object.hash_hex known)
    then []
    else known)

unfoldable pub remember : StoredObject → Exec State (Unit {0})
unfolding remember_in
remember object = modify (λ s. record s { known = remember_in object s.known })

-- A table operation, on the table of the state.
unfoldable pub on_chunks : {A : Type 0} → Exec Table A → Exec State A
on_chunks m s = ((m s.chunks).0, record s { chunks = (m s.chunks).1 })

-- `cached != known_objects_.end()`, and otherwise
abbrev otherwise :
    Option StoredObject
    → Exec State (Option StoredObject)
    → (StoredObject → Exec State (Option StoredObject))
    → Exec State (Option StoredObject)
otherwise none miss found = miss
otherwise (some object) miss found = found object

module _ (w : World) (o : ObjectStore) where
  abbrev pub stored_size_limit : ℕ
  stored_size_limit = o.maximum_chunk_size + compressed_size_allowance

  match_size : Option ℕ → ℕ → Exec State (Unit {0})
  match_size none stored_size = throw object_missing
  match_size (some actual_size) stored_size = check (actual_size == stored_size) object_corrupt

  unfoldable pub require_reusable : StoredObject → Bytes → FilePath → ℕ → Exec State StoredObject
  unfolding match_size
  require_reusable known expected_hash expected_relative_path expected_raw_size = do
    check (known.hash_hex == expected_hash && known.relative_path == expected_relative_path)
        object_corrupt
    check (known.raw_size == expected_raw_size) object_corrupt
    check (not (known.stored_size == 0 || ltb stored_size_limit known.stored_size)) object_corrupt
    actual_size ← regular_file_size w expected_relative_path
    match_size actual_size known.stored_size
    pure (record known { newly_stored = false })

  -- The catch of `read_verified`, which turns `compression_error` into `object_corrupt`.
  corrupt_if_undecodable : Result Bytes → Result Bytes
  corrupt_if_undecodable (err compression_error) = err object_corrupt
  corrupt_if_undecodable r = r

  unfoldable pub read_verified : Bytes → FilePath → ℕ → ℕ → Exec State Bytes
  unfolding match_size corrupt_if_undecodable
  read_verified hash_hex relative_path expected_raw_size expected_stored_size = do
    lift (require_valid_hash hash_hex object_corrupt)
    check (relative_path == derived_path hash_hex) object_corrupt
    check
        (not (
          expected_raw_size == 0
          || ltb o.maximum_chunk_size expected_raw_size
          || ltb u64_max expected_raw_size))
        object_corrupt
    check
        (not (
          expected_stored_size == 0
          || ltb stored_size_limit expected_stored_size
          || ltb u64_max expected_stored_size))
        object_corrupt
    actual_size ← regular_file_size w (derived_path hash_hex)
    match_size actual_size expected_stored_size
    compressed ← read_exact w (derived_path hash_hex) expected_stored_size
    raw ← lift (
        corrupt_if_undecodable
          (decompress w.zstd o.codec compressed expected_raw_size o.maximum_chunk_size))
    check (hash_raw w raw == hash_hex) object_corrupt
    pure raw

  known_chunk : Option StoredChunkInfo → Bytes → FilePath → ℕ → Exec State (Option StoredObject)
  known_chunk none hash_hex relative_path raw_size = pure none
  known_chunk (some row) hash_hex relative_path raw_size = do
    reused ←
        require_reusable
          (record {
            hash_hex = row.hash_hex;
            relative_path = row.object_path;
            raw_size = row.raw_size;
            stored_size = row.stored_size;
            newly_stored = false;
          })
          hash_hex relative_path raw_size
    remember reused
    pure (some reused)

  find_in_metadata : Bool → Bytes → FilePath → ℕ → Exec State (Option StoredObject)
  unfolding known_chunk on_chunks
  find_in_metadata false hash_hex relative_path raw_size = pure none
  find_in_metadata true hash_hex relative_path raw_size = do
    row ← on_chunks (λ rows. (find_chunk hash_hex rows, rows))
    known_chunk row hash_hex relative_path raw_size

  -- A hit in the cache: the final file's existence and size are rechecked.
  reuse_cached : Bytes → FilePath → ℕ → StoredObject → Exec State (Option StoredObject)
  reuse_cached hash_hex relative_path raw_size cached = do
    reused ← require_reusable cached hash_hex relative_path raw_size
    pure (some reused)

  unfoldable pub find_existing : Bytes → FilePath → ℕ → Exec State (Option StoredObject)
  unfolding find_in_metadata reuse_cached
  find_existing hash_hex relative_path raw_size = do
    cached ← gets (λ s. find_known hash_hex s.known)
    otherwise cached (find_in_metadata o.metadata hash_hex relative_path raw_size)
        (reuse_cached hash_hex relative_path raw_size)

  pub remember_unless_metadata : Bool → StoredObject → Exec State (Unit {0})
  remember_unless_metadata true object = pure tt
  remember_unless_metadata false object = remember object

  adopt : Option ℕ → Bytes → FilePath → ℕ → Exec State (Option StoredObject)
  unfolding remember_unless_metadata
  adopt none hash_hex relative_path raw_size = pure none
  adopt (some orphan_size) hash_hex relative_path raw_size = do
    read_verified hash_hex relative_path raw_size orphan_size >>= λ _. pure tt
    sync_existing_regular_file w relative_path
    flush_containing_directory w relative_path
    let adopted : StoredObject = record {
      hash_hex = hash_hex;
      relative_path = relative_path;
      raw_size = raw_size;
      stored_size = orphan_size;
      newly_stored = false;
    }
    remember_unless_metadata o.metadata adopted
    pure (some adopted)

  unfoldable pub find_existing_file : Bytes → FilePath → ℕ → Exec State (Option StoredObject)
  unfolding adopt reuse_cached
  find_existing_file hash_hex relative_path raw_size = do
    cached ← gets (λ s. find_known hash_hex s.known)
    otherwise cached
        (do
          orphan_size ← regular_file_size w relative_path
          adopt orphan_size hash_hex relative_path raw_size)
        (reuse_cached hash_hex relative_path raw_size)

  -- Time passes until the lock of the object's stripe is granted.
  abbrev lock_stripe : Exec State (Unit {0})
  lock_stripe = modify (λ s. record s { files = w.others s.ticks s.files })

  duplicate : Option StoredObject → Exec State StoredObject
  duplicate none = throw filesystem_error
  duplicate (some object) = pure object

  after_publish : RestorePublishResult → Bytes → FilePath → ℕ → ℕ → Exec State StoredObject
  unfolding duplicate remember_unless_metadata
  after_publish destination_exists hash_hex relative_path raw_size stored_size = do
    published_existing ← find_existing_file hash_hex relative_path raw_size
    duplicate published_existing
  after_publish published hash_hex relative_path raw_size stored_size = do
    hit w after_object_rename
    flush_containing_directory w relative_path
    remember_unless_metadata o.metadata (record {
      hash_hex = hash_hex;
      relative_path = relative_path;
      raw_size = raw_size;
      stored_size = stored_size;
      newly_stored = false;
    })
    pure (record {
      hash_hex = hash_hex;
      relative_path = relative_path;
      raw_size = raw_size;
      stored_size = stored_size;
      newly_stored = true;
    })

  unfoldable pub write_object : Bytes → FilePath → ℕ → Bytes → Exec State StoredObject
  unfolding after_publish
  write_object hash_hex relative_path raw_size compressed = do
    ensure_directory w (parent_path relative_path)
    flush_containing_directory w (parent_path relative_path)
    ensure_directory w (codes "temporary" ∷ codes "objects" ∷ [])
    temporary_file w
    temporary ← temporary_write w [] compressed
    hit w after_temp_object_write
    temporary_sync w
    hit w after_object_fsync
    publication ← publish w temporary relative_path
    after_publish publication hash_hex relative_path raw_size (length compressed)

  reuse_or_write : Option StoredObject → Exec State StoredObject → Exec State StoredObject
  reuse_or_write none write = write
  reuse_or_write (some object) write = pure object

  unfoldable pub ensure_metadata : StoredObject → Exec State (Unit {0})
  unfolding on_chunks
  ensure_metadata object = do
    check o.metadata invalid_argument
    lift (require_valid_hash object.hash_hex object_corrupt)
    verified ←
        require_reusable object object.hash_hex (derived_path object.hash_hex) object.raw_size
    created_at_ns ← gets (λ s. w.now s.ticks)
    on_chunks (
        ensure_chunk (record {
          hash_hex = verified.hash_hex;
          raw_size = verified.raw_size;
          stored_size = verified.stored_size;
          object_path = verified.relative_path;
          created_at_ns = created_at_ns;
        }))
    remember verified

  pub register : Bool → StoredObject → Exec State (Unit {0})
  register false stored = pure tt
  register true stored = ensure_metadata stored

  -- The part of `store` that runs if no object is found without the lock.
  unfoldable pub store_new : Bytes → FilePath → Bytes → Bool → Exec State StoredObject
  unfolding register reuse_or_write
  store_new hash_hex relative_path raw_bytes stop_requested = do
    check (not stop_requested) cancelled
    compressed ← lift (compress w.zstd o.codec raw_bytes)
    check (not (length compressed == 0 || ltb stored_size_limit (length compressed)))
        compression_error
    lock_stripe
    rechecked ← find_existing_file hash_hex relative_path (length raw_bytes)
    stored ←
        reuse_or_write rechecked (write_object hash_hex relative_path (length raw_bytes) compressed)
    register o.metadata stored
    pure stored

  unfoldable pub store : Bytes → Bool → Exec State StoredObject
  unfolding reuse_or_write
  store raw_bytes stop_requested = do
    check (not (length raw_bytes == 0)) invalid_argument
    check (not (ltb o.maximum_chunk_size (length raw_bytes))) invalid_argument
    check (leb (length raw_bytes) u64_max) filesystem_error
    let hash_hex = hash_raw w raw_bytes
    existing ← find_existing hash_hex (derived_path hash_hex) (length raw_bytes)
    reuse_or_write existing (store_new hash_hex (derived_path hash_hex) raw_bytes stop_requested)
