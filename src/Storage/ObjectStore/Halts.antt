-- ===== src/Storage/ObjectStore/Halts.antt =====
-- The methods return or throw, whatever they find and whichever calls fail: no loop of theirs runs on.
use file_vault.Common.{
  ℕ, arith, Bool, true, false, Option, none, some, Bytes, Result, ok, err, out_of_fuel, nat_eq,
}
use file_vault.Common.Exec.{Exec}
use file_vault.Common.Exec.Halts.{Finishes, Halts, Halts-bind, halts_rules}
use file_vault.Filesystem.Tree.{FilePath}
use file_vault.Database.Chunks.{StoredChunkInfo, Table}
use file_vault.Database.Chunks.Halts.{find_chunk-Halts, ensure_chunk-Halts}
use file_vault.Storage.ZstdCodec.Halts.{compress-Finishes, decompress-Finishes}
use file_vault.Storage.World.{World, State, StoredObject}
use file_vault.Storage.ObjectFiles.{RestorePublishResult, published, destination_exists}
use file_vault.Storage.ObjectFiles.Halts.{
  Halts-hit, regular_file_size-Halts, read_exact-Halts, sync-Halts, flush-Halts,
  temporary_file-Halts, temporary_write-Halts, temporary_sync-Halts, ensure_directory-Halts,
  publish-Halts, require_valid_hash-Finishes,
}
use file_vault.Storage.ObjectStore.{
  ObjectStore, remember, on_chunks, otherwise, match_size, require_reusable, read_verified,
  known_chunk, find_in_metadata, reuse_cached, find_existing, remember_unless_metadata, adopt,
  find_existing_file, duplicate, after_publish, write_object, reuse_or_write, ensure_metadata,
  register, store_new, store, corrupt_if_undecodable,
}

remember-Halts : (object : StoredObject) → Halts (remember object)
unfolding remember
remember-Halts object = search halts_rules

on_chunks-Halts : {A : Type 0} (m : Exec Table A) → Halts m → Halts (on_chunks m)
unfolding on_chunks
on_chunks-Halts m h = record { at = λ s. h.at s.chunks }

module _ (w : World) (o : ObjectStore) where
  match_size-Halts : (n : Option ℕ) (k : ℕ) → Halts (match_size w o n k)
  unfolding match_size
  match_size-Halts none k = search halts_rules
  match_size-Halts (some n) k = search halts_rules

  require_reusable-Halts :
      (known : StoredObject) (h : Bytes) (p : FilePath) (n : ℕ)
      → Halts (require_reusable w o known h p n)
  unfolding require_reusable
  require_reusable-Halts known h p n =
      search (halts_rules, regular_file_size-Halts, match_size-Halts) depth 12

  corrupt_if_undecodable-Finishes :
      (r : Result Bytes) → Finishes r → Finishes (corrupt_if_undecodable w o r)
  unfolding corrupt_if_undecodable
  corrupt_if_undecodable-Finishes (ok a) f = f
  corrupt_if_undecodable-Finishes out_of_fuel f = f
  corrupt_if_undecodable-Finishes (err e) f = record { at = λ p. ground arith }

  pub read_verified-Halts : (h : Bytes) (p : FilePath) (n k : ℕ) → Halts (read_verified w o h p n k)
  unfolding read_verified
  read_verified-Halts h p n k =
      search
        (
          halts_rules, regular_file_size-Halts, match_size-Halts, read_exact-Halts,
          require_valid_hash-Finishes, corrupt_if_undecodable-Finishes, decompress-Finishes,
        )
        depth 22

  known_chunk-Halts :
      (row : Option StoredChunkInfo) (h : Bytes) (p : FilePath) (n : ℕ)
      → Halts (known_chunk w o row h p n)
  unfolding known_chunk
  known_chunk-Halts none h p n = search halts_rules
  known_chunk-Halts (some row) h p n =
      search (halts_rules, require_reusable-Halts, remember-Halts) depth 8

  find_in_metadata-Halts :
      (b : Bool) (h : Bytes) (p : FilePath) (n : ℕ) → Halts (find_in_metadata w o b h p n)
  unfolding find_in_metadata
  find_in_metadata-Halts false h p n = search halts_rules
  find_in_metadata-Halts true h p n =
      Halts-bind _ _ (on_chunks-Halts _ (find_chunk-Halts h)) (λ row. known_chunk-Halts row h p n)

  reuse_cached-Halts :
      (h : Bytes) (p : FilePath) (n : ℕ) (c : StoredObject) → Halts (reuse_cached w o h p n c)
  unfolding reuse_cached
  reuse_cached-Halts h p n c = search (halts_rules, require_reusable-Halts)

  otherwise-Halts :
      (c : Option StoredObject) (miss : Exec State (Option StoredObject))
      (found : StoredObject → Exec State (Option StoredObject))
      → Halts miss
      → ((x : StoredObject) → Halts (found x))
      → Halts (otherwise c miss found)
  otherwise-Halts none miss found hm hf = hm
  otherwise-Halts (some x) miss found hm hf = hf x

  find_existing-Halts : (h : Bytes) (p : FilePath) (n : ℕ) → Halts (find_existing w o h p n)
  unfolding find_existing
  find_existing-Halts h p n =
      search (halts_rules, otherwise-Halts, find_in_metadata-Halts, reuse_cached-Halts) depth 8

  remember_unless_metadata-Halts :
      (b : Bool) (object : StoredObject) → Halts (remember_unless_metadata w o b object)
  unfolding remember_unless_metadata
  remember_unless_metadata-Halts true object = search halts_rules
  remember_unless_metadata-Halts false object = remember-Halts object

  adopt-Halts : (m : Option ℕ) (h : Bytes) (p : FilePath) (n : ℕ) → Halts (adopt w o m h p n)
  unfolding adopt
  adopt-Halts none h p n = search halts_rules
  adopt-Halts (some k) h p n =
      search
        (halts_rules, read_verified-Halts, sync-Halts, flush-Halts, remember_unless_metadata-Halts)
        depth 12

  find_existing_file-Halts :
      (h : Bytes) (p : FilePath) (n : ℕ) → Halts (find_existing_file w o h p n)
  unfolding find_existing_file
  find_existing_file-Halts h p n =
      search
        (halts_rules, otherwise-Halts, regular_file_size-Halts, adopt-Halts, reuse_cached-Halts)
        depth 10

  duplicate-Halts : (x : Option StoredObject) → Halts (duplicate w o x)
  unfolding duplicate
  duplicate-Halts none = search halts_rules
  duplicate-Halts (some x) = search halts_rules

  after_publish-Halts :
      (r : RestorePublishResult) (h : Bytes) (p : FilePath) (n k : ℕ)
      → Halts (after_publish w o r h p n k)
  unfolding after_publish
  after_publish-Halts destination_exists h p n k =
      search (halts_rules, find_existing_file-Halts, duplicate-Halts) depth 8
  after_publish-Halts published h p n k =
      search (halts_rules, Halts-hit, flush-Halts, remember_unless_metadata-Halts) depth 10

  write_object-Halts :
      (h : Bytes) (p : FilePath) (n : ℕ) (compressed : Bytes)
      → Halts (write_object w o h p n compressed)
  unfolding write_object
  write_object-Halts h p n compressed =
      search
        (
          halts_rules, ensure_directory-Halts, flush-Halts, temporary_file-Halts,
          temporary_write-Halts, temporary_sync-Halts, Halts-hit, publish-Halts,
          after_publish-Halts,
        )
        depth 24

  pub ensure_metadata-Halts : (object : StoredObject) → Halts (ensure_metadata w o object)
  unfolding ensure_metadata
  ensure_metadata-Halts object =
      search
        (
          halts_rules, require_valid_hash-Finishes, require_reusable-Halts, on_chunks-Halts,
          ensure_chunk-Halts, remember-Halts,
        )
        depth 16

  register-Halts : (b : Bool) (x : StoredObject) → Halts (register w o b x)
  unfolding register
  register-Halts true x = ensure_metadata-Halts x
  register-Halts false x = search halts_rules

  reuse_or_write-Halts :
      (x : Option StoredObject) (m : Exec State StoredObject)
      → Halts m
      → Halts (reuse_or_write w o x m)
  unfolding reuse_or_write
  reuse_or_write-Halts none m k = k
  reuse_or_write-Halts (some x) m k = search halts_rules

  store_new-Halts :
      (h : Bytes) (p : FilePath) (raw : Bytes) (stop : Bool) → Halts (store_new w o h p raw stop)
  unfolding store_new
  store_new-Halts h p raw stop =
      search
        (
          halts_rules, compress-Finishes, find_existing_file-Halts, reuse_or_write-Halts,
          write_object-Halts, register-Halts,
        )
        depth 20

  -- `store` returns or throws, from every state and whichever calls fail.
  pub store-Halts : (raw : Bytes) (stop : Bool) → Halts (store w o raw stop)
  unfolding store
  store-Halts raw stop =
      search (halts_rules, find_existing-Halts, reuse_or_write-Halts, store_new-Halts) depth 14
