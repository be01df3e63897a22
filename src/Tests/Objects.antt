-- ===== src/Tests/Objects.antt =====
-- Objects are stored and read back on the machine of the tests.
use file_vault.Common.{
  ◌↔◌, ◌+◌, ◌*◌, ◌≤◌, ◌<◌, ◌≡◌, ◌⊎◌, refl, ap, err, compression_error, true, false, List, [], ◌∷◌,
  Bytes, length, some, ok, arith, replicate,
}
use file_vault.Common.Exec.{◌>>=◌}
use file_vault.Filesystem.Tree.{Tree, file, write, create_directories}
use file_vault.Filesystem.Tree.Laws.{Extends}
use file_vault.Storage.Chunker.{make, for_each_chunk_of_file, read_file, ChunkCallback}
use file_vault.Storage.Chunker.Cover.{for_each_chunk-IsChunking, Chunk, IsChunking, for_chunks}
use file_vault.Storage.ZstdCodec.{ZstdCodec, compress, decompress}
use file_vault.Storage.ZstdCodec.RoundTrip.{
  IsFrameOf, decompress-compress, decompress-decides, decompress_error,
}
use file_vault.Storage.ObjectStore.ReadBack.{read_verified_sound}
use file_vault.Storage.Blake3Hasher.{to_hex, is_lowercase_blake3_hex}
use file_vault.Storage.Blake3Hasher.Hex.{is_lowercase_blake3_hex-to_hex, to_hex-injective}
use file_vault.Storage.ObjectFiles.{
  derived_path, hash_raw, regular_file_size, ensure_directory, flush_containing_directory,
  temporary_file, temporary_write, temporary_sync, publish,
}
use file_vault.Storage.ObjectStore.{
  store, read_verified, find_existing, find_known, store_new, find_existing_file, write_object,
  remember,
}
use file_vault.Storage.ObjectStore.Safety.{store-Extends, store-IsSound, IsObject, IsSound}
use file_vault.Storage.ObjectStore.Stored.{read_verified-IsObject}
use file_vault.Tests.Machine.{frames, frames-ZstdLaws, machine, objects, empty_tree, at_start}

abbrev pub sample : Bytes
sample = 7 ∷ 8 ∷ 9 ∷ []

abbrev codec : ZstdCodec
codec = objects.codec

abbrev pub sample_hash : Bytes
sample_hash = hash_raw machine sample

abbrev pub sample_tree : Tree
sample_tree = write (derived_path sample_hash) (file (0 ∷ sample)) empty_tree

-- A run of the store on an empty tree.
store_run :
    (store machine objects sample false (at_start empty_tree)).1.files (derived_path sample_hash)
    ≡ file (0 ∷ sample)
unfolding store hash_raw derived_path ◌>>=◌ compress to_hex create_directories find_existing
    find_known store_new find_existing_file write_object remember regular_file_size ensure_directory
    flush_containing_directory temporary_file temporary_write temporary_sync publish
store_run = refl

unfoldable pub sample_object : IsObject machine objects sample_hash (0 ∷ sample)
unfolding decompress
sample_object = record {
  raw = sample;
  nonempty = omega arith;
  within = omega arith;
  stored_nonempty = omega arith;
  stored_within = omega arith;
  decodes = refl;
  digest = refl;
}

pub sample_at : sample_tree (derived_path sample_hash) ≡ file (0 ∷ sample)
unfolding hash_raw derived_path to_hex
sample_at = refl

pub sample_valid : is_lowercase_blake3_hex sample_hash ≡ true
unfolding hash_raw to_hex is_lowercase_blake3_hex
sample_valid = refl

store-Extends_example :
    Extends empty_tree (store machine objects sample false (at_start empty_tree)).1.files
store-Extends_example =
    store-Extends machine objects sample false (at_start empty_tree) (λ n t p h. refl)

store-IsSound_example :
    IsSound machine objects (store machine objects sample false (at_start empty_tree)).1.files
store-IsSound_example =
    store-IsSound machine frames-ZstdLaws objects sample false (at_start empty_tree) (omega arith)
      (λ n t s. s) (λ h c e. absurd (ground arith))

read_verified-IsObject_example :
    (read_verified machine objects sample_hash
      (derived_path sample_hash)
      3
      4
      (at_start sample_tree)).0
    ≡ ok sample
unfolding sample_object
read_verified-IsObject_example =
    read_verified-IsObject machine (λ n. refl) objects sample_hash (0 ∷ sample)
      (at_start sample_tree) (omega arith) sample_valid sample_at sample_object

for_each_chunk-IsChunking_example :
    (list : List Chunk) × IsChunking 2 0 list sample
    × ((S : Type 0) (callback : ChunkCallback S) (s : S)
        → for_each_chunk_of_file read_file
            (λ i. false)
            (some callback)
            (record { maximum_chunk_size = 2 })
            4
            (some sample)
            s
          ≡ for_chunks callback list s)
for_each_chunk-IsChunking_example =
    for_each_chunk-IsChunking 2 (record { maximum_chunk_size = 2 }) sample (λ i. false) made
      (omega arith) (λ i. refl)
  where
    made : make 2 ≡ ok (record { maximum_chunk_size = 2 })
    made = unfold make in refl

is_lowercase_blake3_hex-to_hex_example : is_lowercase_blake3_hex (to_hex (replicate 32 171)) ≡ true
is_lowercase_blake3_hex-to_hex_example =
    is_lowercase_blake3_hex-to_hex (replicate 32 171) refl (omega arith)

abbrev pair_of_bytes : Bytes
pair_of_bytes = 171 ∷ 205 ∷ []

to_hex-injective_example : pair_of_bytes ≡ 171 ∷ 205 ∷ []
to_hex-injective_example =
    to_hex-injective pair_of_bytes (171 ∷ 205 ∷ []) (omega arith) (omega arith) refl

decompress-compress_example :
    (c : Bytes) × (compress frames codec sample ≡ ok c)
    × (0 < length c)
    × (length c ≤ 4 + 64 * 1024)
    × (decompress frames codec c 3 4 ≡ ok sample)
decompress-compress_example =
    decompress-compress frames frames-ZstdLaws codec 4 sample (omega arith) (omega arith)

decompress-decides_example :
    ((raw : Bytes) × (decompress frames codec (0 ∷ sample) 3 4 ≡ ok raw)
      × ((other : Bytes) → IsFrameOf frames 3 4 (0 ∷ sample) other ↔ (raw ≡ other)))
    ⊎ ((decompress frames codec (0 ∷ sample) 3 4 ≡ err compression_error)
        × ((other : Bytes) → ¬ IsFrameOf frames 3 4 (0 ∷ sample) other))
decompress-decides_example =
    decompress-decides frames frames-ZstdLaws codec (0 ∷ sample) 3 4 (omega arith)

decompress_error_example :
    ((raw : Bytes) × (decompress frames codec (0 ∷ sample) 2 4 ≡ ok raw))
    ⊎ (decompress frames codec (0 ∷ sample) 2 4 ≡ err compression_error)
decompress_error_example = decompress_error frames codec (0 ∷ sample) 2 4

read_verified_sound_example :
    (derived_path sample_hash ≡ derived_path sample_hash)
    × (hash_raw machine sample ≡ sample_hash)
    × (length sample ≡ 3)
    × (3 ≤ 4)
    × ((c : Bytes) × (sample_tree (derived_path sample_hash) ≡ file c)
        × (length c ≡ 4)
        × (decompress frames codec c 3 4 ≡ ok sample))
    × ((read_verified machine objects sample_hash
          (derived_path sample_hash)
          3
          4
          (at_start sample_tree)).1.files
        ≡ sample_tree)
read_verified_sound_example =
    read_verified_sound machine objects sample_hash (derived_path sample_hash) 3 4
      (at_start sample_tree) sample
      (read_verified machine objects sample_hash (derived_path sample_hash) 3 4
        (at_start sample_tree)).1
      (ap
        (λ r. (
          r,
          (read_verified machine objects sample_hash (derived_path sample_hash) 3 4
              (at_start sample_tree)).1,
        ))
        read_verified-IsObject_example)
