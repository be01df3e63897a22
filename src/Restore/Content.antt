-- ===== src/Restore/Content.antt =====
-- The content of one file in `RestoreEngine::restore` of src/core/restore_engine.cpp: the chunks are read
-- back, checked and written to a temporary file, which is the bytes written so far.
pub mod Verified
pub mod RoundTrip
use file_vault.Common.{
  ℕ, ◌+◌, ◌≡◌, Bool, true, false, not, Option, none, some, List, [], ◌∷◌, ◌++◌, Bytes, length, ◌==◌,
  nat_eq, list_eq, Result, ok, err, out_of_fuel, cancelled, object_corrupt,
}
use file_vault.Common.Exec.{Exec, pure, throw, check, lift, ◌>>=◌, ◌>>◌}
use file_vault.Database.Entries.{EntryInfo, EntryType, ChunkReferenceInfo, regular_file}
use file_vault.Storage.Blake3Hasher.{update_impl, to_hex, is_lowercase_blake3_hex}
use file_vault.Storage.World.{World, State, during_restore_write, hit}
use file_vault.Storage.ObjectFiles.{temporary_file, temporary_write, temporary_sync}
use file_vault.Storage.ObjectStore.{ObjectStore, read_verified}
use file_vault.Restore.ChunkList.{checked_add}

unfoldable pub check_cancelled : Bool → Exec State (Unit {0})
check_cancelled stop_requested = check (not stop_requested) cancelled

is_regular_file : EntryType → Bool
is_regular_file regular_file = true
is_regular_file _ = false

has_valid_hash : Option Bytes → Bool
has_valid_hash none = false
has_valid_hash (some hash) = is_lowercase_blake3_hex hash

-- The loop `validate_selected_file_hashes`
unfoldable pub validate_selected_file_hashes : List EntryInfo → Result (Unit {0})
unfolding is_regular_file has_valid_hash
validate_selected_file_hashes [] = ok tt
validate_selected_file_hashes (entry ∷ entries) =
    let rest = validate_selected_file_hashes entries in
    elim (is_regular_file entry.type) [
      | true ↦ elim (has_valid_hash entry.file_hash_hex) [
        | true ↦ rest
        | false ↦ err object_corrupt
      ]
      | false ↦ rest
    ]

module _ (w : World) (o : ObjectStore) (stop : ℕ → Bool) where
  -- `output`, `full_file_hasher` and `written` after the loop over the chunks; `stop i` is what
  -- `stop_requested()` says before the i-th chunk.
  unfoldable pub write_chunks :
      List ChunkReferenceInfo
      → ℕ
      → Bytes
      → w.blake3.State
      → ℕ
      → Exec State (Bytes × w.blake3.State × ℕ)
  unfolding check_cancelled
  write_chunks [] i output full_file_hasher written = pure (output, full_file_hasher, written)
  write_chunks (chunk ∷ chunks) i output full_file_hasher written = do
    check_cancelled (stop i)
    raw ← read_verified w o chunk.hash_hex chunk.object_path chunk.raw_size chunk.stored_size
    check (length raw == chunk.raw_length) object_corrupt
    extended ← temporary_write w output raw
    hit w during_restore_write
    total ← lift (checked_add written chunk.raw_length)
    write_chunks chunks (i + 1) extended (update_impl w.blake3 full_file_hasher raw) total

  matches_hash : Option Bytes → Bytes → Exec State (Unit {0})
  matches_hash none digest = throw object_corrupt
  matches_hash (some expected) digest = check (digest == expected) object_corrupt

  -- From the opening of the temporary file to its `sync`, with what the temporary file then holds. The
  -- hash is there, since `validate_selected_file_hashes` has looked.
  unfoldable pub restore_content : EntryInfo → List ChunkReferenceInfo → Exec State Bytes
  unfolding matches_hash
  restore_content entry chunks = do
    temporary_file w
    written ← write_chunks chunks 0 [] w.blake3.init 0
    check (written.2 == entry.logical_size) object_corrupt
    matches_hash entry.file_hash_hex (to_hex (w.blake3.finish written.1))
    temporary_sync w
    pure written.0
