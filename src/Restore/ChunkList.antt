-- ===== src/Restore/ChunkList.antt =====
-- `validate_chunks` of src/core/restore_engine.cpp: the check of an entry's chunk list before anything is
-- written, and its arithmetic on ByteCount, which has 64 bits.
pub mod Cover
use file_vault.Common.{
  ℕ, suc, ◌+◌, ◌-◌, ◌*◌, ◌/◌, ◌%◌, ◌^◌, ◌≡◌, Bool, true, false, not, ◌&&◌, ◌||◌, List, [], ◌∷◌, ℤ,
  pos, negsuc, ltb, ◌==◌, nat_eq, if◌then◌else◌, u64_max, i64_max, Result, ok, err, require,
  object_corrupt,
}
use file_vault.Common.Checked.{◌>>=◌, ◌>>◌}
use file_vault.Database.Entries.{EntryInfo, ChunkReferenceInfo}

unfoldable pub checked_add : ℕ → ℕ → Result ℕ
checked_add left right =
    if ltb (u64_max - left) right then err object_corrupt else ok ((left + right) % 2 ^ 64)

abbrev pub overhead : ℕ
overhead = 64 * 1024

unfoldable pub maximum_stored_size : ℕ → ℕ
maximum_stored_size chunk_size =
    if ltb (u64_max - chunk_size) (chunk_size / 8)
    then u64_max
    else let subtotal = (chunk_size + chunk_size / 8) % 2 ^ 64 in
      if ltb (u64_max - subtotal) overhead then u64_max else (subtotal + overhead) % 2 ^ 64

-- sequence_number == expected_sequence, which is never negative
is_sequence : ℤ → ℕ → Bool
is_sequence (pos n) expected_sequence = n == expected_sequence
is_sequence (negsuc n) expected_sequence = false

-- The test of one chunk in the loop.
unfoldable pub is_invalid_chunk : ℕ → ℕ → ℕ → ℕ → ChunkReferenceInfo → Bool
unfolding is_sequence
is_invalid_chunk chunk_size stored_limit expected_offset expected_sequence chunk =
    not (is_sequence chunk.sequence_number expected_sequence)
    || not (chunk.raw_offset == expected_offset)
    || chunk.raw_length == 0
    || not (chunk.raw_length == chunk.raw_size)
    || ltb chunk_size chunk.raw_length
    || ltb chunk_size chunk.raw_size
    || chunk.stored_size == 0
    || ltb stored_limit chunk.stored_size
    || ltb u64_max chunk.stored_size

-- The loop, which comes to the last `expected_offset`.
unfoldable pub validate_loop : ℕ → ℕ → ℕ → ℕ → List ChunkReferenceInfo → Result ℕ
validate_loop chunk_size stored_limit expected_offset expected_sequence [] = ok expected_offset
validate_loop chunk_size stored_limit expected_offset expected_sequence (chunk ∷ chunks) = do
  require (not (is_invalid_chunk chunk_size stored_limit expected_offset expected_sequence chunk))
      object_corrupt
  next_offset ← checked_add expected_offset chunk.raw_length
  require (not (expected_sequence == i64_max)) object_corrupt
  validate_loop chunk_size stored_limit next_offset (suc expected_sequence) chunks

is_empty : List ChunkReferenceInfo → Bool
is_empty [] = true
is_empty (chunk ∷ chunks) = false

unfoldable pub validate_chunks : EntryInfo → List ChunkReferenceInfo → ℕ → Result (Unit {0})
unfolding is_empty
validate_chunks entry chunks chunk_size = do
  expected_offset ← validate_loop chunk_size (maximum_stored_size chunk_size) 0 0 chunks
  require
      (not (
        not (expected_offset == entry.logical_size)
        || (entry.logical_size == 0 && not (is_empty chunks))
        || (not (entry.logical_size == 0) && is_empty chunks)))
      object_corrupt
