-- ===== src/Restore/ChunkList/Cover.antt =====
-- Which chunk lists `validate_chunks` accepts.
use mathlib.Core.Path.{subst}
use file_vault.Common.{
  nat_beq_iff, ℕ, suc, ◌+◌, ◌*◌, ◌/◌, ◌≤◌, ◌<◌, ◌≡◌, ◌↔◌, refl, sym, ap, ◌∙◌, min, Bool, true,
  false, not, ◌&&◌, ◌||◌, List, [], ◌∷◌, ℤ, pos, negsuc, ◌==◌, nat_eq, length, u64_max, i64_max, ok,
  require, object_corrupt, arith,
}
use file_vault.Common.Checked.{>>=-eq-ok}
use file_vault.Database.Entries.{EntryInfo, ChunkReferenceInfo}
use file_vault.Restore.ChunkList.{
  checked_add, maximum_stored_size, is_sequence, is_invalid_chunk, validate_loop, is_empty,
  validate_chunks,
}

-- The limit on stored sizes is the sum that it stands for, cut to the range of ByteCount.
pub maximum_stored_size-min :
    (n : ℕ) → n ≤ u64_max → maximum_stored_size n ≡ min u64_max (n + n / 8 + 64 * 1024)
unfolding maximum_stored_size
maximum_stored_size-min n h = ground arith

pub record IsReference (chunk_size limit offset sequence : ℕ) (chunk : ChunkReferenceInfo)
    : Type 0 where
  pub sequence_lem : chunk.sequence_number ≡ pos sequence
  pub offset_lem : chunk.raw_offset ≡ offset
  pub nonempty : 0 < chunk.raw_length
  pub length_lem : chunk.raw_length ≤ chunk_size
  pub size_lem : chunk.raw_size ≡ chunk.raw_length
  pub stored_nonempty : 0 < chunk.stored_size
  pub stored_lem : chunk.stored_size ≤ limit

-- The chunks lie one behind the other from `offset` to `end`, numbered from `sequence` on.
abbrev pub Covers : ℕ → ℕ → ℕ → ℕ → List ChunkReferenceInfo → ℕ → Type 0
Covers chunk_size limit offset sequence [] end = offset ≡ end
Covers chunk_size limit offset sequence (chunk ∷ chunks) end =
    IsReference chunk_size limit offset sequence chunk
    × Covers chunk_size limit (offset + chunk.raw_length) (suc sequence) chunks end

valid-IsReference :
    (size limit offset sequence : ℕ) (chunk : ChunkReferenceInfo)
    → not (is_invalid_chunk size limit offset sequence chunk) ≡ true
    → IsReference size limit offset sequence chunk
unfolding is_invalid_chunk is_sequence
valid-IsReference size limit offset sequence chunk h = record {
  sequence_lem = numbered chunk.sequence_number (ground arith);
  offset_lem = ground arith;
  nonempty = ground arith;
  length_lem = ground arith;
  size_lem = ground arith;
  stored_nonempty = ground arith;
  stored_lem = ground arith;
}
  where
    numbered : (i : ℤ) → is_sequence i sequence ≡ true → i ≡ pos sequence
    numbered (pos n) e = ap pos (ground arith)
    numbered (negsuc n) e = cc

IsReference-valid :
    (size limit offset sequence : ℕ) (chunk : ChunkReferenceInfo)
    → limit ≤ u64_max
    → IsReference size limit offset sequence chunk
    → not (is_invalid_chunk size limit offset sequence chunk) ≡ true
unfolding is_invalid_chunk is_sequence
IsReference-valid size limit offset sequence chunk fits r =
    let number : is_sequence chunk.sequence_number sequence ≡ true =
      ap (λ i. is_sequence i sequence) r.sequence_lem ∙ (nat_beq_iff sequence sequence).1 refl in
    ground (
      arith, number, r.offset_lem, r.nonempty, r.length_lem, r.size_lem, r.stored_nonempty,
      r.stored_lem,
    )

pub checked_add-ok :
    (a b c : ℕ) → checked_add a b ≡ ok c → a ≤ u64_max → (c ≡ a + b) × (a + b ≤ u64_max)
unfolding checked_add
checked_add-ok a b c h k = ground arith

pub checked_add-fits : (a b : ℕ) → a + b ≤ u64_max → checked_add a b ≡ ok (a + b)
unfolding checked_add
checked_add-fits a b h = ground arith

validate_loop-Covers :
    (size limit offset sequence end : ℕ) (chunks : List ChunkReferenceInfo)
    → offset ≤ u64_max
    → validate_loop size limit offset sequence chunks ≡ ok end
    → Covers size limit offset sequence chunks end
unfolding validate_loop
validate_loop-Covers size limit offset sequence end [] fits h = cc h
validate_loop-Covers size limit offset sequence end (chunk ∷ chunks) fits h =
    let (_, valid, h1) =
      >>=-eq-ok (require (not (is_invalid_chunk size limit offset sequence chunk)) object_corrupt) _
        h in
    let (next, added, h2) = >>=-eq-ok (checked_add offset chunk.raw_length) _ h1 in
    let (_, _, h3) = >>=-eq-ok (require (not (sequence == i64_max)) object_corrupt) _ h2 in
    let (sum, room) = checked_add-ok offset chunk.raw_length next added fits in
    (
      valid-IsReference size limit offset sequence chunk (required _ valid),
      subst (λ o. Covers size limit o (suc sequence) chunks end) sum
          (validate_loop-Covers size limit next (suc sequence) end chunks
            (subst (λ o. o ≤ u64_max) (sym sum) room) h3),
    )
  where
    required : (b : Bool) → require b object_corrupt ≡ ok tt → b ≡ true
    required b e = ground arith

Covers-grows :
    (size limit offset sequence end : ℕ) (chunks : List ChunkReferenceInfo)
    → Covers size limit offset sequence chunks end
    → offset ≤ end
Covers-grows size limit offset sequence end [] c = omega arith
Covers-grows size limit offset sequence end (chunk ∷ chunks) c =
    omega (arith, Covers-grows size limit (offset + chunk.raw_length) (suc sequence) end chunks c.1)

Covers-validate_loop :
    (size limit offset sequence end : ℕ) (chunks : List ChunkReferenceInfo)
    → limit ≤ u64_max
    → end ≤ u64_max
    → sequence + length chunks ≤ i64_max
    → Covers size limit offset sequence chunks end
    → validate_loop size limit offset sequence chunks ≡ ok end
unfolding validate_loop
Covers-validate_loop size limit offset sequence end [] small fits few c = ap ok c
Covers-validate_loop size limit offset sequence end (chunk ∷ chunks) small fits few c =
    let valid = IsReference-valid size limit offset sequence chunk small c.0 in
    let added = checked_add-fits offset chunk.raw_length (
      omega (
        arith,
        Covers-grows size limit (offset + chunk.raw_length) (suc sequence) end chunks c.1,
      )) in
    let more : (sequence == i64_max) ≡ false = ground arith in
    rw (valid, added, more)
      (Covers-validate_loop size limit (offset + chunk.raw_length) (suc sequence) end chunks small
        fits (omega arith) c.1)

maximum_stored_size-fits : (n : ℕ) → n ≤ u64_max → maximum_stored_size n ≤ u64_max
maximum_stored_size-fits n h = omega (arith, maximum_stored_size-min n h)

empty_iff :
    (size limit end : ℕ) (chunks : List ChunkReferenceInfo)
    → Covers size limit 0 0 chunks end
    → not (
        not (end == end)
        || (end == 0 && not (is_empty chunks))
        || (not (end == 0) && is_empty chunks))
      ≡ true
unfolding is_empty
empty_iff size limit end [] c = let e : end ≡ 0 = sym c in ground arith
empty_iff size limit end (chunk ∷ chunks) c =
    let grows = Covers-grows size limit (0 + chunk.raw_length) 1 end chunks c.1 in
    let some_bytes = c.0.nonempty in ground arith

-- For an entry of up to 2^64 - 1 bytes and a list of up to 2^63 - 1 chunks, `validate_chunks` accepts the
-- list exactly if its chunks are numbered from 0 and lie one behind the other from offset 0 to the entry's
-- size, each nonempty, within the chunk size and within the limit on stored sizes.
pub validate_chunks_iff :
    (entry : EntryInfo) (chunks : List ChunkReferenceInfo) (size : ℕ)
    → size ≤ u64_max
    → entry.logical_size ≤ u64_max
    → length chunks ≤ i64_max
    → (validate_chunks entry chunks size ≡ ok tt)
      ↔ Covers size (maximum_stored_size size) 0 0 chunks entry.logical_size
unfolding validate_chunks
validate_chunks_iff entry chunks size small fits few = (accepted, accepts)
  where
    accepted :
        validate_chunks entry chunks size ≡ ok tt
        → Covers size (maximum_stored_size size) 0 0 chunks entry.logical_size
    accepted h =
        let (end, e, h1) =
          >>=-eq-ok (validate_loop size (maximum_stored_size size) 0 0 chunks) _ h in
        let same : end ≡ entry.logical_size = ground arith in
        subst (Covers size (maximum_stored_size size) 0 0 chunks) same
          (validate_loop-Covers size (maximum_stored_size size) 0 0 end chunks (omega arith) e)

    accepts :
        Covers size (maximum_stored_size size) 0 0 chunks entry.logical_size
        → validate_chunks entry chunks size ≡ ok tt
    accepts c =
        rw
          (
            Covers-validate_loop size (maximum_stored_size size) 0 0 entry.logical_size chunks
                (maximum_stored_size-fits size small) fits (omega arith) c,
            empty_iff size (maximum_stored_size size) entry.logical_size chunks c,
          )
          refl
