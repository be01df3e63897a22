-- ===== src/Database/Chunks/Halts.antt =====
-- The operations on the table of chunks return or throw.
use file_vault.Common.{
  ℕ, Option, none, some, Bytes, ok, err, object_corrupt, if◌then◌else◌, ◌==◌, ◌||◌, nat_eq,
}
use file_vault.Common.Exec.Halts.{Finishes, Halts, halts_rules}
use file_vault.Database.Chunks.{
  StoredChunkInfo, Table, checked_int64, select_by_hash, find_chunk, verify_row, ensure_chunk,
}

checked_int64-Finishes : (n : ℕ) → Finishes (checked_int64 n)
unfolding checked_int64
checked_int64-Finishes n = search halts_rules

found-Finishes :
    (row : Option StoredChunkInfo)
    → Finishes (elim row [
      | none ↦ ok none
      | some row ↦
          if row.raw_size == 0 || row.stored_size == 0 then err object_corrupt else ok (some row)
    ])
found-Finishes none = search halts_rules
found-Finishes (some row) = search halts_rules

pub find_chunk-Halts : (h : Bytes) → Halts {S = Table} (λ rows. (find_chunk h rows, rows))
unfolding find_chunk
find_chunk-Halts h = record { at = λ rows. (found-Finishes (select_by_hash h rows)).at }

verify_row-Halts : (c : StoredChunkInfo) (row : Option StoredChunkInfo) → Halts (verify_row c row)
unfolding verify_row
verify_row-Halts c none = search halts_rules
verify_row-Halts c (some row) = search halts_rules

pub ensure_chunk-Halts : (c : StoredChunkInfo) → Halts (ensure_chunk c)
unfolding ensure_chunk
ensure_chunk-Halts c = search (halts_rules, checked_int64-Finishes, verify_row-Halts) depth 20
