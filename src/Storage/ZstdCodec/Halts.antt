-- ===== src/Storage/ZstdCodec/Halts.antt =====
-- Compression and decompression return or throw.
use file_vault.Common.{ℕ, Option, none, some, Bytes}
use file_vault.Common.Exec.Halts.{Finishes, halts_rules}
use file_vault.Storage.ZstdCodec.{
  Zstd, ZstdCodec, compress, decompress, compression_bound, or_zstd_error,
}

or_zstd_error-Finishes : {A : Type 0} (found : Option A) → Finishes (or_zstd_error found)
or_zstd_error-Finishes none = search halts_rules
or_zstd_error-Finishes (some a) = search halts_rules

bound-Finishes : (z : Zstd) (n : ℕ) → Finishes (compression_bound z n)
unfolding compression_bound
bound-Finishes z n = or_zstd_error-Finishes (z.compress_bound n)

pub compress-Finishes :
    (z : Zstd) (codec : ZstdCodec) (raw : Bytes) → Finishes (compress z codec raw)
unfolding compress
compress-Finishes z codec raw = search (halts_rules, bound-Finishes, or_zstd_error-Finishes)

pub decompress-Finishes :
    (z : Zstd) (codec : ZstdCodec) (c : Bytes) (n m : ℕ) → Finishes (decompress z codec c n m)
unfolding decompress
decompress-Finishes z codec c n m =
    search (halts_rules, bound-Finishes, or_zstd_error-Finishes) depth 20
