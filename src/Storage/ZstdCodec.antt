-- ===== src/Storage/ZstdCodec.antt =====
-- src/core/storage/zstd_codec.hpp and zstd_codec.cpp. The zstd library is a parameter; its laws are
-- what zstd.h documents.
pub mod Halts
pub mod RoundTrip
use file_vault.Common.{
  ℕ, ◌+◌, ◌-◌, ◌/◌, ◌≤◌, ◌<◌, ◌≡◌, Option, none, some, Bytes, length, ltb, not, ◌==◌, nat_eq, ℤ,
  if◌then◌else◌, Result, ok, err, require, compression_error,
}
use file_vault.Common.Checked.{◌>>=◌, ◌>>◌}

-- Each function of zstd.h on the buffers that it is given; `none` is a result that `ZSTD_isError`
-- tells. The first number of `compress` and of `decompress` is the capacity of the destination.
pub record Zstd : Type 0 where
  pub compress_bound : ℕ → Option ℕ
  pub compress : ℕ → Bytes → ℤ → Option Bytes
  pub find_frame_compressed_size : Bytes → Option ℕ
  pub decompress : ℕ → Bytes → Option Bytes

-- ZSTD_COMPRESSBOUND
abbrev pub zstd_compressbound : ℕ → ℕ
zstd_compressbound n = n + n / 256 + (if ltb n 131072 then (131072 - n) / 2048 else 0)

abbrev pub zstd_max_input_size : ℕ
zstd_max_input_size = 0xFF00FF00FF00FF00

pub record ZstdLaws (z : Zstd) : Type 0 where
  pub bound_lem :
      (n : ℕ) → n < zstd_max_input_size → z.compress_bound n ≡ some (zstd_compressbound n)
  pub succeeds :
      (capacity b : ℕ) (raw : Bytes) (level : ℤ)
      → z.compress_bound (length raw) ≡ some b
      → b ≤ capacity
      → (c : Bytes) × (z.compress capacity raw level ≡ some c)
  pub length_lem :
      (capacity : ℕ) (raw c : Bytes) (level : ℤ)
      → z.compress capacity raw level ≡ some c
      → (0 < length c) × (length c ≤ capacity)
  pub one_frame :
      (capacity : ℕ) (raw c : Bytes) (level : ℤ)
      → z.compress capacity raw level ≡ some c
      → z.find_frame_compressed_size c ≡ some (length c)
  pub inverse :
      (capacity k : ℕ) (raw c : Bytes) (level : ℤ)
      → z.compress capacity raw level ≡ some c
      → length raw ≤ k
      → z.decompress k c ≡ some raw
  pub decompress_length : (k : ℕ) (c raw : Bytes) → z.decompress k c ≡ some raw → length raw ≤ k

pub record ZstdCodec : Type 0 where
  pub compression_level : ℤ

-- `throw_zstd_error` on a result that is an error
abbrev pub or_zstd_error {ℓ} : {A : Type ℓ} → Option A → Result A
or_zstd_error none = err compression_error
or_zstd_error (some a) = ok a

module _ (z : Zstd) where
  pub compression_bound : ℕ → Result ℕ
  compression_bound raw_size = or_zstd_error (z.compress_bound raw_size)

  unfoldable pub compress : ZstdCodec → Bytes → Result Bytes
  unfolding compression_bound
  compress codec raw = do
    bound ← compression_bound (length raw)
    or_zstd_error (z.compress bound raw codec.compression_level)

  unfoldable pub decompress : ZstdCodec → Bytes → ℕ → ℕ → Result Bytes
  unfolding compression_bound
  decompress codec compressed expected_raw_size maximum_raw_size = do
    require (not (ltb maximum_raw_size expected_raw_size)) compression_error
    maximum_compressed_size ← compression_bound maximum_raw_size
    require (not (ltb maximum_compressed_size (length compressed))) compression_error
    frame_size ← or_zstd_error (z.find_frame_compressed_size compressed)
    require (frame_size == length compressed) compression_error
    raw ← or_zstd_error (z.decompress expected_raw_size compressed)
    require (length raw == expected_raw_size) compression_error
    ok raw
