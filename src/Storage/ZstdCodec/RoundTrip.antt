-- ===== src/Storage/ZstdCodec/RoundTrip.antt =====
-- What comes out of the codec, and that it goes back in.
use native.Mathlib.Nat.{le_refl, le_trans}
use file_vault.Common.{
  ◌⊎◌, ◌↔◌, inl, inr, ap, sym, ◌∙◌, ℕ, ◌+◌, ◌*◌, ◌≤◌, ◌<◌, ◌≡◌, some, Bytes, length, ok, err, arith,
  compression_error,
}
use file_vault.Storage.ZstdCodec.{
  Zstd, ZstdLaws, ZstdCodec, zstd_compressbound, zstd_max_input_size, compress, decompress,
}

-- Up to 4 MiB the bound stays within the allowance of 64 KiB, and it grows with the size.
bound_allowance : (n : ℕ) → n ≤ 4 * 1024 * 1024 → zstd_compressbound n ≤ n + 64 * 1024
bound_allowance n h = ground arith

bound_mono : (m n : ℕ) → m ≤ n → zstd_compressbound m ≤ zstd_compressbound n
bound_mono m n h = ground arith

module _ (z : Zstd) (laws : ZstdLaws z) (codec : ZstdCodec) where
  compress_of_some :
      (raw c : Bytes) (b : ℕ)
      → z.compress_bound (length raw) ≡ some b
      → z.compress b raw codec.compression_level ≡ some c
      → compress z codec raw ≡ ok c
  unfolding compress
  compress_of_some raw c b bound e = rw bound (rw e)

  decompress_of_compress :
      (maximum b : ℕ) (raw c : Bytes)
      → length raw ≤ maximum
      → length c ≤ b
      → z.compress_bound maximum ≡ some b
      → z.find_frame_compressed_size c ≡ some (length c)
      → z.decompress (length raw) c ≡ some raw
      → decompress z codec c (length raw) maximum ≡ ok raw
  unfolding decompress
  decompress_of_compress maximum b raw c h small bound frame back = ground arith

  compressed_facts :
      (maximum : ℕ) (raw c : Bytes)
      → length raw ≤ maximum
      → maximum ≤ 4 * 1024 * 1024
      → z.compress (zstd_compressbound (length raw)) raw codec.compression_level ≡ some c
      → (compress z codec raw ≡ ok c)
        × (0 < length c)
        × (length c ≤ maximum + 64 * 1024)
        × (decompress z codec c (length raw) maximum ≡ ok raw)
  compressed_facts maximum raw c h limit e =
      let b = zstd_compressbound (length raw) in
      let sizes = laws.length_lem b raw c codec.compression_level e in
      (
        compress_of_some raw c b (laws.bound_lem (length raw) (omega arith)) e,
        sizes.0,
        le_trans sizes.1 (le_trans (bound_allowance (length raw) (omega arith)) (omega arith)),
        decompress_of_compress maximum (zstd_compressbound maximum) raw c h
            (le_trans sizes.1 (bound_mono (length raw) maximum h))
            (laws.bound_lem maximum (omega arith))
            (laws.one_frame b raw c codec.compression_level e)
            (laws.inverse b (length raw) raw c codec.compression_level e (le_refl (length raw))),
      )

  -- Raw bytes of at most `maximum` bytes, where `maximum` is at most 4 MiB, compress without error to
  -- at least 1 and at most `maximum` + 64 KiB bytes, and these decompress to the same raw bytes under
  -- their own size and that maximum.
  pub decompress-compress :
      (maximum : ℕ) (raw : Bytes)
      → length raw ≤ maximum
      → maximum ≤ 4 * 1024 * 1024
      → (c : Bytes) × (compress z codec raw ≡ ok c)
        × (0 < length c)
        × (length c ≤ maximum + 64 * 1024)
        × (decompress z codec c (length raw) maximum ≡ ok raw)
  decompress-compress maximum raw h limit =
      let b = zstd_compressbound (length raw) in
      let (c, e) =
        laws.succeeds b b raw codec.compression_level (laws.bound_lem (length raw) (omega arith))
          (le_refl b) in
      let facts = compressed_facts maximum raw c h limit e in
      (c, facts.0, facts.1, facts.2, facts.3)

module _ (z : Zstd) (codec : ZstdCodec) where
  pub decompress_sound :
      (c raw : Bytes) (expected maximum : ℕ)
      → decompress z codec c expected maximum ≡ ok raw
      → (length raw ≡ expected)
        × (expected ≤ maximum)
        × (z.find_frame_compressed_size c ≡ some (length c))
        × (z.decompress expected c ≡ some raw)
  unfolding decompress
  decompress_sound c raw expected maximum h = ground arith

  -- `decompress` fails with `compression_error` and with nothing else.
  pub decompress_error :
      (c : Bytes) (expected maximum : ℕ)
      → ((raw : Bytes) × (decompress z codec c expected maximum ≡ ok raw))
        ⊎ (decompress z codec c expected maximum ≡ err compression_error)
  unfolding decompress
  decompress_error c expected maximum = ground arith

-- Raw bytes of the stated size, within the maximum, that zstd gives back from the input, which is one frame
-- of at most the bound for that maximum and no more.
pub record IsFrameOf (z : Zstd) (expected maximum : ℕ) (c raw : Bytes) : Type 0 where
  pub size : length raw ≡ expected
  pub within : expected ≤ maximum
  pub bounded : length c ≤ zstd_compressbound maximum
  pub one_frame : z.find_frame_compressed_size c ≡ some (length c)
  pub content : z.decompress expected c ≡ some raw

module _ (z : Zstd) (laws : ZstdLaws z) (codec : ZstdCodec) where
  IsFrameOf-ok :
      (c raw : Bytes) (expected maximum : ℕ)
      → z.compress_bound maximum ≡ some (zstd_compressbound maximum)
      → IsFrameOf z expected maximum c raw
      → decompress z codec c expected maximum ≡ ok raw
  unfolding decompress
  IsFrameOf-ok c raw expected maximum bound i =
      let a = i.size in
      let b = i.within in
      let d = i.bounded in let e = i.one_frame in let f = i.content in ground arith

  decompress-IsFrameOf :
      (c raw : Bytes) (expected maximum : ℕ)
      → z.compress_bound maximum ≡ some (zstd_compressbound maximum)
      → decompress z codec c expected maximum ≡ ok raw
      → IsFrameOf z expected maximum c raw
  unfolding decompress
  decompress-IsFrameOf c raw expected maximum bound h =
      let (size, within, one_frame, content) = decompress_sound z codec c raw expected maximum h in
      record {
        size = size;
        within = within;
        bounded = ground arith;
        one_frame = one_frame;
        content = content;
      }

  -- If zstd obeys its laws and the maximum is below its largest input, `decompress` either returns raw
  -- bytes, exactly those of the stated size within the maximum that zstd gives back from the input, which
  -- is one frame of at most the bound that zstd documents for the maximum; or there are no such bytes,
  -- and it fails with `compression_error`.
  pub decompress-decides :
      (c : Bytes) (expected maximum : ℕ)
      → maximum < zstd_max_input_size
      → ((raw : Bytes) × (decompress z codec c expected maximum ≡ ok raw)
          × ((other : Bytes) → IsFrameOf z expected maximum c other ↔ (raw ≡ other)))
        ⊎ ((decompress z codec c expected maximum ≡ err compression_error)
            × ((other : Bytes) → ¬ IsFrameOf z expected maximum c other))
  decompress-decides c expected maximum small =
      let bound = laws.bound_lem maximum small in
      elim (decompress_error z codec c expected maximum) [
        | inl (raw, e) ↦ inl (
          raw,
          e,
          λ other. (
            λ i. same raw other (sym e ∙ IsFrameOf-ok c other expected maximum bound i),
            λ p. decompress-IsFrameOf c other expected maximum bound (e ∙ ap ok p),
          ),
        )
        | inr e ↦
            inr (e, λ other i. clash other (sym e ∙ IsFrameOf-ok c other expected maximum bound i))
      ]
    where
      same : (a b : Bytes) → ok a ≡ ok b → a ≡ b
      same a b p = cc

      clash : (b : Bytes) → ¬ (err compression_error ≡ ok b)
      clash b p = cc
