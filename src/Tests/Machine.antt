-- ===== src/Tests/Machine.antt =====
-- A machine for the tests: a codec that stores its input behind a byte, a digest made of the length, and
-- no failures.
use mathlib.Core.Path.{subst}
use file_vault.Common.{
  ℕ, zero, suc, ◌%◌, ◌≤◌, ◌<◌, ◌≡◌, refl, false, Option, none, some, [], ◌∷◌, ◌++◌, Bytes, length,
  replicate, length-replicate, leb, ltb, if◌then◌else◌, pos, All, append_assoc, append-nil, arith,
}
use file_vault.Filesystem.Tree.{Tree, absent}
use file_vault.Storage.ZstdCodec.{Zstd, ZstdLaws, zstd_compressbound, zstd_max_input_size}
use file_vault.Storage.Blake3Hasher.{Blake3, Blake3Laws, digest_size}
use file_vault.Storage.World.{World, State}
use file_vault.Storage.ObjectStore.{ObjectStore}

abbrev unframe : ℕ → Bytes → Option Bytes
unframe k [] = none
unframe k (b ∷ raw) = if leb (length raw) k then some raw else none

abbrev pub frames : Zstd
frames = record {
  compress_bound = λ n. if ltb n zstd_max_input_size then some (zstd_compressbound n) else none;
  compress = λ capacity raw level. if leb (suc (length raw)) capacity then some (0 ∷ raw) else none;
  find_frame_compressed_size = λ c. some (length c);
  decompress = unframe;
}

framed :
    (capacity : ℕ) (raw c : Bytes)
    → (if leb (suc (length raw)) capacity then some (0 ∷ raw) else none) ≡ some c
    → (0 ∷ raw ≡ c) × (suc (length raw) ≤ capacity)
framed capacity raw c e = (ground arith, ground arith)

unframe-length : (k : ℕ) (c raw : Bytes) → unframe k c ≡ some raw → length raw ≤ k
unframe-length k [] raw e = cc
unframe-length k (b ∷ c) raw e = ground arith

bound_grows : (n b : ℕ) → frames.compress_bound n ≡ some b → suc n ≤ b
bound_grows n b e =
    let same : zstd_compressbound n ≡ b = ground arith in subst (λ x. suc n ≤ x) same (ground arith)

pub frames-ZstdLaws : ZstdLaws frames
frames-ZstdLaws = record {
  bound_lem = λ n h. ground arith;
  succeeds = λ capacity b raw level e h.
      (0 ∷ raw, let grown = bound_grows (length raw) b e in ground arith);
  length_lem = λ capacity raw c level e.
      let (same, fits) = framed capacity raw c e in
      subst (λ x. (0 < length x) × (length x ≤ capacity)) same (omega arith, fits);
  one_frame = λ capacity raw c level e. refl;
  inverse = λ capacity k raw c level e h.
      let (same, _) = framed capacity raw c e in
      subst (λ x. unframe k x ≡ some raw) same (ground arith);
  decompress_length = unframe-length;
}

abbrev pub lengths : Blake3
lengths = record {
  State = Bytes;
  init = [];
  absorb = λ s x. s ++ x;
  finish = λ s. replicate digest_size (length s % 256);
}

All-replicate : (n a : ℕ) → a < 256 → All (λ (x : ℕ). x < 256) (replicate n a)
All-replicate zero a h = tt
All-replicate (suc n) a h = (h, All-replicate n a h)

pub lengths-Blake3Laws : Blake3Laws lengths
lengths-Blake3Laws = record {
  absorb_append = λ s x y. append_assoc s x y;
  absorb_nil = λ s. append-nil s;
  length_lem = λ s. length-replicate digest_size (length s % 256);
  bytes = λ s. All-replicate digest_size (length s % 256) (omega arith);
}

abbrev pub machine : World
machine = record {
  zstd = frames;
  blake3 = lengths;
  faults = λ n. false;
  injected = λ n point. none;
  others = λ n t. t;
  now = λ n. pos n;
}

abbrev pub objects : ObjectStore
objects = record {
  metadata = false;
  maximum_chunk_size = 4;
  codec = record { compression_level = pos 3 };
}

abbrev pub empty_tree : Tree
empty_tree p = absent

abbrev pub at_start : Tree → State
at_start t = record { files = t; chunks = []; known = []; ticks = 0 }
