-- ===== src/Storage/Chunker.antt =====
-- src/core/storage/chunker.hpp and chunker.cpp. The input stream, the callback and the stop token are
-- parameters: `stop i` is what `stop_requested()` says at the i-th round of the loop.
pub mod Cover
use file_vault.Common.{
  ℕ, zero, suc, ◌+◌, ◌-◌, ◌*◌, ◌≤◌, ◌≡◌, Bool, true, false, not, ◌&&◌, ◌||◌, Option, none, some,
  List, [], ◌∷◌, Bytes, length, take, drop, ltb, leb, ◌==◌, nat_eq, if◌then◌else◌, u64_max, i64_max,
  Result, ok, err, out_of_fuel, invalid_argument, cancelled, filesystem_error,
}
use file_vault.Common.Exec.{Exec, pure, throw, check, ◌>>=◌, ◌>>◌}

abbrev pub k_maximum_supported_chunk_size : ℕ
k_maximum_supported_chunk_size = 4 * 1024 * 1024

pub record Chunker : Type 0 where
  pub maximum_chunk_size : ℕ

-- the constructor
unfoldable pub make : ℕ → Result Chunker
make maximum_chunk_size =
    if maximum_chunk_size == 0
      || ltb k_maximum_supported_chunk_size maximum_chunk_size
      || ltb u64_max maximum_chunk_size
      || ltb i64_max maximum_chunk_size
    then err invalid_argument
    else ok (record { maximum_chunk_size = maximum_chunk_size })

-- What `read`, `gcount`, `eof`, `bad` and `fail` say after one read of a stream.
pub record ReadOutcome : Type 0 where
  pub bytes : Bytes
  pub eof : Bool
  pub bad : Bool
  pub fail : Bool

abbrev pub Istream : Type 0 → Type 0
Istream I = I → ℕ → ReadOutcome × I

abbrev pub ChunkCallback : Type 0 → Type 0
ChunkCallback S = ℕ → Bytes → Exec S (Unit {0})

module _ {S I : Type 0} (read : Istream I) (stop : ℕ → Bool) (callback : ChunkCallback S) where
  -- One pass of `while (true)`; `next` is the pass after it.
  unfoldable pub deliver : ReadOutcome → (ℕ → Exec S (Unit {0})) → ℕ → Exec S (Unit {0})
  deliver outcome next raw_offset = do
    let chunk_size = length outcome.bytes
    check (leb raw_offset (u64_max - chunk_size)) filesystem_error
    callback raw_offset outcome.bytes
    if outcome.eof then pure tt else next (raw_offset + chunk_size)

  unfoldable pub after_read : ReadOutcome → (ℕ → Exec S (Unit {0})) → ℕ → Exec S (Unit {0})
  unfolding deliver
  after_read outcome next raw_offset = do
    check (not (outcome.bad || (outcome.fail && not outcome.eof))) filesystem_error
    if length outcome.bytes == 0
        then (if outcome.eof then pure tt else throw filesystem_error)
        else deliver outcome next raw_offset

  unfoldable pub loop : Chunker → ℕ → ℕ → ℕ → I → Exec S (Unit {0})
  unfolding after_read
  loop c zero i raw_offset input s = (out_of_fuel, s)
  loop c (suc fuel) i raw_offset input s =
      let outcome = (read input c.maximum_chunk_size).0 in
      let rest = (read input c.maximum_chunk_size).1 in
      (check (not (stop i)) cancelled
          >> after_read outcome (λ offset. loop c fuel (i + 1) offset rest) raw_offset)
        s

  -- the stream overload, with a callback that is there
  unfoldable pub for_each_chunk : Chunker → ℕ → I → Exec S (Unit {0})
  unfolding loop
  for_each_chunk c fuel input = loop c fuel 1 0 input

module _ {S I : Type 0} (read : Istream I) (stop : ℕ → Bool) where
  -- the path overload: `source` is the opened file, or none if it does not open
  unfoldable pub for_each_chunk_of_file :
      Option (ChunkCallback S) → Chunker → ℕ → Option I → Exec S (Unit {0})
  for_each_chunk_of_file none c fuel source = throw invalid_argument
  for_each_chunk_of_file (some callback) c fuel none = do
    check (not (stop 0)) cancelled
    throw filesystem_error
  for_each_chunk_of_file (some callback) c fuel (some input) = do
    check (not (stop 0)) cancelled
    for_each_chunk read stop callback c fuel input

-- A file whose bytes are all there: `read` takes up to `count` and meets the end if it gets fewer.
unfoldable pub read_file : Istream Bytes
read_file rest count = (
  record {
    bytes = take count rest;
    eof = ltb (length rest) count;
    bad = false;
    fail = ltb (length rest) count;
  },
  drop count rest,
)
