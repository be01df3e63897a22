-- ===== src/Snapshot/Counters.antt =====
-- The arithmetic of src/core/snapshot_engine.cpp on ByteCount, std::uint64_t and std::size_t, which have 64
-- bits.
use file_vault.Common.{
  ℕ, ◌+◌, ◌-◌, ◌%◌, ◌^◌, ◌≤◌, ◌≡◌, ltb, nat_eq, if◌then◌else◌, u64_max, i64_max, ℤ, pos, Result, ok,
  err, internal_error, arith,
}

unfoldable pub add_bytes : ℕ → ℕ → Result ℕ
add_bytes total value =
    if ltb (u64_max - value) total then err internal_error else ok ((total + value) % 2 ^ 64)

unfoldable pub checked_sequence : ℕ → Result ℤ
checked_sequence sequence = if ltb i64_max sequence then err internal_error else ok (pos sequence)

unfoldable pub saturating_add : ℕ → ℕ → ℕ
saturating_add total value =
    if ltb (u64_max - total) value then u64_max else (total + value) % 2 ^ 64

-- What `add_bytes` returns is the sum, and it fits 64 bits.
pub add_bytes-ok :
    (total value sum : ℕ)
    → total ≤ u64_max
    → value ≤ u64_max
    → add_bytes total value ≡ ok sum
    → (sum ≡ total + value) × (sum ≤ u64_max)
unfolding add_bytes
add_bytes-ok total value sum t v e = (ground arith, ground arith)
