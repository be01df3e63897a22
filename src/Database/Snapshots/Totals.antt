-- ===== src/Database/Snapshots/Totals.antt =====
-- The totals of a snapshot counted from its entries.
use file_vault.Common.{
  ◌↔◌, inl, inr, ◌+◌, ◌&&◌, Bool-cases, ℕ, ◌≤◌, ◌≡◌, refl, true, ◌==◌, nat_eq, nat_beq_iff, List,
  [], ◌∷◌, arith, i64_max,
}
use file_vault.Database.Entries.{EntryType, regular_file, directory, symbolic_link}
use file_vault.Database.Snapshots.{EntryRow, SnapshotTotals, sum_entries, is_entry_type}

pub type_iff : (a b : EntryType) → (is_entry_type a b ≡ true) ↔ (b ≡ a)
type_iff regular_file regular_file = (λ e. refl, λ e. refl)
type_iff regular_file directory = (λ e. cc, λ e. cc)
type_iff regular_file symbolic_link = (λ e. cc, λ e. cc)
type_iff directory regular_file = (λ e. cc, λ e. cc)
type_iff directory directory = (λ e. refl, λ e. refl)
type_iff directory symbolic_link = (λ e. cc, λ e. cc)
type_iff symbolic_link regular_file = (λ e. cc, λ e. cc)
type_iff symbolic_link directory = (λ e. cc, λ e. cc)
type_iff symbolic_link symbolic_link = (λ e. refl, λ e. refl)

-- The sum of a value over the entries of one kind in one snapshot.
pub data SumOf (id : ℕ) (type : EntryType) (value : EntryRow → ℕ) : List EntryRow → ℕ → Type 0 where
  nothing : SumOf id type value [] 0
  counted :
      {entry : EntryRow} {entries : List EntryRow} {n : ℕ}
      → entry.snapshot_id ≡ id
      → entry.entry_type ≡ type
      → SumOf id type value entries n
      → SumOf id type value (entry ∷ entries) (value entry + n)
  passed_over :
      {entry : EntryRow} {entries : List EntryRow} {n : ℕ}
      → ¬ ((entry.snapshot_id ≡ id) × (entry.entry_type ≡ type))
      → SumOf id type value entries n
      → SumOf id type value (entry ∷ entries) n

pub sum_entries-SumOf :
    (id : ℕ) (type : EntryType) (value : EntryRow → ℕ) (entries : List EntryRow)
    → SumOf id type value entries (sum_entries id type value entries)
unfolding sum_entries
sum_entries-SumOf id type value [] = nothing
sum_entries-SumOf id type value (entry ∷ entries) =
    let rest = sum_entries-SumOf id type value entries in
    elim (Bool-cases (entry.snapshot_id == id && is_entry_type type entry.entry_type)) [
      | inl hit ↦ rw hit (
          counted ((nat_beq_iff entry.snapshot_id id).0 (ground arith))
            ((type_iff type entry.entry_type).0 (ground arith)) rest)
      | inr miss ↦ rw miss (
          passed_over
            (λ (same, typed).
              let a = (nat_beq_iff entry.snapshot_id id).1 same in
              let b = (type_iff type entry.entry_type).1 typed in absurd (ground arith))
            rest)
    ]

-- The totals of a snapshot as its entries and the writer give them.
pub record AreTotals (id : ℕ) (entries : List EntryRow) (written final : SnapshotTotals)
    : Type 0 where
  pub files : SumOf id regular_file (λ entry. 1) entries final.file_count
  pub directories : SumOf id directory (λ entry. 1) entries final.directory_count
  pub links : SumOf id symbolic_link (λ entry. 1) entries final.symlink_count
  pub size : SumOf id regular_file (λ entry. entry.logical_size) entries final.logical_size
  pub stored : final.new_stored_size ≡ written.new_stored_size
  pub chunks : final.new_chunk_count ≡ written.new_chunk_count
  pub reused : final.reused_chunk_count ≡ written.reused_chunk_count
  pub duration : final.duration_ms ≡ written.duration_ms
  pub counts_fit :
      (final.file_count ≤ i64_max)
      × (final.directory_count ≤ i64_max)
      × (final.symlink_count ≤ i64_max)
  pub sizes_fit :
      (final.logical_size ≤ i64_max)
      × (final.new_stored_size ≤ i64_max)
      × (final.new_chunk_count ≤ i64_max)
      × (final.reused_chunk_count ≤ i64_max)
