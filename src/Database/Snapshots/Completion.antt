-- ===== src/Database/Snapshots/Completion.antt =====
-- What it takes to complete a snapshot.
use mathlib.Core.Path.{subst}
use file_vault.Common.{
  sym, some, ℕ, ◌≤◌, ◌≡◌, ◌≢◌, refl, ap, Bool, true, false, ◌==◌, nat_eq, nat_beq_iff, List, [],
  ◌∷◌, All, any, ℤ, none, ok, arith, i64_max,
}
use file_vault.Common.Exec.{Exec, gets, ◌>>=◌}
use file_vault.Database.Chunks.{checked_int64}
use file_vault.Database.Entries.{regular_file, directory, symbolic_link}
use file_vault.Database.Snapshots.{
  Database, EntryRow, SnapshotTotals, pending, complete, is_entry_type, update_rows, update,
  require_single_updated_row, returned_rows, mark_snapshot_complete, update_unless, bind_int64,
  final_totals, is_unhashed_file, is_null, completed,
}
use file_vault.Database.Snapshots.Totals.{AreTotals, type_iff, sum_entries-SumOf}
use file_vault.Database.Snapshots.Replaced.{Replaces, one_picked}

bind_int64-then :
    (value : ℕ) (f : Unit {0} → Exec Database (Unit {0})) (s t : Database)
    → (bind_int64 value >>= f) s ≡ (ok tt, t)
    → (value ≤ i64_max) × (f tt s ≡ (ok tt, t))
unfolding ◌>>=◌ checked_int64
bind_int64-then value f s t h = ground arith

gets-then :
    {A : Type 0} (read : Database → A) (f : A → Exec Database (Unit {0})) (s t : Database)
    → (gets read >>= f) s ≡ (ok tt, t)
    → f (read s) s ≡ (ok tt, t)
unfolding ◌>>=◌
gets-then read f s t h = h

updated :
    (unhashed : Bool) (id : ℕ) (totals : SnapshotTotals) (at : ℤ) (s t : Database)
    → update_unless unhashed id totals at s ≡ (ok tt, t)
    → (unhashed ≡ false)
      × (returned_rows id pending s.snapshots ≡ 1)
      × (t ≡ record s { snapshots = update_rows id pending (completed totals at) s.snapshots })
unfolding update_unless update require_single_updated_row ◌>>=◌
updated true id totals at s t h = cc
updated false id totals at s t h = (refl, ground arith, ground arith)

-- The entry, if it is a file of the snapshot, has a hash.
abbrev pub IsHashed : ℕ → EntryRow → Type 0
IsHashed id entry =
    entry.snapshot_id ≡ id → entry.entry_type ≡ regular_file → entry.file_hash ≢ none

none_unhashed :
    (id : ℕ) (entries : List EntryRow)
    → any (is_unhashed_file id) entries ≡ false
    → All (IsHashed id) entries
unfolding is_unhashed_file is_null
none_unhashed id [] h = tt
none_unhashed id (entry ∷ entries) h = (
  λ same file gone.
      let mine : (entry.snapshot_id == id) ≡ true = (nat_beq_iff _ _).1 same in
      let typed : is_entry_type regular_file entry.entry_type ≡ true =
        (type_iff regular_file entry.entry_type).1 file in
      let missing : is_null entry.file_hash ≡ true = ap is_null gone in
      absurd (ground (arith, mine, typed, missing)),
  none_unhashed id entries (ground arith),
)

-- If completing a snapshot succeeds, each of its files has a hash; the entries stay, and so do the
-- snapshots but for one row, the only pending one of that identifier, which becomes complete at the given
-- time; its numbers of files, directories and links and the size of its files are those of its
-- entries, its other totals the given ones, and each number fits an int64.
pub mark_snapshot_complete_sound :
    (id : ℕ) (totals : SnapshotTotals) (at : ℤ) (db t : Database)
    → mark_snapshot_complete id totals at db ≡ (ok tt, t)
    → (final : SnapshotTotals) × All (IsHashed id) db.entries
      × (t.entries ≡ db.entries)
      × (t.last_snapshot_id ≡ db.last_snapshot_id)
      × AreTotals id db.entries totals final
      × Replaces id
          (λ row. record row { completed_at_ns = some at; status = complete; totals = final })
          db.snapshots
          t.snapshots
unfolding mark_snapshot_complete final_totals
mark_snapshot_complete_sound id totals at db t h =
    let final = final_totals id totals db.entries in
    let h1 = gets-then (λ (s : Database). final_totals id totals s.entries) _ db t h in
    let h2 = gets-then (λ (s : Database). any (is_unhashed_file id) s.entries) _ db t h1 in
    let (files, h3) = bind_int64-then final.file_count _ db t h2 in
    let (directories, h4) = bind_int64-then final.directory_count _ db t h3 in
    let (links, h5) = bind_int64-then final.symlink_count _ db t h4 in
    let (size, h6) = bind_int64-then final.logical_size _ db t h5 in
    let (stored, h7) = bind_int64-then final.new_stored_size _ db t h6 in
    let (chunks, h8) = bind_int64-then final.new_chunk_count _ db t h7 in
    let (reused, h9) = bind_int64-then final.reused_chunk_count _ db t h8 in
    let (hashed, single, changed) = updated _ id final at db t h9 in
    (
      final,
      none_unhashed id db.entries hashed,
      ap (λ (d : Database). d.entries) changed,
      ap (λ (d : Database). d.last_snapshot_id) changed,
      record {
        files = sum_entries-SumOf id regular_file (λ entry. 1) db.entries;
        directories = sum_entries-SumOf id directory (λ entry. 1) db.entries;
        links = sum_entries-SumOf id symbolic_link (λ entry. 1) db.entries;
        size = sum_entries-SumOf id regular_file (λ entry. entry.logical_size) db.entries;
        stored = refl;
        chunks = refl;
        reused = refl;
        duration = refl;
        counts_fit = (files, directories, links);
        sizes_fit = (size, stored, chunks, reused);
      },
      subst (Replaces id (completed final at) db.snapshots)
          (sym (ap (λ (d : Database). d.snapshots) changed))
          (one_picked id (completed final at) db.snapshots single),
    )
