-- ===== src/Database/Deletion/Broken.antt =====
-- A deletion whose commit fails, and the next one.
use file_vault.Common.{
  ℕ, zero, suc, ◌+◌, ◌*◌, ◌≤◌, ◌<◌, ◌≡◌, refl, ap, ◌∙◌, inl, inr, Bool, false, Option, none, some,
  List, [], ◌∷◌, min, ◌==◌, nat_eq, Bool-cases, ok, err, ErrorCode, arith,
}
use file_vault.Common.Exec.{Exec, ◌>>=◌}
use file_vault.Database.Snapshots.{SnapshotStatus}
use file_vault.Database.Deletion.{
  Tables, Injected, without_first, count_rows, other_rows, entry_of, warning_of, delete_entry_batch,
  delete_warning_batch, transaction, hit, selected, cascade, require_status, batch, batches,
  is_deleting, remove_snapshot, delete_deleting_snapshot, checked_batch_limit, rolled_back,
}
use file_vault.Database.Deletion.Batches.{
  without_first-add, count_rows-without_first, other_rows-without_first, other_rows-idempotent,
}
use file_vault.Database.Deletion.Purge.{
  IsRemoval, batch-ok, no_entries, no_warnings, entries_removed, warnings_removed, emptied_entries,
  emptied_warnings, limit-bounds, purge, delete_deleting_snapshot-purge,
}

-- The commit that fails: that of a batch of entries or of warnings, by its number, or the last one.
pub data Point : Type 0 where
  in_entries in_warnings : ℕ → Point
  at_end : Point

-- No failure point throws.
abbrev pub no_failure : Injected
no_failure = record { entries = λ k. none; warnings = λ k. none; final = none }

-- The commit of number `i` throws and none before it does, and batches of that limit come to it, with `rows`
-- to remove.
abbrev pub ThrowsAt : (ℕ → Option ErrorCode) → ℕ → ℕ → ℕ → ErrorCode → Type 0
ThrowsAt injected limit rows i code =
    ((k : ℕ) → k < i → injected k ≡ none) × (injected i ≡ some code) × (i * limit < rows + limit)

abbrev pub FailsAt : ℕ → ℕ → Tables → Injected → Point → ErrorCode → Type 0
FailsAt id limit t injected (in_entries i) code =
    ThrowsAt injected.entries limit (count_rows (entry_of id) t.entries) i code
FailsAt id limit t injected (in_warnings i) code =
    ((k : ℕ) → injected.entries k ≡ none)
    × ThrowsAt injected.warnings limit (count_rows (warning_of id) t.warnings) i code
FailsAt id limit t injected at_end code =
    ((k : ℕ) → injected.entries k ≡ none)
    × ((k : ℕ) → injected.warnings k ≡ none)
    × (injected.final ≡ some code)

-- The tables with what was committed before: `i` full batches, or whole loops.
abbrev pub broken : ℕ → ℕ → Point → Tables → Tables
broken id limit (in_entries i) t = record t {
  entries = without_first (i * limit) (entry_of id) t.entries;
}
broken id limit (in_warnings i) t = record t {
  entries = other_rows (entry_of id) t.entries;
  warnings = without_first (i * limit) (warning_of id) t.warnings;
}
broken id limit at_end t = record t {
  entries = other_rows (entry_of id) t.entries;
  warnings = other_rows (warning_of id) t.warnings;
}

suc-mul : (i limit : ℕ) → suc i * limit ≡ limit + i * limit
suc-mul i limit = omega arith

module _ (id limit : ℕ) (admitted : SnapshotStatus → Bool) (remove : Exec Tables ℕ)
    (done : Tables → Tables) (r : IsRemoval limit remove done) where
  batch-fail :
      (code : ErrorCode) (t : Tables)
      → count_rows (selected id admitted) t.snapshots ≡ 1
      → batch id admitted remove (some code) t ≡ (err code, t)
  unfolding batch transaction rolled_back require_status hit ◌>>=◌
  batch-fail code t one = rw (one, r.runs t) refl

  steps : ℕ → Tables → Tables
  steps zero t = t
  steps (suc i) t = steps i (r.left t)

  batches-fail :
      (i fuel n m : ℕ) (injected : ℕ → Option ErrorCode) (code : ErrorCode) (t : Tables)
      → 0 < limit
      → m ≡ n + i
      → ((k : ℕ) → n ≤ k → k < m → injected k ≡ none)
      → injected m ≡ some code
      → i * limit < r.left_to_go t + limit
      → count_rows (selected id admitted) t.snapshots ≡ 1
      → r.left_to_go t < fuel
      → batches fuel id admitted remove injected n t ≡ (err code, steps i t)
  unfolding batches steps ◌>>=◌
  batches-fail i zero n m injected code t pos at quiet throws reached one enough =
      absurd (omega arith)
  batches-fail zero (suc fuel) n m injected code t pos at quiet throws reached one enough =
      let here : n ≡ m = omega arith in rw (ap injected here ∙ throws, batch-fail code t one) refl
  batches-fail (suc i) (suc fuel) n m injected code t pos at quiet throws reached one enough =
      let more : (min limit (r.left_to_go t) == 0) ≡ false =
        (let e = suc-mul i limit in ground arith) in
      rw (quiet n (omega arith) (omega arith), batch-ok id limit admitted remove done r t one, more)
        (batches-fail i fuel (n + 1) m injected code (r.left t) pos (omega arith)
          (λ k low high. quiet k (omega arith) high) throws
          (let s = r.shrinks t in let e = suc-mul i limit in omega arith)
          (ap (count_rows (selected id admitted)) (r.snapshots t) ∙ one)
          (let s = r.shrinks t in ground arith))

module _ (id limit : ℕ) where
  entry_steps :
      (i : ℕ) (t : Tables)
      → steps id limit is_deleting
          (delete_entry_batch id limit)
          (no_entries id limit)
          (entries_removed id limit)
          i
          t
        ≡ broken id limit (in_entries i) t
  unfolding steps entries_removed without_first
  entry_steps zero t =
      ap (λ n. record t { entries = without_first n (entry_of id) t.entries })
        (let e : 0 ≡ 0 * limit = omega arith in e)
  entry_steps (suc i) t =
      entry_steps i (record t { entries = without_first limit (entry_of id) t.entries })
      ∙ ap (λ rows. record t { entries = rows })
          (without_first-add (entry_of id) limit (i * limit) (suc i * limit) t.entries
            (suc-mul i limit))

  warning_steps :
      (i : ℕ) (t : Tables)
      → steps id limit is_deleting
          (delete_warning_batch id limit)
          (no_warnings id limit)
          (warnings_removed id limit)
          i
          t
        ≡ record t { warnings = without_first (i * limit) (warning_of id) t.warnings }
  unfolding steps warnings_removed without_first
  warning_steps zero t =
      ap (λ n. record t { warnings = without_first n (warning_of id) t.warnings })
        (let e : 0 ≡ 0 * limit = omega arith in e)
  warning_steps (suc i) t =
      warning_steps i (record t { warnings = without_first limit (warning_of id) t.warnings })
      ∙ ap (λ rows. record t { warnings = rows })
          (without_first-add (warning_of id) limit (i * limit) (suc i * limit) t.warnings
            (suc-mul i limit))

  end_fails :
      (code : ErrorCode) (t : Tables)
      → count_rows (selected id is_deleting) t.snapshots ≡ 1
      → remove_snapshot id (some code) t ≡ (err code, t)
  unfolding remove_snapshot transaction rolled_back hit cascade ◌>>=◌
  end_fails code t one = rw one refl

  breaks :
      (fuel n : ℕ) (injected : Injected) (t : Tables) (point : Point) (code : ErrorCode)
      → checked_batch_limit n ≡ ok limit
      → count_rows (selected id is_deleting) t.snapshots ≡ 1
      → count_rows (entry_of id) t.entries < fuel
      → count_rows (warning_of id) t.warnings < fuel
      → FailsAt id limit t injected point code
      → delete_deleting_snapshot fuel id injected n t ≡ (err code, broken id limit point t)
  unfolding delete_deleting_snapshot ◌>>=◌
  breaks fuel n injected t (in_entries i) code e one few few' (quiet, throws, reached) =
      let failed =
        batches-fail id limit is_deleting (delete_entry_batch id limit) (no_entries id limit)
          (entries_removed id limit) i fuel 0 i injected.entries code t (limit-bounds id n limit e)
          (omega arith) (λ k low high. quiet k high) throws (unfold entries_removed in reached) one
          (unfold entries_removed in few) in
      rw (e, failed) (ap (λ u. (err code, u)) (entry_steps i t))
  breaks fuel n injected t (in_warnings i) code e one few few' (quiet, (quiet', throws, reached)) =
      let pos = limit-bounds id n limit e in
      let first = emptied_entries id limit is_deleting fuel injected.entries t pos quiet one few in
      let failed =
        batches-fail id limit is_deleting (delete_warning_batch id limit) (no_warnings id limit)
          (warnings_removed id limit) i fuel 0 i injected.warnings code (no_entries id limit t) pos
          (omega arith) (λ k low high. quiet' k high) throws (unfold warnings_removed in reached)
          one (unfold warnings_removed in few') in
      rw (e, first, failed) (ap (λ u. (err code, u)) (warning_steps i (no_entries id limit t)))
  breaks fuel n injected t at_end code e one few few' (quiet, quiet', throws) =
      let pos = limit-bounds id n limit e in
      rw
        (
          e,
          emptied_entries id limit is_deleting fuel injected.entries t pos quiet one few,
          emptied_warnings id limit is_deleting fuel injected.warnings (no_entries id limit t) pos
              quiet' one few',
          throws,
        )
        (end_fails code (no_warnings id limit (no_entries id limit t)) one)

  -- what a broken deletion has left
  record IsPart (t part : Tables) : Type 0 where
    pub snapshots : part.snapshots ≡ t.snapshots
    pub entries : count_rows (entry_of id) part.entries ≤ count_rows (entry_of id) t.entries
    pub warnings : count_rows (warning_of id) part.warnings ≤ count_rows (warning_of id) t.warnings
    pub same : purge id part ≡ purge id t

  none_left :
      {R : Type 0} (test : R → Bool) (rows : List R)
      → count_rows test (other_rows test rows) ≤ count_rows test rows
  unfolding count_rows other_rows
  none_left test [] = omega arith
  none_left test (row ∷ rows) =
      let rest = none_left test rows in
      elim (Bool-cases (test row)) [
        | inl yes' ↦ rw yes' (omega arith)
        | inr no' ↦ rw (no', no') rest
      ]

  broken-IsPart : (point : Point) (t : Tables) → IsPart t (broken id limit point t)
  unfolding purge
  broken-IsPart (in_entries i) t = record {
    snapshots = refl;
    entries = let n = count_rows-without_first (entry_of id) (i * limit) t.entries in omega arith;
    warnings = omega arith;
    same = rw (other_rows-without_first (entry_of id) (i * limit) t.entries) refl;
  }
  broken-IsPart (in_warnings i) t = record {
    snapshots = refl;
    entries = none_left (entry_of id) t.entries;
    warnings =
        let n = count_rows-without_first (warning_of id) (i * limit) t.warnings in omega arith;
    same =
        rw
          (
            other_rows-without_first (warning_of id) (i * limit) t.warnings,
            other_rows-idempotent (entry_of id) t.entries,
          )
          refl;
  }
  broken-IsPart at_end t = record {
    snapshots = refl;
    entries = none_left (entry_of id) t.entries;
    warnings = none_left (warning_of id) t.warnings;
    same =
        rw
          (
            other_rows-idempotent (entry_of id) t.entries,
            other_rows-idempotent (warning_of id) t.warnings,
          )
          refl;
  }

-- If a snapshot is being deleted, the limit of a batch is admitted, there is more fuel than entries and than
-- warnings of the snapshot, and some commit is the first to fail, then deletion throws that error and
-- leaves exactly what was committed before: of the loop in which it failed the full batches before,
-- with nothing of the batch that failed. A second deletion, in which no commit fails, then returns and
-- leaves what removing the snapshot at once from the start leaves.
pub delete_deleting_snapshot-resumes :
    (id fuel n limit : ℕ) (injected : Injected) (t : Tables) (point : Point) (code : ErrorCode)
    → checked_batch_limit n ≡ ok limit
    → count_rows (selected id is_deleting) t.snapshots ≡ 1
    → count_rows (entry_of id) t.entries < fuel
    → count_rows (warning_of id) t.warnings < fuel
    → FailsAt id limit t injected point code
    → (delete_deleting_snapshot fuel id injected n t ≡ (err code, broken id limit point t))
      × (delete_deleting_snapshot fuel id no_failure n (broken id limit point t)
          ≡ (ok tt, purge id t))
delete_deleting_snapshot-resumes id fuel n limit injected t point code e one few few' fails =
    let part = broken-IsPart id limit point t in
    let a = part.entries in
    let b = part.warnings in
    (
      breaks id limit fuel n injected t point code e one few few' fails,
      delete_deleting_snapshot-purge id fuel n limit no_failure (broken id limit point t) e
            (λ k. refl) (λ k. refl) refl
            (ap (count_rows (selected id is_deleting)) part.snapshots ∙ one) (omega arith)
            (omega arith)
          ∙ ap (λ u. (ok tt, u)) part.same,
    )
