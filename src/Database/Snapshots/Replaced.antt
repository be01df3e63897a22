-- ===== src/Database/Snapshots/Replaced.antt =====
-- The one row that an UPDATE of the pending snapshot changes.
use file_vault.Common.{
  ◌↔◌, inl, inr, ◌++◌, Bool-cases, ℕ, ◌≡◌, refl, ap, true, false, nat_eq, nat_beq_iff, List, [],
  ◌∷◌, All, arith,
}
use file_vault.Database.Snapshots.{
  SnapshotRow, SnapshotStatus, pending, complete, failed, cancelled, deleting, is_status, picked,
  update_rows, returned_rows,
}

-- Not the pending row of that identifier.
abbrev pub IsOther : ℕ → SnapshotRow → Type 0
IsOther id row = ¬ ((row.id ≡ id) × (row.status ≡ pending))

-- The second list is the first but for one row, the only pending one of that identifier.
pub record Replaces (id : ℕ) (set : SnapshotRow → SnapshotRow) (rows after : List SnapshotRow)
    : Type 0 where
  pub earlier : List SnapshotRow
  pub row : SnapshotRow
  pub later : List SnapshotRow
  pub of_id : row.id ≡ id
  pub was_pending : row.status ≡ pending
  pub others_earlier : All (IsOther id) earlier
  pub others_later : All (IsOther id) later
  pub before_it : rows ≡ earlier ++ row ∷ later
  pub after_it : after ≡ earlier ++ set row ∷ later

pending_iff : (status : SnapshotStatus) → (is_status pending status ≡ true) ↔ (status ≡ pending)
pending_iff pending = (λ e. refl, λ e. refl)
pending_iff complete = (λ e. cc, λ e. cc)
pending_iff failed = (λ e. cc, λ e. cc)
pending_iff cancelled = (λ e. cc, λ e. cc)
pending_iff deleting = (λ e. cc, λ e. cc)

not_picked : (id : ℕ) (row : SnapshotRow) → picked id pending row ≡ false → IsOther id row
unfolding picked
not_picked id row miss (same, is_pending) =
    let a = (nat_beq_iff row.id id).1 same in
    let b = (pending_iff row.status).1 is_pending in absurd (ground arith)

is_picked :
    (id : ℕ) (row : SnapshotRow)
    → picked id pending row ≡ true
    → (row.id ≡ id) × (row.status ≡ pending)
unfolding picked
is_picked id row hit =
    ((nat_beq_iff row.id id).0 (ground arith), (pending_iff row.status).0 (ground arith))

none_picked :
    (id : ℕ) (set : SnapshotRow → SnapshotRow) (rows : List SnapshotRow)
    → returned_rows id pending rows ≡ 0
    → All (IsOther id) rows × (update_rows id pending set rows ≡ rows)
unfolding returned_rows update_rows
none_picked id set [] e = (tt, refl)
none_picked id set (row ∷ rows) e = elim (Bool-cases (picked id pending row)) [
  | inl hit ↦ absurd (ground arith)
  | inr miss ↦
      let (others, left) = none_picked id set rows (ground arith) in
      ((not_picked id row miss, others), rw miss (ap (◌∷◌ row) left))
]

pub one_picked :
    (id : ℕ) (set : SnapshotRow → SnapshotRow) (rows : List SnapshotRow)
    → returned_rows id pending rows ≡ 1
    → Replaces id set rows (update_rows id pending set rows)
unfolding returned_rows update_rows
one_picked id set [] e = absurd (omega arith)
one_picked id set (row ∷ rows) e = elim (Bool-cases (picked id pending row)) [
  | inl hit ↦
      let (others, left) = none_picked id set rows (ground arith) in
      let (same, is_pending) = is_picked id row hit in
      record {
        earlier = [];
        row = row;
        later = rows;
        of_id = same;
        was_pending = is_pending;
        others_earlier = tt;
        others_later = others;
        before_it = refl;
        after_it = rw hit (ap (◌∷◌ (set row)) left);
      }
  | inr miss ↦
      let r = one_picked id set rows (ground arith) in
      record {
        earlier = row ∷ r.earlier;
        row = r.row;
        later = r.later;
        of_id = r.of_id;
        was_pending = r.was_pending;
        others_earlier = (not_picked id row miss, r.others_earlier);
        others_later = r.others_later;
        before_it = ap (◌∷◌ row) r.before_it;
        after_it = rw miss (ap (◌∷◌ row) r.after_it);
      }
]
