-- ===== src/Database/Deletion/Resumes.antt =====
-- A deletion that is broken off.
use file_vault.Common.{
  ℕ, zero, suc, ◌+◌, ◌≡◌, refl, Bool, true, false, Option, none, some, ◌==◌, nat_eq, if◌then◌else◌,
  Result, ok, err, out_of_fuel, ErrorCode,
}
use file_vault.Common.Exec.{Exec, pure}
use file_vault.Common.Exec.Rules.{
  Keeps, Keeps-bind, Keeps-gets, Keeps-lift, Keeps-modify, Keeps-pure, keeps_rules,
}
use file_vault.Database.Snapshots.{SnapshotStatus}
use file_vault.Database.Deletion.{
  Tables, Injected, entry_of, warning_of, delete_entry_batch, delete_warning_batch, transaction,
  hit, selected, cascade, require_status, batch, batches, is_deleting, remove_snapshot,
  delete_deleting_snapshot, rolled_back,
}
use file_vault.Database.Deletion.Batches.{other_rows-without_first, other_rows-idempotent}
use file_vault.Database.Deletion.Purge.{purge}

module _ (id : ℕ) where
  -- what the steps of a deletion keep, however they end
  transaction-Keeps :
      {A : Type 0} (P : Tables → Type 0) (body : Exec Tables A)
      → Keeps P body
      → Keeps P (transaction body)
  unfolding transaction rolled_back
  transaction-Keeps {A} P body k = record { at = λ t p. go (body t) t p (k.at t p) }
    where
      go : (r : Result A × Tables) (t : Tables) → P t → P r.1 → P (rolled_back r t).1
      go (ok a, after) t p q = q
      go (err code, after) t p q = p
      go (out_of_fuel, after) t p q = p

  module _ (start : Tables) where
    abbrev Purges : Tables → Type 0
    Purges t = purge id t ≡ purge id start

    delete_entries-Keeps : (limit : ℕ) → Keeps Purges (delete_entry_batch id limit)
    unfolding delete_entry_batch purge
    delete_entries-Keeps limit = Keeps-bind _ _ (Keeps-gets _) (λ n.
        Keeps-bind _ _
          (Keeps-modify _ (λ t p. rw (other_rows-without_first (entry_of id) limit t.entries) p))
          (λ _. Keeps-pure n))

    delete_warnings-Keeps : (limit : ℕ) → Keeps Purges (delete_warning_batch id limit)
    unfolding delete_warning_batch purge
    delete_warnings-Keeps limit = Keeps-bind _ _ (Keeps-gets _) (λ n.
        Keeps-bind _ _
          (Keeps-modify _ (λ t p. rw (other_rows-without_first (warning_of id) limit t.warnings) p))
          (λ _. Keeps-pure n))

    hit-Keeps : (injected : Option ErrorCode) → Keeps Purges (hit injected)
    unfolding hit
    hit-Keeps none = search keeps_rules
    hit-Keeps (some code) = search keeps_rules

    require_status-Keeps :
        (admitted : SnapshotStatus → Bool) → Keeps Purges (require_status id admitted)
    unfolding require_status
    require_status-Keeps admitted = search keeps_rules

    batch-Keeps :
        (admitted : SnapshotStatus → Bool) (remove : Exec Tables ℕ) (injected : Option ErrorCode)
        → Keeps Purges remove
        → Keeps Purges (batch id admitted remove injected)
    unfolding batch
    batch-Keeps admitted remove injected k =
        transaction-Keeps Purges _ (search (keeps_rules, require_status-Keeps, hit-Keeps))

    batches-Keeps :
        (fuel : ℕ) (admitted : SnapshotStatus → Bool) (remove : Exec Tables ℕ)
        (injected : ℕ → Option ErrorCode) (n : ℕ)
        → Keeps Purges remove
        → Keeps Purges (batches fuel id admitted remove injected n)
    unfolding batches
    batches-Keeps zero admitted remove injected n k = Keeps-lift _
    batches-Keeps (suc fuel) admitted remove injected n k =
        Keeps-bind _ _ (batch-Keeps admitted remove (injected n) k) (λ removed.
          unless_last (removed == 0) (batches-Keeps fuel admitted remove injected (n + 1) k))
      where
        unless_last :
            {m : Exec Tables (Unit {0})} (last : Bool)
            → Keeps Purges m
            → Keeps Purges (if last then pure tt else m)
        unless_last true k = Keeps-pure tt
        unless_last false k = k

    remove_snapshot-Keeps :
        (injected : Option ErrorCode) → Keeps Purges (remove_snapshot id injected)
    unfolding remove_snapshot cascade purge
    remove_snapshot-Keeps injected = transaction-Keeps Purges _ (
        Keeps-bind _ _ (Keeps-gets _) (λ n.
          Keeps-bind _ _
            (Keeps-modify _ (λ t p.
              rw
                (
                  other_rows-idempotent (selected id is_deleting) t.snapshots,
                  other_rows-idempotent (entry_of id) t.entries,
                  other_rows-idempotent (warning_of id) t.warnings,
                )
                p))
            (λ _. search (keeps_rules, hit-Keeps))))

  -- However a deletion ends, removing the snapshot at once from what it leaves gives what removing it at
  -- once from the start gives.
  pub delete_deleting_snapshot-purge_same :
      (fuel n : ℕ) (injected : Injected) (t : Tables)
      → purge id (delete_deleting_snapshot fuel id injected n t).1 ≡ purge id t
  unfolding delete_deleting_snapshot
  delete_deleting_snapshot-purge_same fuel n injected t =
      (Keeps-bind {P = Purges t} _ _ (Keeps-lift _) (λ limit.
          Keeps-bind _ _
            (batches-Keeps t fuel is_deleting _ injected.entries 0 (delete_entries-Keeps t limit))
            (λ _.
              Keeps-bind _ _
                (batches-Keeps t fuel is_deleting _ injected.warnings 0
                  (delete_warnings-Keeps t limit))
                (λ _. remove_snapshot-Keeps t injected.final)))).at
        t refl
