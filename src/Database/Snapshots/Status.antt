-- ===== src/Database/Snapshots/Status.antt =====
-- The life of a snapshot: how its status may change.
use mathlib.Core.Path.{subst}
use file_vault.Common.{
  ℕ, ◌≡◌, refl, sym, inl, inr, Bool, true, false, ◌&&◌, ◌==◌, nat_eq, List, [], ◌∷◌, ◌++◌, All,
  Bytes, ℤ, Option, none, some, ErrorCode, Result, ok, err, out_of_fuel, if◌then◌else◌, arith,
  Bool-cases,
}
use file_vault.Common.Exec.{Exec, pure, throw, check, gets, modify, continue, ◌>>=◌}
use file_vault.Database.Snapshots.{
  Database, SnapshotRow, SnapshotStatus, SnapshotTotals, pending, complete, failed, cancelled,
  deleting, picked, is_status, update_rows, update, require_single_updated_row, transaction, hit,
  create_pending_snapshot, mark_snapshot_complete, update_unless, mark_snapshot_incomplete,
  transition_snapshot_to_deleting, mark_stale_pending_snapshot_failed, bind_int64, completed,
}

-- The changes of status that there are.
pub data Moves : SnapshotStatus → SnapshotStatus → Type 0 where
  stays : {s : SnapshotStatus} → Moves s s
  completes : Moves pending complete
  fails : Moves pending failed
  is_cancelled : Moves pending cancelled
  is_deleted : Moves complete deleting

-- Row by row, the identifier is the same and the status moved; new rows are pending.
abbrev pub Evolves : List SnapshotRow → List SnapshotRow → Type 0
Evolves [] new = All (λ (row : SnapshotRow). row.status ≡ pending) new
Evolves (row ∷ rows) [] = true ≡ false
Evolves (row ∷ rows) (row' ∷ rows') =
    (row'.id ≡ row.id) × Moves row.status row'.status × Evolves rows rows'

Evolves-refl : (rows : List SnapshotRow) → Evolves rows rows
Evolves-refl [] = tt
Evolves-refl (row ∷ rows) = (refl, stays, Evolves-refl rows)

Evolves-append :
    (rows new : List SnapshotRow)
    → All (λ (row : SnapshotRow). row.status ≡ pending) new
    → Evolves rows (rows ++ new)
Evolves-append [] new h = h
Evolves-append (row ∷ rows) new h = (refl, stays, Evolves-append rows new h)

-- What is set on a picked row is a move from the status that it is picked in.
update_rows-Evolves :
    (id : ℕ) (from : SnapshotStatus) (set : SnapshotRow → SnapshotRow) (rows : List SnapshotRow)
    → ((row : SnapshotRow)
        → is_status from row.status ≡ true
        → ((set row).id ≡ row.id) × Moves row.status (set row).status)
    → Evolves rows (update_rows id from set rows)
unfolding update_rows picked
update_rows-Evolves id from set [] h = tt
update_rows-Evolves id from set (row ∷ rows) h = elim (Bool-cases (picked id from row)) [
  | inl y ↦
      let (same, moves) = h row (second (row.id == id) (is_status from row.status) y) in
      rw y (same, moves, update_rows-Evolves id from set rows h)
  | inr n ↦ rw n (refl, stays, update_rows-Evolves id from set rows h)
]
  where
    second : (a b : Bool) → a && b ≡ true → b ≡ true
    second true b e = e
    second false b e = cc

abbrev Progresses : {A : Type 0} → Exec Database A → Type 0
Progresses m = (db : Database) → Evolves db.snapshots (m db).1.snapshots

abbrev IsPassive : {A : Type 0} → Exec Database A → Type 0
IsPassive m = (db : Database) → (m db).1 ≡ db

passive-Progresses :
    {A B : Type 0} (m : Exec Database A) (f : A → Exec Database B)
    → IsPassive m
    → ((a : A) → Progresses (f a))
    → Progresses (m >>= f)
unfolding ◌>>=◌
passive-Progresses {A = A} m f hm hf db =
    subst (λ (x : Database). Evolves db.snapshots (continue (m db).0 f x).1.snapshots) (sym (hm db))
      (go (m db).0)
  where
    go : (r : Result A) → Evolves db.snapshots (continue r f db).1.snapshots
    go (ok a) = hf a db
    go (err e) = Evolves-refl db.snapshots
    go out_of_fuel = Evolves-refl db.snapshots

then_passive-Progresses :
    {A B : Type 0} (m : Exec Database A) (f : A → Exec Database B)
    → Progresses m
    → ((a : A) → IsPassive (f a))
    → Progresses (m >>= f)
unfolding ◌>>=◌
then_passive-Progresses {A = A} m f hm hf db = go (m db).0
  where
    go : (r : Result A) → Evolves db.snapshots (continue r f (m db).1).1.snapshots
    go (ok a) =
        subst (λ (x : Database). Evolves db.snapshots x.snapshots) (sym (hf a (m db).1)) (hm db)
    go (err e) = hm db
    go out_of_fuel = hm db

check-IsPassive : (test : Bool) (code : ErrorCode) → IsPassive (check test code)
unfolding check
check-IsPassive true code db = refl
check-IsPassive false code db = refl

gets-IsPassive : {A : Type 0} (read : Database → A) → IsPassive (gets read)
unfolding gets
gets-IsPassive read db = refl

require_single-IsPassive : (count : ℕ) → IsPassive (require_single_updated_row count)
unfolding require_single_updated_row ◌>>=◌
require_single-IsPassive count db = ground arith

update-Progresses :
    (id : ℕ) (from : SnapshotStatus) (set : SnapshotRow → SnapshotRow)
    → ((row : SnapshotRow)
        → is_status from row.status ≡ true
        → ((set row).id ≡ row.id) × Moves row.status (set row).status)
    → Progresses (update id from set)
unfolding update
update-Progresses id from set h =
    passive-Progresses _ _ (gets-IsPassive _)
      (λ count. then_passive-Progresses _ _ changed (λ _. require_single-IsPassive count))
  where
    changed :
        Progresses (
          modify
            (λ (db : Database). record db { snapshots = update_rows id from set db.snapshots }))
    changed db = unfold modify in update_rows-Evolves id from set db.snapshots h

is_status-eq : (a b : SnapshotStatus) → is_status a b ≡ true → b ≡ a
is_status-eq pending b e = ground arith
is_status-eq complete b e = ground arith
is_status-eq failed b e = ground arith
is_status-eq cancelled b e = ground arith
is_status-eq deleting b e = ground arith

transaction-Progresses :
    (body : Exec Database (Unit {0})) → Progresses body → Progresses (transaction body)
unfolding transaction
transaction-Progresses body h db = go (body db).0
  where
    go :
        (r : Result (Unit {0}))
        → Evolves db.snapshots
            (elim r as (λ _. Result (Unit {0}) × Database) [
              | ok _ ↦ body db
              | err e ↦ (err e, db)
              | out_of_fuel ↦ (out_of_fuel, db)
            ]).1.snapshots
    go (ok a) = h db
    go (err e) = Evolves-refl db.snapshots
    go out_of_fuel = Evolves-refl db.snapshots

-- The calls of the metadata store that make a snapshot or change its status.
pub data Call : Type 0 where
  create : ℤ → Call
  finish : ℕ → SnapshotTotals → ℤ → Call
  abandon : ℕ → SnapshotStatus → Bytes → ℤ → Call
  remove : ℕ → Option ErrorCode → Call
  recover : ℕ → Bytes → ℤ → Option ErrorCode → Call

-- The database that a call leaves, whether it returns or throws.
unfoldable pub perform : Call → Database → Database
perform (create at) db = (create_pending_snapshot at db).1
perform (finish id totals at) db = (mark_snapshot_complete id totals at db).1
perform (abandon id status message at) db = (mark_snapshot_incomplete id status message at db).1
perform (remove id injected) db = (transition_snapshot_to_deleting id injected db).1
perform (recover id message at injected) db =
    (mark_stale_pending_snapshot_failed id message at injected db).1

bind_int64-IsPassive : (value : ℕ) → IsPassive (bind_int64 value)
unfolding ◌>>=◌
bind_int64-IsPassive value db = ground arith

hit-IsPassive : (injected : Option ErrorCode) → IsPassive (hit injected)
unfolding hit pure throw
hit-IsPassive none db = refl
hit-IsPassive (some e) db = refl

from_pending :
    {new : SnapshotStatus} (s : SnapshotStatus)
    → Moves pending new
    → is_status pending s ≡ true
    → Moves s new
from_pending {new} s m e = subst (λ x. Moves x new) (sym (is_status-eq pending s e)) m

update_unless-Progresses :
    (unhashed : Bool) (id : ℕ) (totals : SnapshotTotals) (at : ℤ)
    → Progresses (update_unless unhashed id totals at)
unfolding update_unless
update_unless-Progresses true id totals at db =
    subst (λ (x : Database). Evolves db.snapshots x.snapshots) (sym (require_single-IsPassive 0 db))
      (Evolves-refl db.snapshots)
update_unless-Progresses false id totals at db =
    update-Progresses id pending (completed totals at)
      (λ row e. (refl, from_pending row.status completes e)) db

mark_snapshot_complete-Progresses :
    (id : ℕ) (totals : SnapshotTotals) (at : ℤ) → Progresses (mark_snapshot_complete id totals at)
unfolding mark_snapshot_complete
mark_snapshot_complete-Progresses id totals at = passive-Progresses _ _ (gets-IsPassive _) (λ final.
    passive-Progresses _ _ (gets-IsPassive _) (λ unhashed.
      passive-Progresses _ _ (bind_int64-IsPassive final.file_count) (λ _.
        passive-Progresses _ _ (bind_int64-IsPassive final.directory_count) (λ _.
          passive-Progresses _ _ (bind_int64-IsPassive final.symlink_count) (λ _.
            passive-Progresses _ _ (bind_int64-IsPassive final.logical_size) (λ _.
              passive-Progresses _ _ (bind_int64-IsPassive final.new_stored_size) (λ _.
                passive-Progresses _ _ (bind_int64-IsPassive final.new_chunk_count) (λ _.
                  passive-Progresses _ _ (bind_int64-IsPassive final.reused_chunk_count)
                    (λ _. update_unless-Progresses unhashed id final at)))))))))

ended : (status : SnapshotStatus) (b : Bool) → Moves pending (if b then cancelled else failed)
ended status true = is_cancelled
ended status false = fails

-- Whatever a call returns or throws, it keeps every snapshot of the database with its identifier, and a
-- status changes at most once and only from pending to complete, failed or cancelled or from
-- complete to deleting; a snapshot that is new is pending.
pub perform-Evolves : (c : Call) (db : Database) → Evolves db.snapshots (perform c db).snapshots
unfolding perform
perform-Evolves (create at) db =
    unfold create_pending_snapshot ◌>>=◌ in Evolves-append db.snapshots _ (refl, tt)
perform-Evolves (finish id totals at) db = mark_snapshot_complete-Progresses id totals at db
perform-Evolves (abandon id status message at) db =
    unfold mark_snapshot_incomplete in
    passive-Progresses _ _ (check-IsPassive _ _)
      (λ _.
        update-Progresses id pending _
          (λ row e. (refl, from_pending row.status (ended status (is_status cancelled status)) e)))
      db
perform-Evolves (remove id injected) db =
    unfold transition_snapshot_to_deleting in
    transaction-Progresses _
      (then_passive-Progresses _ _
        (update-Progresses id complete _ (λ row e. (
          refl,
          subst (λ x. Moves x deleting) (sym (is_status-eq complete row.status e)) is_deleted,
        )))
        (λ _. hit-IsPassive injected))
      db
perform-Evolves (recover id message at injected) db =
    unfold mark_stale_pending_snapshot_failed in
    transaction-Progresses _
      (then_passive-Progresses _ _
        (update-Progresses id pending _ (λ row e. (refl, from_pending row.status fails e)))
        (λ _. hit-IsPassive injected))
      db
