-- ===== src/Storage/ObjectFiles/Halts.antt =====
-- The helpers return or throw, whatever they find and whichever calls fail.
use file_vault.Common.{
  ℕ, zero, suc, ◌-◌, ◌≤◌, [], ◌++◌, Bool, true, false, Option, none, some, Bytes, ErrorCode, take,
  drop, min, arith, ok, err, filesystem_error, object_corrupt, if◌then◌else◌, nat_eq,
}
use file_vault.Common.Exec.Halts.{Finishes, Halts, Halts-bind, Halts-check, halts_rules}
use file_vault.Filesystem.Tree.{FilePath, Tree, Node, absent, file}
use file_vault.Storage.World.{World, FailurePoint, external, hit, injected_result}
use file_vault.Storage.ObjectFiles.{
  created, ensure_directory, file_size, regular_file_size, read_pieces, open_and_read, read_exact,
  sync_existing_regular_file, flush_containing_directory, temporary_file, temporary_write,
  temporary_sync, maximum_read, rename_no_replace, publish, require_valid_hash,
}

fault-Finishes : (b : Bool) (e : ErrorCode) → Finishes (if b then err e else ok tt)
fault-Finishes true e = search halts_rules
fault-Finishes false e = search halts_rules

module _ (w : World) where
  pub Halts-external : (e : ErrorCode) → Halts (external w e)
  Halts-external e = record { at = λ s. (fault-Finishes (w.faults s.ticks) e).at }

  injected_result-Finishes : (r : Option ErrorCode) → Finishes (injected_result w r)
  injected_result-Finishes none = search halts_rules
  injected_result-Finishes (some e) = search halts_rules

  pub Halts-hit : (point : FailurePoint) → Halts (hit w point)
  Halts-hit point = record { at = λ s. (injected_result-Finishes (w.injected s.ticks point)).at }

  file_size-Halts : (n : Node) → Halts (file_size w n)
  unfolding file_size
  file_size-Halts absent = search halts_rules
  file_size-Halts (file b) = search (halts_rules, Halts-external)
  file_size-Halts _ = search halts_rules

  pub regular_file_size-Halts : (p : FilePath) → Halts (regular_file_size w p)
  unfolding regular_file_size
  regular_file_size-Halts p = search (halts_rules, Halts-external, file_size-Halts)

  -- each piece is at least a byte
  read_pieces-Halts :
      (fuel left : ℕ) (input bytes : Bytes)
      → left ≤ fuel
      → Halts (read_pieces w fuel left input bytes)
  unfolding read_pieces
  read_pieces-Halts fuel zero input bytes h = search halts_rules
  read_pieces-Halts zero (suc left) input bytes h = absurd (omega arith)
  read_pieces-Halts (suc fuel) (suc left) input bytes h =
      let n = min maximum_read (suc left) in
      Halts-bind _ _ (Halts-external object_corrupt) (λ _.
        Halts-bind _ _ (Halts-check _ object_corrupt) (λ _.
          read_pieces-Halts fuel (suc left - n) (drop n input) (bytes ++ take n input)
            (omega arith)))

  open_and_read-Halts : (size : ℕ) (n : Node) → Halts (open_and_read w size n)
  unfolding open_and_read
  open_and_read-Halts size (file b) = read_pieces-Halts size size b [] (omega arith)
  open_and_read-Halts size _ = search halts_rules

  pub read_exact-Halts : (p : FilePath) (size : ℕ) → Halts (read_exact w p size)
  unfolding read_exact
  read_exact-Halts p size = search (halts_rules, Halts-external, open_and_read-Halts)

  pub sync-Halts : (p : FilePath) → Halts (sync_existing_regular_file w p)
  unfolding sync_existing_regular_file
  sync-Halts p = Halts-external filesystem_error

  pub flush-Halts : (p : FilePath) → Halts (flush_containing_directory w p)
  unfolding flush_containing_directory
  flush-Halts p = Halts-external filesystem_error

  pub temporary_file-Halts : Halts (temporary_file w)
  unfolding temporary_file
  temporary_file-Halts = Halts-external filesystem_error

  pub temporary_write-Halts : (x y : Bytes) → Halts (temporary_write w x y)
  unfolding temporary_write
  temporary_write-Halts x y = search (halts_rules, Halts-external)

  pub temporary_sync-Halts : Halts (temporary_sync w)
  unfolding temporary_sync
  temporary_sync-Halts = Halts-external filesystem_error

  created-Halts : (made : Option Tree) → Halts (created w made)
  unfolding created
  created-Halts none = search halts_rules
  created-Halts (some t) = search halts_rules

  pub ensure_directory-Halts : (p : FilePath) → Halts (ensure_directory w p)
  unfolding ensure_directory
  ensure_directory-Halts p = search (halts_rules, Halts-external, created-Halts) depth 12

  rename_no_replace-Halts :
      (temporary : Bytes) (p : FilePath) (n : Node) → Halts (rename_no_replace temporary p n)
  unfolding rename_no_replace
  rename_no_replace-Halts temporary p absent = search halts_rules
  rename_no_replace-Halts temporary p (file b) = search halts_rules
  rename_no_replace-Halts temporary p _ = search halts_rules

  pub publish-Halts : (temporary : Bytes) (p : FilePath) → Halts (publish w temporary p)
  unfolding publish
  publish-Halts temporary p = search (halts_rules, Halts-external, rename_no_replace-Halts) depth 12

pub require_valid_hash-Finishes : (h : Bytes) (e : ErrorCode) → Finishes (require_valid_hash h e)
unfolding require_valid_hash
require_valid_hash-Finishes h e = record { at = λ p. ground arith }
