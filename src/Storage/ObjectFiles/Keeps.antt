-- ===== src/Storage/ObjectFiles/Keeps.antt =====
-- Which properties of the file tree the helpers keep, however they end.
use file_vault.Common.{
  ℕ, zero, suc, ◌-◌, ◌≡◌, [], refl, ◌++◌, Option, none, some, Bytes, ErrorCode, take, drop, min,
  nat_eq, filesystem_error, object_corrupt,
}
use file_vault.Common.Exec.{Exec, ◌>>=◌}
use file_vault.Common.Exec.Rules.{
  Keeps, Keeps-bind, Keeps-check, Keeps-gets, Keeps-gets-bind, keeps_rules,
}
use file_vault.Filesystem.Tree.{FilePath, Tree, Node, absent, file, write, create_directories}
use file_vault.Storage.World.{World, State, FailurePoint, external, hit}
use file_vault.Storage.ObjectFiles.{
  set_files, created, ensure_directory, file_size, regular_file_size, read_pieces, open_and_read,
  read_exact, sync_existing_regular_file, flush_containing_directory, temporary_file,
  temporary_write, temporary_sync, maximum_read, rename_no_replace, publish,
}

abbrev pub OnFiles : (Tree → Type 0) → State → Type 0
OnFiles Q s = Q s.files

module _ (Q : Tree → Type 0) (w : World) where
  pub external-Keeps : (e : ErrorCode) → Keeps (OnFiles Q) (external w e)
  external-Keeps e = record { at = λ s h. h }

  pub hit-Keeps : (point : FailurePoint) → Keeps (OnFiles Q) (hit w point)
  hit-Keeps point = record { at = λ s h. h }

  file_size-Keeps : (n : Node) → Keeps (OnFiles Q) (file_size w n)
  unfolding file_size
  file_size-Keeps absent = search keeps_rules
  file_size-Keeps (file b) = search (keeps_rules, external-Keeps)
  file_size-Keeps _ = search keeps_rules

  pub regular_file_size-Keeps : (p : FilePath) → Keeps (OnFiles Q) (regular_file_size w p)
  unfolding regular_file_size
  regular_file_size-Keeps p = search (keeps_rules, external-Keeps, file_size-Keeps)

  read_pieces-Keeps :
      (fuel left : ℕ) (input bytes : Bytes)
      → Keeps (OnFiles Q) (read_pieces w fuel left input bytes)
  unfolding read_pieces
  read_pieces-Keeps fuel zero input bytes = search keeps_rules
  read_pieces-Keeps zero (suc left) input bytes = search keeps_rules
  read_pieces-Keeps (suc fuel) (suc left) input bytes =
      let n = min maximum_read (suc left) in
      Keeps-bind _ _ (external-Keeps object_corrupt) (λ _.
        Keeps-bind _ _ (Keeps-check _ object_corrupt)
          (λ _. read_pieces-Keeps fuel (suc left - n) (drop n input) (bytes ++ take n input)))

  open_and_read-Keeps : (size : ℕ) (n : Node) → Keeps (OnFiles Q) (open_and_read w size n)
  unfolding open_and_read
  open_and_read-Keeps size (file b) = read_pieces-Keeps size size b _
  open_and_read-Keeps size _ = search keeps_rules

  pub read_exact-Keeps : (p : FilePath) (size : ℕ) → Keeps (OnFiles Q) (read_exact w p size)
  unfolding read_exact
  read_exact-Keeps p size = search (keeps_rules, external-Keeps, open_and_read-Keeps)

  pub sync-Keeps : (p : FilePath) → Keeps (OnFiles Q) (sync_existing_regular_file w p)
  unfolding sync_existing_regular_file
  sync-Keeps p = external-Keeps filesystem_error

  pub flush-Keeps : (p : FilePath) → Keeps (OnFiles Q) (flush_containing_directory w p)
  unfolding flush_containing_directory
  flush-Keeps p = external-Keeps filesystem_error

  pub temporary_file-Keeps : Keeps (OnFiles Q) (temporary_file w)
  unfolding temporary_file
  temporary_file-Keeps = external-Keeps filesystem_error

  pub temporary_write-Keeps : (x y : Bytes) → Keeps (OnFiles Q) (temporary_write w x y)
  unfolding temporary_write
  temporary_write-Keeps x y = search (keeps_rules, external-Keeps)

  pub temporary_sync-Keeps : Keeps (OnFiles Q) (temporary_sync w)
  unfolding temporary_sync
  temporary_sync-Keeps = external-Keeps filesystem_error

  created-then :
      {B : Type 0} (rest : Unit {0} → Exec State B)
      → ((a : Unit {0}) → Keeps (OnFiles Q) (rest a))
      → (made : Option Tree) (s : State) → ((u : Tree) → made ≡ some u → Q u)
      → Q s.files
      → Q ((created w made >>= rest) s).1.files
  unfolding ◌>>=◌ created
  created-then rest k none s new h = h
  created-then rest k (some u) s new h = (k tt).at (set_files u s) (unfold set_files in new u refl)

  -- An operation that makes directories keeps what every new directory keeps.
  module _
      (dirs : (p : FilePath) (t u : Tree) → create_directories [] p t ≡ some u → Q t → Q u) where
    pub ensure_directory-Keeps : (p : FilePath) → Keeps (OnFiles Q) (ensure_directory w p)
    unfolding ensure_directory
    ensure_directory-Keeps p = Keeps-bind _ _ (external-Keeps filesystem_error) (λ _.
        Keeps-gets-bind _ _ (λ s h.
          created-then _ (λ _. search (keeps_rules, external-Keeps))
            (create_directories [] p s.files) s (λ u e. dirs p s.files u e h) h))

  rename_no_replace-keeps :
      (temporary : Bytes) (p : FilePath) (n : Node) (s : State)
      → (n ≡ absent → Q (write p (file temporary) s.files))
      → Q s.files
      → Q (rename_no_replace temporary p n s).1.files
  unfolding ◌>>=◌ rename_no_replace
  rename_no_replace-keeps temporary p absent s new h = unfold set_files in new refl
  rename_no_replace-keeps temporary p (file b) s new h = h
  rename_no_replace-keeps temporary p _ s new h = h

  -- The publication of a file keeps what the file's arrival at an absent path keeps.
  pub publish-Keeps :
      (temporary : Bytes) (p : FilePath)
      → ((t : Tree) → t p ≡ absent → Q t → Q (write p (file temporary) t))
      → Keeps (OnFiles Q) (publish w temporary p)
  unfolding publish
  publish-Keeps temporary p new = Keeps-bind _ _ (external-Keeps filesystem_error) (λ _.
      Keeps-bind _ _ (Keeps-gets _) (λ _. Keeps-bind _ _ (Keeps-check _ _) (λ _.
        Keeps-gets-bind _ _
          (λ s h. rename_no_replace-keeps temporary p (s.files p) s (λ e. new s.files e h) h))))
