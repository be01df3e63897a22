-- ===== src/Storage/ObjectFiles/Reads.antt =====
-- What the helpers that read a file return.
use file_vault.Common.{
  ℕ, zero, suc, ◌+◌, ◌-◌, ◌≤◌, ◌≡◌, refl, sym, ap, ◌∙◌, true, false, some, List, [], ◌∷◌, ◌++◌,
  Bytes, length, take, drop, min, nat_beq, nat_beq_iff, nat_eq, u64_max, ok, arith, append_assoc,
  append-nil, length-take, length-drop, take_all,
}
use file_vault.Common.Exec.{◌>>=◌}
use file_vault.Common.Exec.Rules.{step-then, check-then}
use file_vault.Filesystem.Tree.{FilePath, Node, absent, directory, other, file, write_self}
use file_vault.Storage.World.{World, State, tick}
use file_vault.Storage.ObjectFiles.{
  file_size, regular_file_size, read_pieces, open_and_read, read_exact, maximum_read,
  rename_no_replace, publish, published, set_files,
}
use file_vault.Storage.ObjectFiles.Keeps.{regular_file_size-Keeps, read_exact-Keeps}

take-nil {ℓ} : {A : Type ℓ} (n : ℕ) → take {A = A} n [] ≡ []
take-nil zero = refl
take-nil (suc n) = refl

-- Taking `n` and then `m` of the rest is taking both.
take_more {ℓ} :
    {A : Type ℓ} (n m k : ℕ) (xs : List A) → n + m ≡ k → take n xs ++ take m (drop n xs) ≡ take k xs
take_more zero m k xs e = let same : m ≡ k = omega arith in ap (λ i. take i xs) same
take_more (suc n) m zero xs e = absurd (omega arith)
take_more (suc n) m (suc k) [] e = take-nil m
take_more (suc n) m (suc k) (x ∷ xs) e = ap (◌∷◌ x) (take_more n m k xs (omega arith))

module _ (w : World) where
  pub files-regular_file_size :
      (p : FilePath) (s : State) → (regular_file_size w p s).1.files ≡ s.files
  files-regular_file_size p s = (regular_file_size-Keeps (λ t. t ≡ s.files) w p).at s refl

  pub files-read_exact : (p : FilePath) (n : ℕ) (s : State) → (read_exact w p n s).1.files ≡ s.files
  files-read_exact p n s = (read_exact-Keeps (λ t. t ≡ s.files) w p n).at s refl

  file_size-ok :
      (node : Node) (s : State) (n : ℕ)
      → (file_size w node s).0 ≡ ok (some n)
      → (b : Bytes) × (node ≡ file b) × (length b ≡ n)
  unfolding file_size ◌>>=◌
  file_size-ok absent s n h = cc
  file_size-ok (file b) s n h = (b, refl, ground arith)
  file_size-ok directory s n h = cc
  file_size-ok other s n h = cc

  -- A size is that of a regular file at the path.
  pub regular_file_size-ok :
      (p : FilePath) (s : State) (n : ℕ)
      → (regular_file_size w p s).0 ≡ ok (some n)
      → (b : Bytes) × (s.files p ≡ file b) × (length b ≡ n)
  unfolding regular_file_size ◌>>=◌
  regular_file_size-ok p s n h = file_size-ok (s.files p) (tick s) n (ground arith)

  read_pieces-ok :
      (fuel left : ℕ) (input bytes r : Bytes) (s : State)
      → (read_pieces w fuel left input bytes s).0 ≡ ok r
      → r ≡ bytes ++ take left input
  unfolding read_pieces ◌>>=◌
  read_pieces-ok fuel zero input bytes r s h = rw append-nil (cc h)
  read_pieces-ok zero (suc left) input bytes r s h = cc
  read_pieces-ok (suc fuel) (suc left) input bytes r s h =
      let n = min maximum_read (suc left) in
      read_pieces-ok fuel (suc left - n) (drop n input) (bytes ++ take n input) r (tick s)
        (ground arith)
      ∙ append_assoc bytes (take n input) _
      ∙ ap (◌++◌ bytes) (take_more n (suc left - n) (suc left) input (omega arith))

  pub read_exact-ok :
      (p : FilePath) (n : ℕ) (r : Bytes) (s : State)
      → (read_exact w p n s).0 ≡ ok r
      → (b : Bytes) × (s.files p ≡ file b) × (r ≡ take n b)
  unfolding read_exact ◌>>=◌
  read_exact-ok p n r s h = opened (s.files p) refl (ground arith)
    where
      opened :
          (node : Node)
          → s.files p ≡ node
          → (open_and_read w n node (tick s)).0 ≡ ok r
          → (b : Bytes) × (s.files p ≡ file b) × (r ≡ take n b)
      opened (file b) e k = (b, e, unfold open_and_read in read_pieces-ok n n b [] r (tick s) k)
      opened absent e k = cc
      opened directory e k = cc
      opened other e k = cc

-- No system call fails.
abbrev pub IsQuiet : World → Type 0
IsQuiet w = (n : ℕ) → w.faults n ≡ false

module _ (w : World) (quiet : IsQuiet w) where
  file_size-quiet :
      (b : Bytes) (s : State)
      → length b ≤ u64_max
      → (file_size w (file b) s).0 ≡ ok (some (length b))
  unfolding file_size ◌>>=◌
  file_size-quiet b s h = ground (arith, quiet s.ticks)

  pub regular_file_size-quiet :
      (p : FilePath) (b : Bytes) (s : State)
      → s.files p ≡ file b
      → length b ≤ u64_max
      → (regular_file_size w p s).0 ≡ ok (some (length b))
  unfolding regular_file_size ◌>>=◌
  regular_file_size-quiet p b s e h = rw (quiet s.ticks, e) (file_size-quiet b (tick s) h)

  read_pieces-quiet :
      (fuel left : ℕ) (input bytes : Bytes) (s : State)
      → left ≤ fuel
      → left ≤ length input
      → (read_pieces w fuel left input bytes s).0 ≡ ok (bytes ++ take left input)
  unfolding read_pieces ◌>>=◌
  read_pieces-quiet fuel zero input bytes s h k = rw append-nil
  read_pieces-quiet zero (suc left) input bytes s h k = absurd (omega arith)
  read_pieces-quiet (suc fuel) (suc left) input bytes s h k =
      let n = min maximum_read (suc left) in
      let full : nat_beq (length (take n input)) n ≡ true =
        (nat_beq_iff _ n).1 (omega (arith, length-take n input)) in
      rw (quiet s.ticks, full)
        (read_pieces-quiet fuel (suc left - n) (drop n input) (bytes ++ take n input) (tick s)
            (omega arith) (omega (arith, length-drop n input))
          ∙ ap ok (
              append_assoc bytes (take n input) _
              ∙ ap (◌++◌ bytes) (take_more n (suc left - n) (suc left) input (omega arith))))

  pub read_exact-quiet :
      (p : FilePath) (b : Bytes) (s : State)
      → s.files p ≡ file b
      → (read_exact w p (length b) s).0 ≡ ok b
  unfolding read_exact ◌>>=◌ open_and_read
  read_exact-quiet p b s e =
      rw (quiet s.ticks, e)
        (read_pieces-quiet (length b) (length b) b [] (tick s) (omega arith) (omega arith)
          ∙ ap ok (take_all (length b) b (omega arith)))

-- A file that was published stands at its path.
module _ (w : World) (temporary : Bytes) (p : FilePath) where
  rename_no_replace-ok :
      (n : Node) (s t : State)
      → rename_no_replace temporary p n s ≡ (ok published, t)
      → t.files p ≡ file temporary
  unfolding rename_no_replace ◌>>=◌ set_files
  rename_no_replace-ok absent s t e =
      ap (λ r. r.1.files p) (sym e) ∙ write_self p (file temporary) s.files
  rename_no_replace-ok (file b) s t e = cc
  rename_no_replace-ok _ s t e = cc

  pub publish-ok :
      (s t : State) → publish w temporary p s ≡ (ok published, t) → t.files p ≡ file temporary
  unfolding publish
  publish-ok s t e =
      let (_, _, e1) = step-then _ _ s e in
      let (_, _, e2) = step-then _ _ _ e1 in
      let (_, e3) = check-then _ _ _ _ e2 in
      let (node, _, e4) = step-then _ _ _ e3 in rename_no_replace-ok node _ t e4
