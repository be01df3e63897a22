-- ===== src/Restore/Paths/Entries.antt =====
-- Which entries `validate_entries` accepts.
use file_vault.Common.{
  ℕ, suc, ◌+◌, ◌≡◌, ◌≢◌, ◌↔◌, ◌⊎◌, inl, inr, refl, sym, ap, ◌∙◌, Bool, true, false, List, [], ◌∷◌,
  Bytes, any, All, ◌==◌, nat_eq, list_eq, list_beq_iff, nat_beq_iff, if◌then◌else◌, Bool-cases, ok,
  require, arith, database_error,
}
use file_vault.Common.Checked.{>>=-eq-ok}
use file_vault.Database.Entries.{EntryInfo, EntryType, regular_file, directory, symbolic_link}
use file_vault.Filesystem.Scanner.{generic_string}
use file_vault.Filesystem.Tree.{FilePath}
use file_vault.Restore.Plan.{is_directory_entry}
use file_vault.Restore.Utf8.{is_valid_utf8}
use file_vault.Restore.Paths.{
  is_safe_stored_path, has_root_path, is_dot_component, is_empty_path, validate_entry, count_roots,
  validate_entries,
}

-- A path below the root of a restore: it is not empty, does not start at the root, is in normal form,
-- climbs nowhere, and is UTF-8.
pub record IsSafe (lexically_normal : FilePath → FilePath) (path : FilePath) : Type 0 where
  pub nonempty : path ≢ []
  pub relative : has_root_path path ≡ false
  pub normal : lexically_normal path ≡ path
  pub descends : All (λ component. is_dot_component component ≡ false) path
  pub utf8 : is_valid_utf8 (generic_string path) ≡ true

-- The root entry, which is a directory, or an entry at a safe path.
abbrev pub IsValidEntry : (FilePath → FilePath) → EntryInfo → Type 0
IsValidEntry lexically_normal entry =
    ((entry.relative_path ≡ []) × (entry.type ≡ directory))
    ⊎ IsSafe lexically_normal entry.relative_path

unfoldable pub roots : List EntryInfo → ℕ
unfolding is_empty_path
roots [] = 0
roots (entry ∷ entries) =
    let rest = roots entries in if is_empty_path entry.relative_path then suc rest else rest

any-All :
    (test : Bytes → Bool) (xs : List Bytes) → any test xs ≡ false → All (λ x. test x ≡ false) xs
any-All test [] e = tt
any-All test (x ∷ xs) e = (ground arith, any-All test xs (ground arith))

All-any :
    (test : Bytes → Bool) (xs : List Bytes) → All (λ x. test x ≡ false) xs → any test xs ≡ false
All-any test [] e = refl
All-any test (x ∷ xs) (e, es) = rw (e, All-any test xs es) refl

directory_iff : (type : EntryType) → (is_directory_entry type ≡ true) ↔ (type ≡ directory)
directory_iff directory = (λ e. refl, λ e. refl)
directory_iff regular_file = (λ e. cc, λ e. cc)
directory_iff symbolic_link = (λ e. cc, λ e. cc)

empty_iff : (path : FilePath) → (is_empty_path path ≡ true) ↔ (path ≡ [])
unfolding is_empty_path
empty_iff [] = (λ e. refl, λ e. refl)
empty_iff (c ∷ path) = (λ e. cc, λ e. cc)

clash : true ≢ false
clash e = cc

not_empty : (path : FilePath) → path ≢ [] → is_empty_path path ≡ false
unfolding is_empty_path
not_empty [] h = absurd (h refl)
not_empty (c ∷ path) h = refl

module _ (lexically_normal : FilePath → FilePath) where
  safe_parts :
      (path : FilePath)
      → is_safe_stored_path lexically_normal path ≡ true
      → (is_empty_path path ≡ false)
        × (has_root_path path ≡ false)
        × ((lexically_normal path == path) ≡ true)
        × (any is_dot_component path ≡ false)
        × (is_valid_utf8 (generic_string path) ≡ true)
  unfolding is_safe_stored_path
  safe_parts path e = (ground arith, ground arith, ground arith, ground arith, ground arith)

  is_safe_stored_path-IsSafe :
      (path : FilePath)
      → is_safe_stored_path lexically_normal path ≡ true
      → IsSafe lexically_normal path
  is_safe_stored_path-IsSafe path e =
      let (nonempty, relative, normal, descends, utf8) = safe_parts path e in
      record {
        nonempty = λ p. clash (sym ((empty_iff path).1 p) ∙ nonempty);
        relative = relative;
        normal = (list_beq_iff (lexically_normal path) path).0 normal;
        descends = any-All is_dot_component path descends;
        utf8 = utf8;
      }

  IsSafe-is_safe_stored_path :
      (path : FilePath)
      → IsSafe lexically_normal path
      → is_safe_stored_path lexically_normal path ≡ true
  unfolding is_safe_stored_path
  IsSafe-is_safe_stored_path path i =
      let nonempty = not_empty path i.nonempty in
      let normal = (list_beq_iff (lexically_normal path) path).1 i.normal in
      rw (nonempty, i.relative, normal, All-any is_dot_component path i.descends) i.utf8

  entry_cases :
      (entry : EntryInfo) (is_root : Bool)
      → validate_entry lexically_normal entry ≡ ok is_root
      → IsValidEntry lexically_normal entry × (is_root ≡ is_empty_path entry.relative_path)
  unfolding validate_entry
  entry_cases entry is_root e = elim (Bool-cases (is_empty_path entry.relative_path)) [
    | inl empty ↦ (
      inl ((empty_iff entry.relative_path).0 empty, (directory_iff entry.type).0 (ground arith)),
      ground arith,
    )
    | inr full ↦ (inr (is_safe_stored_path-IsSafe entry.relative_path (ground arith)), ground arith)
  ]

  valid_entry :
      (entry : EntryInfo)
      → IsValidEntry lexically_normal entry
      → validate_entry lexically_normal entry ≡ ok (is_empty_path entry.relative_path)
  unfolding validate_entry
  valid_entry entry (inl (empty, is_dir)) =
      let e = (empty_iff entry.relative_path).1 empty in
      let d = (directory_iff entry.type).1 is_dir in ground arith
  valid_entry entry (inr safe) =
      let e = not_empty entry.relative_path safe.nonempty in
      let s = IsSafe-is_safe_stored_path entry.relative_path safe in ground arith

  count_roots-ok :
      (entries : List EntryInfo) (n m : ℕ)
      → count_roots lexically_normal n entries ≡ ok m
      → All (IsValidEntry lexically_normal) entries × (m ≡ n + roots entries)
  unfolding count_roots roots
  count_roots-ok [] n m e = (tt, ground arith)
  count_roots-ok (entry ∷ entries) n m e =
      let (is_root, valid, rest) = >>=-eq-ok (validate_entry lexically_normal entry) _ e in
      let (v, same) = entry_cases entry is_root valid in
      let (vs, total) = count_roots-ok entries _ m rest in ((v, vs), ground arith)

  valid-count_roots :
      (n : ℕ) (entries : List EntryInfo)
      → All (IsValidEntry lexically_normal) entries
      → count_roots lexically_normal n entries ≡ ok (n + roots entries)
  unfolding count_roots roots
  valid-count_roots n [] v = ap ok (omega arith)
  valid-count_roots n (entry ∷ entries) (v, vs) =
      let e = valid_entry entry v in
      let ih =
        valid-count_roots (if is_empty_path entry.relative_path then suc n else n) entries vs in
      rw e (ih ∙ ap ok (ground arith))

  -- The entries of a snapshot are accepted if and only if exactly one of them is at the empty path, that
  -- one is a directory, and every other is at a safe path.
  pub validate_entries_iff :
      (entries : List EntryInfo)
      → (validate_entries lexically_normal entries ≡ ok tt)
        ↔ (All (IsValidEntry lexically_normal) entries × (roots entries ≡ 1))
  unfolding validate_entries
  validate_entries_iff entries = (
    λ e.
        let (m, counted, one) = >>=-eq-ok (count_roots lexically_normal 0 entries) _ e in
        let (valid, total) = count_roots-ok entries 0 m counted in
        (valid, let o = required (m == 1) one in ground (arith, nat_beq_iff m 1)),
    λ (valid, one). rw (valid-count_roots 0 entries valid, one) refl,
  )
    where
      required : (b : Bool) → require b database_error ≡ ok tt → b ≡ true
      required true e = refl
      required false e = cc
