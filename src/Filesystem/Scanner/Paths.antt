-- ===== src/Filesystem/Scanner/Paths.antt =====
-- The parent and the name that `scan_entry` reads off a relative path.
use file_vault.Common.{
  ℕ, suc, ◌≡◌, ◌⊎◌, inl, inr, refl, sym, append_assoc, ap, ◌∙◌, Bool, true, false, not, Option,
  none, some, [], ◌∷◌, ◌++◌, Bytes, length, take, drop, all, ◌==◌, nat_eq, arith,
}
use file_vault.Filesystem.Tree.{FilePath}
use file_vault.Filesystem.FileMetadata.{PlatformFileMetadata}
use file_vault.Filesystem.Scanner.{
  rfind, parent_path, entry_name, generic_string, ScannedEntry, ScanWarning, EntryAnswers, FileType,
  is_directory, is_regular, is_symlink, is_other, is_directory_type, captured_type, target_of,
  make_entry, read_metadata, entry_of_type, scan_entry,
}
use file_vault.Database.Entries.{EntryType, directory}

-- the name of an entry, which holds no separator
abbrev pub is_name : Bytes → Bool
is_name name = all (λ c. not (c == b'/')) name

rfind-none : (name : Bytes) → is_name name ≡ true → rfind b'/' name ≡ none
unfolding rfind
rfind-none [] h = refl
rfind-none (c ∷ name) h =
    let e : (c == b'/') ≡ false = ground arith in
    let ih = rfind-none name (ground arith) in rw (ih, e) refl

rfind-append :
    (x name : Bytes) → is_name name ≡ true → rfind b'/' (x ++ b'/' ∷ name) ≡ some (length x)
unfolding rfind
rfind-append [] name h = rw (rfind-none name h) refl
rfind-append (c ∷ x) name h = rw (rfind-append x name h) refl

take-length-append : (x y : Bytes) → take (length x) (x ++ y) ≡ x
take-length-append [] y = refl
take-length-append (c ∷ x) y = ap (◌∷◌ c) (take-length-append x y)

drop-length-append : (x : Bytes) (c : ℕ) (y : Bytes) → drop (suc (length x)) (x ++ c ∷ y) ≡ y
drop-length-append [] c y = refl
drop-length-append (d ∷ x) c y = drop-length-append x c y

generic_string-append :
    (c : Bytes) (dir : FilePath) (name : Bytes)
    → generic_string ((c ∷ dir) ++ name ∷ []) ≡ generic_string (c ∷ dir) ++ b'/' ∷ name
unfolding generic_string
generic_string-append c [] name = refl
generic_string-append c (d ∷ dir) name =
    ap (λ z. c ++ b'/' ∷ z) (generic_string-append d dir name)
    ∙ sym (append_assoc c (b'/' ∷ generic_string (d ∷ dir)) (b'/' ∷ name))

parent_path-append : (x name : Bytes) → is_name name ≡ true → parent_path (x ++ b'/' ∷ name) ≡ x
unfolding parent_path
parent_path-append x name h =
    rw (parent_path, rfind-append x name h) (take-length-append x (b'/' ∷ name))

entry_name-append : (x name : Bytes) → is_name name ≡ true → entry_name (x ++ b'/' ∷ name) ≡ name
unfolding entry_name
entry_name-append x name h = rw (entry_name, rfind-append x name h) (drop-length-append x b'/' name)

-- The path of an entry of a directory, split at its last separator, gives back the path of the
-- directory and the name, if the name holds no separator.
pub generic_string-split :
    (dir : FilePath) (name : Bytes)
    → is_name name ≡ true
    → (parent_path (generic_string (dir ++ name ∷ [])) ≡ generic_string dir)
      × (entry_name (generic_string (dir ++ name ∷ [])) ≡ name)
unfolding generic_string parent_path entry_name
generic_string-split [] name h =
    let e = rfind-none name h in (rw (parent_path, e) refl, rw (entry_name, e) refl)
generic_string-split (c ∷ dir) name h =
    let joined = generic_string-append c dir name in
    (
      ap parent_path joined ∙ parent_path-append (generic_string (c ∷ dir)) name h,
      ap entry_name joined ∙ entry_name-append (generic_string (c ∷ dir)) name h,
    )

-- An entry carries the path that it was asked for, and the parent and the name read off it.
abbrev pub IsFor : Bytes → ScanWarning ⊎ ScannedEntry → Type 0
IsFor relative (inl warning) = Unit
IsFor relative (inr entry) =
    (entry.relative_path ≡ relative)
    × (entry.parent_path ≡ parent_path relative)
    × (entry.name ≡ entry_name relative)

module _ (source_path : FilePath) (relative : Bytes) where
  read_metadata-IsFor :
      (type : EntryType) (metadata : Option PlatformFileMetadata) (target : Option Bytes)
      → IsFor relative (read_metadata source_path relative type metadata target)
  unfolding read_metadata
  read_metadata-IsFor type none target = tt
  read_metadata-IsFor type (some metadata) target = made (target_of type target)
    where
      made :
          (found : Bytes ⊎ Option Bytes)
          → IsFor relative (make_entry source_path relative type metadata found)
      made (inl code) = tt
      made (inr text) = (refl, refl, refl)

  pub scan_entry-IsFor :
      (status : FileType) (as_link : Bool) (answers : EntryAnswers)
      → IsFor relative (scan_entry source_path relative status as_link answers)
  unfolding scan_entry
  scan_entry-IsFor status as_link answers = typed (captured_type as_link status)
    where
      typed :
          (type : Option EntryType)
          → IsFor relative (entry_of_type source_path relative type answers)
      typed none = tt
      typed (some type) = read_metadata-IsFor type answers.metadata answers.target

  -- What is captured of a directory is a directory.
  pub scan_entry-directory :
      (status : FileType) (answers : EntryAnswers)
      → is_directory_type status ≡ true
      → (entry : ScannedEntry) → scan_entry source_path relative status false answers ≡ inr entry
      → entry.type ≡ directory
  unfolding scan_entry captured_type
  scan_entry-directory is_directory answers h entry e = metadata answers.metadata e
    where
      metadata :
          (found : Option PlatformFileMetadata)
          → read_metadata source_path relative directory found answers.target ≡ inr entry
          → entry.type ≡ directory
      metadata none q = cc
      metadata (some m) q = ap (λ x. type_of x) (sym q)
        where
          type_of : ScanWarning ⊎ ScannedEntry → EntryType
          type_of (inl warning) = directory
          type_of (inr found) = found.type
  scan_entry-directory is_regular answers h entry e = cc
  scan_entry-directory is_symlink answers h entry e = cc
  scan_entry-directory is_other answers h entry e = cc
