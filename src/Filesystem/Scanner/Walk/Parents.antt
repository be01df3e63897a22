-- ===== src/Filesystem/Scanner/Walk/Parents.antt =====
-- The order in which a scan gives its entries.
use mathlib.Core.List.{Memᴰ}
use mathlib.Core.List.Memᴰ
use file_vault.Common.{
  ℕ, ◌≡◌, ◌⊎◌, inl, inr, refl, sym, ap, ◌∙◌, Bool, true, false, Option, none, some, List, [], ◌∷◌,
  ◌++◌, Bytes, ok, err, out_of_fuel, Result, ErrorCode, if◌then◌else◌,
}
use file_vault.Common.Exec.{Exec, pure, check, lift, ◌>>=◌}
use file_vault.Common.Exec.Rules.{
  Keeps, Keeps-bind, Keeps-modify, Keeps-lift, Keeps-pure, keeps_rules,
}
use file_vault.Database.Entries.{EntryType, regular_file, directory, symbolic_link}
use file_vault.Filesystem.FileMetadata.{ScannerPlatformMetadata}
use file_vault.Filesystem.IgnoreRules.{IgnoreRules}
use file_vault.Filesystem.Tree.{FilePath}
use file_vault.Filesystem.Scanner.{
  ScannedEntry, ScanWarning, FileScannerOptions, ScanEntryDecision, capture,
  capture_as_symbolic_link, skip, warn_and_skip, FileType, EntryAnswers, scan_entry, generic_string,
  path_to_utf8, parent_path,
}
use file_vault.Restore.Utf8.{is_valid_utf8}
use file_vault.Filesystem.Scanner.Paths.{
  is_name, generic_string-split, IsFor, scan_entry-IsFor, scan_entry-directory,
}
use file_vault.Filesystem.Scanner.Walk.{
  Listing, finished, fails, next, descend_into, deliver, act, inspect, visit, scan_entries,
  scan_directory, check_cancelled, add_warning, ScanResult, push_entry, push_warning, deliver_root,
  scan_streaming, RootAnswers, collect,
}

-- Each entry is the root, or comes after the entry of the directory that it lies in.
pub data ParentsFirst : List ScannedEntry → Type 0 where
  nothing : ParentsFirst []
  source_root : (entry : ScannedEntry) → entry.relative_path ≡ [] → ParentsFirst (entry ∷ [])
  child :
      (entries : List ScannedEntry) (parent entry : ScannedEntry)
      → ParentsFirst entries
      → Memᴰ parent entries
      → parent.type ≡ directory
      → entry.parent_path ≡ parent.relative_path
      → ParentsFirst (entries ++ entry ∷ [])

-- No name that the iterators give holds a separator.
abbrev pub IsNamed : Listing → Type 0
IsNamed finished = Unit
IsNamed fails = Unit
IsNamed (next name answers children rest) = (is_name name ≡ true) × IsNamed children × IsNamed rest

-- The entries of `X` are there.
abbrev Holds : (ScannedEntry → Type 0) → ScanResult → Type 0
Holds X result =
    ParentsFirst result.entries × ((entry : ScannedEntry) → X entry → Memᴰ entry result.entries)

abbrev Adding : (ScannedEntry → Type 0) → ScannedEntry → ScannedEntry → Type 0
Adding X new entry = X entry ⊎ (entry ≡ new)

push_warning-Keeps :
    (X : ScannedEntry → Type 0) (warning : ScanWarning) → Keeps (Holds X) (push_warning warning)
unfolding push_warning
push_warning-Keeps X warning = Keeps-modify _ (λ s h. h)

abbrev never : ScanResult → Bool
never result = false

module _ (id : ℕ) (rules : IgnoreRules) (options : FileScannerOptions) where
  descend_into-Keeps :
      (Q : ScanResult → Type 0) (type : EntryType) (descend : Exec ScanResult (Unit {0}))
      → (type ≡ directory → Keeps Q descend)
      → Keeps Q (descend_into never push_entry push_warning id rules options type descend)
  unfolding descend_into
  descend_into-Keeps Q directory descend k = k refl
  descend_into-Keeps Q regular_file descend k = Keeps-pure tt
  descend_into-Keeps Q symbolic_link descend k = Keeps-pure tt

  module _ (X : ScannedEntry → Type 0) (parent : ScannedEntry) (there : X parent)
      (is_directory : parent.type ≡ directory) (relative : Bytes)
      (below : parent_path relative ≡ parent.relative_path) (descend : Exec ScanResult (Unit {0}))
      (child_keeps : (entry : ScannedEntry)
        → entry.relative_path ≡ relative
        → entry.type ≡ directory
        → Keeps (Holds (Adding X entry)) descend) where
    deliver-Keeps :
        (found : ScanWarning ⊎ ScannedEntry)
        → IsFor relative found
        → Keeps (Holds X) (deliver never push_entry push_warning id rules options found descend)
    unfolding deliver push_entry ◌>>=◌
    deliver-Keeps (inl warning) i = push_warning-Keeps X warning
    deliver-Keeps (inr entry) (same, above, _) = record {
      at = λ s (first, held).
          let after : ScanResult = record s { entries = s.entries ++ entry ∷ [] } in
          let (p, q) =
            (descend_into-Keeps (Holds (Adding X entry)) entry.type descend
                (child_keeps entry same)).at
              after
              (
                child s.entries parent entry first (held parent there) is_directory (above ∙ below),
                adding s held,
              ) in
          (p, λ other x. q other (inl x));
    }
      where
        adding :
            (s : ScanResult)
            → ((other : ScannedEntry) → X other → Memᴰ other s.entries)
            → (other : ScannedEntry) → Adding X entry other
            → Memᴰ other (s.entries ++ entry ∷ [])
        adding s held other (inl x) = Memᴰ.append_left (entry ∷ []) (held other x)
        adding s held other (inr e) = Memᴰ.append_right s.entries (Memᴰ.head e)

    act-Keeps :
        (decision : ScanEntryDecision) (source_path : FilePath) (status : FileType)
        (answers : EntryAnswers)
        → Keeps (Holds X) (
            act never push_entry push_warning id rules options decision source_path relative status
              answers descend)
    unfolding act add_warning
    act-Keeps (warn_and_skip code) source_path status answers = push_warning-Keeps X _
    act-Keeps skip source_path status answers = Keeps-pure tt
    act-Keeps capture_as_symbolic_link source_path status answers =
        deliver-Keeps _ (scan_entry-IsFor source_path relative status true answers)
    act-Keeps capture source_path status answers =
        deliver-Keeps _ (scan_entry-IsFor source_path relative status false answers)

    unless-Keeps :
        (ignored : Bool) (m : Exec ScanResult (Unit {0}))
        → Keeps (Holds X) m
        → Keeps (Holds X) (if ignored then pure tt else m)
    unless-Keeps true m k = Keeps-pure tt
    unless-Keeps false m k = k

    inspect-Keeps :
        (platform : Option ScannerPlatformMetadata) (source_path : FilePath) (status : FileType)
        (answers : EntryAnswers)
        → Keeps (Holds X) (
            inspect never push_entry push_warning id rules options platform source_path relative
              status answers descend)
    unfolding inspect add_warning
    inspect-Keeps none source_path status answers = push_warning-Keeps X _
    inspect-Keeps (some platform) source_path status answers =
        Keeps-bind _ _ (Keeps-lift _)
          (λ matched. unless-Keeps matched.ignored _ (act-Keeps _ source_path status answers))

  path_to_utf8-some : (encoded text : Bytes) → path_to_utf8 encoded ≡ some text → text ≡ encoded
  unfolding path_to_utf8
  path_to_utf8-some encoded text e = chosen (is_valid_utf8 encoded) e
    where
      chosen : (b : Bool) → (if b then some encoded else none) ≡ some text → text ≡ encoded
      chosen true q = cc
      chosen false q = cc

  visit-Keeps :
      (X : ScannedEntry → Type 0) (parent : ScannedEntry) (directory_path : FilePath) (name : Bytes)
      (answers : EntryAnswers) (source_path : FilePath) (descend : Exec ScanResult (Unit {0}))
      → X parent
      → parent.type ≡ directory
      → parent.relative_path ≡ generic_string directory_path
      → is_name name ≡ true
      → ((entry : ScannedEntry)
          → entry.relative_path ≡ generic_string (directory_path ++ name ∷ [])
          → entry.type ≡ directory
          → Keeps (Holds (Adding X entry)) descend)
      → (relative : Option Bytes) (status : Option FileType)
      → path_to_utf8 (generic_string (directory_path ++ name ∷ [])) ≡ relative
      → Keeps (Holds X) (
          visit never push_entry push_warning id rules options relative status source_path answers
            descend)
  unfolding visit add_warning
  visit-Keeps X parent dir name answers source_path descend there is_dir at named keeps none status
        e =
      push_warning-Keeps X _
  visit-Keeps X parent dir name answers source_path descend there is_dir at named keeps
        (some relative) none e =
      push_warning-Keeps X _
  visit-Keeps X parent dir name answers source_path descend there is_dir at named keeps
        (some relative) (some status) e =
      let same = path_to_utf8-some _ relative e in
      inspect-Keeps X parent there is_dir relative
        (ap parent_path same ∙ (generic_string-split dir name named).0 ∙ sym at) descend
        (λ entry path. keeps entry (path ∙ same)) answers.platform source_path status answers

  scan_entries-Keeps :
      (X : ScannedEntry → Type 0) (parent : ScannedEntry) (source_path dir : FilePath)
      (listing : Listing)
      → X parent
      → parent.type ≡ directory
      → parent.relative_path ≡ generic_string dir
      → IsNamed listing
      → Keeps
          (Holds X)
          (scan_entries never push_entry push_warning id rules options source_path dir listing)
  unfolding scan_entries add_warning check_cancelled
  scan_entries-Keeps X parent source_path dir finished there is_dir at named = Keeps-pure tt
  scan_entries-Keeps X parent source_path dir fails there is_dir at named = push_warning-Keeps X _
  scan_entries-Keeps X parent source_path dir (next name answers children rest) there is_dir at
        (plain, named, more) =
      Keeps-bind _ _ (search keeps_rules) (λ _.
        Keeps-bind _ _
          (visit-Keeps X parent dir name answers (source_path ++ name ∷ []) _ there is_dir at plain
            (λ entry path is_dir'. Keeps-bind _ _ (search keeps_rules) (λ _.
              scan_entries-Keeps (Adding X entry) entry (source_path ++ name ∷ [])
                (dir ++ name ∷ []) children (inr refl) is_dir' path named))
            _ answers.status refl)
          (λ _. scan_entries-Keeps X parent source_path dir rest there is_dir at more))

  scan_directory-Keeps :
      (X : ScannedEntry → Type 0) (parent : ScannedEntry) (source_path : FilePath)
      (listing : Listing)
      → X parent
      → parent.type ≡ directory
      → parent.relative_path ≡ []
      → IsNamed listing
      → Keeps
          (Holds X)
          (scan_directory never push_entry push_warning id rules options source_path [] listing)
  unfolding scan_directory check_cancelled generic_string
  scan_directory-Keeps X parent source_path listing there is_dir at named =
      Keeps-bind _ _ (search keeps_rules)
        (λ _. scan_entries-Keeps X parent source_path [] listing there is_dir at named)

  -- from nothing: the root comes first
  deliver_root-Parents :
      (found : ScanWarning ⊎ ScannedEntry) (normalized : FilePath) (listing : Listing)
      (s : ScanResult)
      → IsFor [] found
      → ((entry : ScannedEntry) → found ≡ inr entry → entry.type ≡ directory)
      → IsNamed listing
      → s.entries ≡ []
      → ParentsFirst
          (deliver_root never push_entry push_warning id rules options found normalized listing
            s).1.entries
  unfolding deliver_root push_entry push_warning ◌>>=◌
  deliver_root-Parents (inl warning) normalized listing s i is_dir named empty = rw empty nothing
  deliver_root-Parents (inr entry) normalized listing s (same, _, _) is_dir named empty =
      ((scan_directory-Keeps (λ other. other ≡ entry) entry normalized listing refl
          (is_dir entry refl) same named).at
        _ (rw empty (source_root entry same), rw empty (λ other e. Memᴰ.head e))).0

-- From an empty result the action leaves entries whose parents come first.
record Builds (m : Exec ScanResult (Unit {0})) : Type 0 where
  pub at : (s : ScanResult) → s.entries ≡ [] → ParentsFirst (m s).1.entries

Builds-check :
    (test : Bool) (code : ErrorCode) (f : Unit {0} → Exec ScanResult (Unit {0}))
    → (test ≡ true → Builds (f tt))
    → Builds (check test code >>= f)
unfolding ◌>>=◌
Builds-check true code f k = k refl
Builds-check false code f k = record { at = λ s empty. rw empty nothing }

Builds-lift :
    {A : Type 0} (result : Result A) (f : A → Exec ScanResult (Unit {0}))
    → ((a : A) → Builds (f a))
    → Builds (lift result >>= f)
unfolding ◌>>=◌
Builds-lift (ok a) f k = k a
Builds-lift (err code) f k = record { at = λ s empty. rw empty nothing }
Builds-lift out_of_fuel f k = record { at = λ s empty. rw empty nothing }

Builds-cancelled :
    (f : Unit {0} → Exec ScanResult (Unit {0}))
    → Builds (f tt)
    → Builds (check_cancelled never push_entry push_warning >>= f)
unfolding ◌>>=◌ check_cancelled
Builds-cancelled f k = k

-- If no name in the listings holds a separator, then each entry that a scan gives is the root or
-- comes after the entry of the directory that its parent path names, however the scan ends.
pub collect-ParentsFirst :
    (options : FileScannerOptions) (root : RootAnswers)
    → IsNamed root.listing
    → ParentsFirst (collect options root (record { entries = []; warnings = [] })).1.entries
unfolding collect scan_streaming
collect-ParentsFirst options root named =
    (Builds-check _ _ _ (λ _. Builds-check _ _ _ (λ _. Builds-cancelled _ (
        Builds-lift _ _ (λ normalized. Builds-lift _ _ (λ status. Builds-check _ _ _ (λ is_dir.
          Builds-lift _ _ (λ platform. Builds-check _ _ _ (λ _. Builds-lift _ _ (λ rules. record {
            at = λ s.
                deliver_root-Parents platform.filesystem_identity rules options
                  (scan_entry normalized [] status false root.answers) normalized root.listing s
                  (scan_entry-IsFor normalized [] status false root.answers)
                  (scan_entry-directory normalized [] status root.answers is_dir) named;
          })))))))))).at
      _ refl
