-- ===== src/Filesystem/Scanner/Walk.antt =====
-- `scan_directory`, `scan_streaming` and `scan` of src/core/filesystem/file_scanner.cpp. The callbacks and
-- the stop token are parameters; what enumerating a directory gives is a `Listing`.
pub mod Parents
use file_vault.Common.{
  ℕ, Bool, true, false, not, ◌&&◌, ◌||◌, ◌⊎◌, inl, inr, Option, none, some, List, [], ◌∷◌, ◌++◌,
  Bytes, codes, ◌==◌, nat_eq, if◌then◌else◌, Result, ok, err, out_of_fuel, invalid_argument,
  filesystem_error, cancelled,
}
use file_vault.Common.Exec.{Exec, pure, throw, check, lift, gets, modify, ◌>>=◌, ◌>>◌}
use file_vault.Filesystem.FileMetadata.{
  ScannerPlatformMetadata, ScannerReparseKind, no_reparse_point,
}
use file_vault.Filesystem.IgnoreRules.{IgnoreRules, IgnoreMatchResult, match}
use file_vault.Filesystem.Tree.{FilePath}
use file_vault.Filesystem.Scanner.{
  ScannedEntry, ScanWarning, FileScannerOptions, ScanEntryKind, junction, volume_mount_point,
  ScanEntryDecision, capture, capture_as_symbolic_link, skip, warn_and_skip, decide_scan_entry,
  scan_entry_kind, scan_entry, EntryAnswers, FileType, is_directory_type, generic_string,
  path_to_utf8,
}
use file_vault.Database.Entries.{EntryType, regular_file, directory, symbolic_link}

-- The entries that the iterator gives, each with its name, what the system answers for it and what is
-- found in it; `fails` is an error of the iterator, at first or on the way.
pub data Listing : Type 0 where
  finished fails : Listing
  next : Bytes → EntryAnswers → Listing → Listing → Listing

is_directory_like : FileType → ScanEntryKind → Bool
is_directory_like status junction = true
is_directory_like status volume_mount_point = true
is_directory_like status _ = is_directory_type status

value_or_empty : Option Bytes → Bytes
value_or_empty none = []
value_or_empty (some text) = text

module _ {S : Type 0} (stop_requested : S → Bool) (on_entry : ScannedEntry → Exec S (Unit {0}))
    (on_warning : ScanWarning → Exec S (Unit {0})) where
  unfoldable pub check_cancelled : Exec S (Unit {0})
  check_cancelled = do stop ← gets stop_requested; check (not stop) cancelled

  unfoldable pub add_warning : Bytes → Bytes → Exec S (Unit {0})
  add_warning relative_path code =
      on_warning (record { relative_path = relative_path; code = code })

  module _ (root_filesystem_identity : ℕ) (ignore_rules : IgnoreRules)
      (options : FileScannerOptions) where
    -- `descend` is the scan of the directory, if the entry is one.
    descend_into : EntryType → Exec S (Unit {0}) → Exec S (Unit {0})
    descend_into directory descend = descend
    descend_into _ descend = pure tt

    deliver : ScanWarning ⊎ ScannedEntry → Exec S (Unit {0}) → Exec S (Unit {0})
    unfolding descend_into
    deliver (inl warning) descend = on_warning warning
    deliver (inr entry) descend = do on_entry entry; descend_into entry.type descend

    act :
        ScanEntryDecision
        → FilePath
        → Bytes
        → FileType
        → EntryAnswers
        → Exec S (Unit {0})
        → Exec S (Unit {0})
    unfolding deliver
    act (warn_and_skip code) source_path relative status answers descend = add_warning relative code
    act skip source_path relative status answers descend = pure tt
    act capture_as_symbolic_link source_path relative status answers descend =
        deliver (scan_entry source_path relative status true answers) descend
    act capture source_path relative status answers descend =
        deliver (scan_entry source_path relative status false answers) descend

    inspect :
        Option ScannerPlatformMetadata
        → FilePath
        → Bytes
        → FileType
        → EntryAnswers
        → Exec S (Unit {0})
        → Exec S (Unit {0})
    unfolding act is_directory_like
    inspect none source_path relative status answers descend =
        add_warning relative (codes "metadata_unavailable")
    inspect (some platform) source_path relative status answers descend = do
      matched ← lift (
          match ignore_rules relative
            (is_directory_like status (scan_entry_kind status platform.reparse_kind)))
      if matched.ignored
          then pure tt
          else act
              (decide_scan_entry
                (record {
                  kind = scan_entry_kind status platform.reparse_kind;
                  hidden = platform.hidden;
                  cloud_placeholder = platform.cloud_placeholder;
                  filesystem_boundary =
                      not (platform.filesystem_identity == root_filesystem_identity);
                })
                options)
              source_path relative status answers descend

    visit :
        Option Bytes
        → Option FileType
        → FilePath
        → EntryAnswers
        → Exec S (Unit {0})
        → Exec S (Unit {0})
    unfolding inspect
    visit none status source_path answers descend =
        add_warning [] (codes "unsupported_path_encoding")
    visit (some relative) none source_path answers descend =
        add_warning relative (codes "filesystem_inspection_failed")
    visit (some relative) (some status) source_path answers descend =
        inspect answers.platform source_path relative status answers descend

    -- the loop of `scan_directory`
    unfoldable pub scan_entries : FilePath → FilePath → Listing → Exec S (Unit {0})
    unfolding visit value_or_empty
    scan_entries source_directory relative_directory finished = pure tt
    scan_entries source_directory relative_directory fails =
        add_warning (value_or_empty (path_to_utf8 (generic_string relative_directory)))
          (codes "directory_enumeration_failed")
    scan_entries source_directory relative_directory (next name answers children rest) =
        let source_path = source_directory ++ name ∷ [] in
        let relative_native_path = relative_directory ++ name ∷ [] in
        let descend = check_cancelled >> scan_entries source_path relative_native_path children in
        let others = scan_entries source_directory relative_directory rest in
        check_cancelled
        >> (visit (path_to_utf8 (generic_string relative_native_path)) answers.status source_path
              answers descend
            >> others)

    unfoldable pub scan_directory : FilePath → FilePath → Listing → Exec S (Unit {0})
    scan_directory source_directory relative_directory listing = do
      check_cancelled
      scan_entries source_directory relative_directory listing

    -- the root entry, which must be there
    deliver_root : ScanWarning ⊎ ScannedEntry → FilePath → Listing → Exec S (Unit {0})
    deliver_root (inl warning) normalized listing = do on_warning warning; throw filesystem_error
    deliver_root (inr root) normalized listing = do
      on_entry root
      scan_directory normalized [] listing

-- What `scan_streaming` is given and finds at the source root before it enumerates; none is an error.
pub record RootAnswers : Type 0 where
  pub source_root_is_empty : Bool
  pub callbacks_set : Bool
  pub normalized : Option FilePath
  pub status : Option FileType
  pub platform : Result ScannerPlatformMetadata
  pub ignore_rules : Result IgnoreRules
  pub answers : EntryAnswers
  pub listing : Listing

or_filesystem_error : {A : Type 0} → Option A → Result A
or_filesystem_error none = err filesystem_error
or_filesystem_error (some a) = ok a

is_plain : ScannerReparseKind → Bool
is_plain no_reparse_point = true
is_plain _ = false

unfoldable pub scan_streaming :
    {S : Type 0}
    → (S → Bool)
    → (ScannedEntry → Exec S (Unit {0}))
    → (ScanWarning → Exec S (Unit {0}))
    → FileScannerOptions
    → RootAnswers
    → Exec S (Unit {0})
unfolding or_filesystem_error is_plain deliver_root
scan_streaming stop_requested on_entry on_warning options root = do
  check (not root.source_root_is_empty) invalid_argument
  check root.callbacks_set invalid_argument
  check_cancelled stop_requested on_entry on_warning
  normalized ← lift (or_filesystem_error root.normalized)
  status ← lift (or_filesystem_error root.status)
  check (is_directory_type status) invalid_argument
  platform ← lift root.platform
  check (is_plain platform.reparse_kind && not platform.cloud_placeholder) invalid_argument
  ignore_rules ← lift root.ignore_rules
  deliver_root stop_requested on_entry on_warning platform.filesystem_identity ignore_rules options
      (scan_entry normalized [] status false root.answers) normalized root.listing

pub record ScanResult : Type 0 where
  pub entries : List ScannedEntry
  pub warnings : List ScanWarning

unfoldable pub push_entry : ScannedEntry → Exec ScanResult (Unit {0})
push_entry entry = modify (λ result. record result { entries = result.entries ++ entry ∷ [] })

unfoldable pub push_warning : ScanWarning → Exec ScanResult (Unit {0})
push_warning warning =
    modify (λ result. record result { warnings = result.warnings ++ warning ∷ [] })

-- The result of `scan` before it is sorted: its stop token never stops.
unfoldable pub collect : FileScannerOptions → RootAnswers → Exec ScanResult (Unit {0})
collect options root = scan_streaming (λ result. false) push_entry push_warning options root
