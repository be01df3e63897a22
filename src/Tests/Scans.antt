-- ===== src/Tests/Scans.antt =====
-- Entries of a small directory are scanned, and progress is reported.
use file_vault.Common.{◌≤◌, ◌≡◌, ◌↔◌, ◌⊎◌, refl, true, false, none, some, [], ◌∷◌, pos, ok, arith}
use file_vault.Filesystem.FileMetadata.{
  PlatformFileMetadata, ScannerPlatformMetadata, no_reparse_point,
}
use file_vault.Filesystem.IgnoreRules.{sensitive}
use file_vault.Filesystem.Scanner.{
  FileScannerOptions, ScanEntryFacts, ordinary, link, junction, capture, capture_as_symbolic_link,
  decide_scan_entry, EntryAnswers, is_regular, is_directory, generic_string, parent_path,
  entry_name,
}
use file_vault.Filesystem.Scanner.Decision.{IsAdmitted, decide_scan_entry-capture}
use file_vault.Filesystem.Scanner.Paths.{generic_string-split}
use file_vault.Filesystem.Scanner.Walk.{next, finished, RootAnswers, collect}
use file_vault.Filesystem.Scanner.Walk.Parents.{ParentsFirst, collect-ParentsFirst}
use file_vault.Snapshot.Progress.{ProgressAggregator, emit, preparing}
use file_vault.Snapshot.Progress.Rate.{
  starts, steps, requires, calls_in_second, ordinary_calls_in_second, Runs-rate,
}

abbrev options : FileScannerOptions
options = record { include_hidden = false; one_file_system = true }

abbrev facts : ScanEntryFacts
facts = record {
  kind = ordinary;
  hidden = false;
  cloud_placeholder = false;
  filesystem_boundary = false;
}

decide_scan_entry-capture_example :
    ((decide_scan_entry facts options ≡ capture)
      ↔ ((ordinary ≡ ordinary) × IsAdmitted facts options))
    × ((decide_scan_entry facts options ≡ capture_as_symbolic_link)
        ↔ (((ordinary ≡ link) ⊎ (ordinary ≡ junction)) × IsAdmitted facts options))
decide_scan_entry-capture_example = decide_scan_entry-capture facts options

generic_string-split_example :
    (parent_path (generic_string ((97 ∷ []) ∷ (98 ∷ []) ∷ [])) ≡ generic_string ((97 ∷ []) ∷ []))
    × (entry_name (generic_string ((97 ∷ []) ∷ (98 ∷ []) ∷ [])) ≡ 98 ∷ [])
generic_string-split_example = generic_string-split ((97 ∷ []) ∷ []) (98 ∷ []) refl

abbrev metadata : PlatformFileMetadata
metadata = record {
  logical_size = 3;
  modified_time_ns = pos 5;
  changed_time_ns = pos 5;
  file_id_volume = 1;
  file_id_value = 2;
  posix_mode = 420;
}

abbrev platform : ScannerPlatformMetadata
platform = record {
  filesystem_identity = 1;
  reparse_kind = no_reparse_point;
  hidden = false;
  cloud_placeholder = false;
}

abbrev file_answers : EntryAnswers
file_answers = record {
  status = some is_regular;
  platform = some platform;
  metadata = some metadata;
  target = none;
}

abbrev directory_answers : EntryAnswers
directory_answers = record {
  status = some is_directory;
  platform = some platform;
  metadata = some metadata;
  target = none;
}

-- a directory `a` with a file `b` in it
abbrev root : RootAnswers
root = record {
  source_root_is_empty = false;
  callbacks_set = true;
  normalized = some [];
  status = some is_directory;
  platform = ok platform;
  ignore_rules = ok (record { patterns = []; case_sensitivity = sensitive });
  answers = directory_answers;
  listing =
      next (97 ∷ []) directory_answers (next (98 ∷ []) file_answers finished finished) finished;
}

collect-ParentsFirst_example :
    ParentsFirst (collect options root (record { entries = []; warnings = [] })).1.entries
collect-ParentsFirst_example = collect-ParentsFirst options root (refl, (refl, tt, tt), tt)

abbrev idle : ProgressAggregator
idle = record {
  has_callback = true;
  discovered_entries = 0;
  discovered_bytes = 0;
  processed_entries = 0;
  processed_bytes = 0;
  new_chunks = 0;
  reused_chunks = 0;
  current_path = [];
  dirty = false;
  finished = false;
  cancelled = false;
  scan_complete = false;
  scan_completion_pending = false;
  writing_phase_emitted = false;
  emissions = [];
  delivered = [];
}

Runs-rate_example :
    (calls_in_second 8 (emit preparing [] true 7 idle) ≤ 10)
    × (ordinary_calls_in_second 8 (emit preparing [] true 7 idle) ≤ 4)
Runs-rate_example = Runs-rate 7 8 (emit preparing [] true 7 idle) (
    steps 0 7 idle (emit preparing [] true 7 idle) (starts 0 idle refl refl) (omega arith)
      (requires preparing []))
