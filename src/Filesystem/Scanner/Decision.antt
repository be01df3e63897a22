-- ===== src/Filesystem/Scanner/Decision.antt =====
-- What `decide_scan_entry` decides.
use file_vault.Common.{◌≡◌, ◌↔◌, ◌⊎◌, true, false, arith}
use file_vault.Filesystem.Scanner.{
  FileScannerOptions, ScanEntryFacts, ordinary, link, junction, capture, capture_as_symbolic_link,
  decide_scan_entry, is_mount_point, is_unsupported, is_link,
}

-- The options admit the entry: it may be hidden only if hidden entries are included, its content is
-- here, and it lies on the root's filesystem if it must.
pub record IsAdmitted (facts : ScanEntryFacts) (options : FileScannerOptions) : Type 0 where
  pub hidden : (options.include_hidden ≡ false) → facts.hidden ≡ false
  pub local : facts.cloud_placeholder ≡ false
  pub boundary : (options.one_file_system ≡ true) → facts.filesystem_boundary ≡ false

-- An entry is captured for its content if and only if it is ordinary and the options admit it, and as
-- a symbolic link if and only if it is a link or a junction and they admit it.
pub decide_scan_entry-capture :
    (facts : ScanEntryFacts) (options : FileScannerOptions)
    → ((decide_scan_entry facts options ≡ capture)
        ↔ ((facts.kind ≡ ordinary) × IsAdmitted facts options))
      × ((decide_scan_entry facts options ≡ capture_as_symbolic_link)
          ↔ (((facts.kind ≡ link) ⊎ (facts.kind ≡ junction)) × IsAdmitted facts options))
unfolding decide_scan_entry is_mount_point is_unsupported is_link
decide_scan_entry-capture facts options = (
  (
    λ e. (
      ground arith,
      record { hidden = λ h. ground arith; local = ground arith; boundary = λ h. ground arith },
    ),
    λ (k, a). let h = a.hidden in let l = a.local in let b = a.boundary in ground arith,
  ),
  (
    λ e. (
      ground arith,
      record { hidden = λ h. ground arith; local = ground arith; boundary = λ h. ground arith },
    ),
    λ (k, a). let h = a.hidden in let l = a.local in let b = a.boundary in ground arith,
  ),
)
