-- ===== src/Filesystem.antt =====
-- src/core/filesystem, and the file tree that the other parts read and write.
pub mod IgnoreRules
pub mod FileMetadata
pub mod Scanner
pub mod Tree
