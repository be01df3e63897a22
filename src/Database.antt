-- ===== src/Database.antt =====
-- src/core/database: the metadata of a repository.
pub mod Chunks
pub mod Entries
pub mod Snapshots
pub mod Deletion
