-- ===== src/Restore.antt =====
-- src/core/restore_engine.cpp, a module for each stage of `RestoreEngine::restore`.
pub mod ChunkList
pub mod Content
pub mod Paths
pub mod Selection
pub mod Plan
pub mod Utf8
