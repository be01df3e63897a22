-- ===== src/Snapshot.antt =====
-- src/core/snapshot_engine.cpp: the pipeline that captures a directory tree.
pub mod Counters
pub mod Worker
pub mod Progress
pub mod RoundTrip
pub mod Writer
