-- ===== src/Tests.antt =====
-- Concrete runs, and the theorems applied to concrete inputs.
mod Machine
mod Objects
mod Queues
mod Rules
mod Restores
mod Snapshots
mod Captures
mod Scans
mod Deletions
mod Destinations
mod Selections
