-- ===== src/Reviewmodel.antt =====
-- The package internal/reviewmodel: what the reviewer is shown of a change. Data: its records;
-- Clusters: rows and changed regions; Stops: placements, the queue of review stops, and Build.
-- Cover and Queue hold the proofs.
pub mod Data
pub mod Clusters
pub mod Stops
pub mod Build
pub mod Cover
pub mod Queue
mod Tests
