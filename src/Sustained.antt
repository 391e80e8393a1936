-- ===== src/Sustained.antt =====
-- The tracker of pkg/analyzer/sustained: clients that move much data or walk much of the namespace over a
-- sliding window.
pub mod Hashing
pub mod Resources
pub mod Client
pub mod Refs
pub mod Window
pub mod Observing
pub mod Pruning
pub mod Config
pub mod Thresholds
pub mod Hold
pub mod Tracker
pub mod Evaluate
pub mod Snapshot
pub mod Order
pub mod Invariant
pub mod Observed
pub mod Round
pub mod Evaluated
pub mod Run
pub mod Release
pub mod Explained
pub mod Shown
pub mod Newest
pub mod Retained
pub mod Tests
