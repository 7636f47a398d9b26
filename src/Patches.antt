-- ===== src/Patches.antt =====
-- The package internal/patches: text hunks that a model supplies are located in a base text and
-- applied to it. Hunks: the data and the search for one hunk. Resolve: the whole set, and Apply.
-- Search, Order, Splice and Sound hold the proofs.
pub mod Hunks
pub mod Resolve
pub mod Search
pub mod Unique
pub mod Order
pub mod Trim
pub mod Splice
pub mod Sound
mod Tests
