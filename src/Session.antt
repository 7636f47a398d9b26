-- ===== src/Session.antt =====
-- The package internal/session: a review session and its operations.
pub mod Types
pub mod State
pub mod Anchors
pub mod Feedback
pub mod Locate
pub mod Validate
pub mod Proposals
pub mod Revisions
pub mod Restore
pub mod Reach
pub mod Context
mod Tests
