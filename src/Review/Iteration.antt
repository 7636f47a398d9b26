-- ===== src/Review/Iteration.antt =====
-- An iteration of the agent: internal/review/server.go and operations.go.
pub mod Request
pub mod Prepare
pub mod Execute
pub mod Outcome
pub mod Saved
pub mod Start
