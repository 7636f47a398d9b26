-- ===== src/Review.antt =====
-- The review server: internal/review. A request handler is a function from the server and the
-- decoded request to the reply and the server behind it; the lock makes each one step.
pub mod Types
pub mod Operations
pub mod ClientState
pub mod Mutate
pub mod Paths
pub mod Handlers
pub mod Requests
pub mod Iteration
pub mod Presence
pub mod Compare
pub mod Questions
pub mod Migrations
pub mod Loading
mod Tests
