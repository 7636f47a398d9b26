-- ===== src/Session/Types.antt =====
-- The data of a session, in two children: the records of internal/session/session.go, and the
-- words and errors of session.go, comment_state.go and transitions.go.
mod Records
mod Words
pub use Records.*
unfoldable pub use Words.*
