-- ===== src/Review/Handlers.antt =====
-- The request handlers of internal/review/server.go that change the review.
pub mod Threads
pub mod Course
