-- ===== src/Review/Tests.antt =====
-- A server with a small review, and the instances of the theorems on it.
mod Data
mod Instances
mod Parts
mod Loading
