-- ===== src/Session/Tests.antt =====
-- A small review session, the tests that run the model on it, and the instances of the theorems.
mod Data
mod Runs
mod Instances
mod Ids
