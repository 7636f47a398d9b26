-- ===== src/Sectioniter.antt =====
-- The package internal/sectioniter: a section of a plan for an agent, and a proposal of its answer.
pub mod Section
pub mod Protocol
pub mod Proposal
mod Tests
