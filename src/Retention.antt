-- ===== src/Retention.antt =====
-- The retention worker (crates/autopiercam/src/retention.rs): which saved artifacts may be
-- deleted, in which order, and how much of the byte quotas a sweep restores.
pub mod Policy
pub mod Candidates
pub mod Plan
pub mod Errors
pub mod Files
pub mod Environment
pub mod Survey
pub mod Sweep
pub mod System
pub mod Worker
