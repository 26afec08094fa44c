-- ===== src/Lifecycle.antt =====
-- src/experience_hub/lifecycle: evaluation of one experience, the plan of its events, the lease, and
-- the run of a cycle.
pub mod Lease
pub mod Evaluate
pub mod Plan
pub mod Run
