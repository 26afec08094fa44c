-- ===== src/Tests.antt =====
-- Concrete inputs: a fixed-point instance of the float operations, and runs of the definitions.
mod Evidences
mod Fixed
mod Samples
mod Scores
mod Lifecycles
mod Runs
mod Stores
mod Ideas
mod Snapshots
mod Rankings
mod Projections
mod Feedbacks
