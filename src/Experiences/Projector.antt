-- ===== src/Experiences/Projector.antt =====
-- src/experience_hub/experiences/projector.py: the reducer that keeps the experience_state table.
pub mod Rows
pub mod Sources
pub mod Context
pub mod Policy
pub mod Provenance
pub mod Checks
pub mod Transition
pub mod Source
pub mod Apply
pub mod Effect
pub mod Replay
pub mod Consistent
pub mod Decided
