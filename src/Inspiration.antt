-- ===== src/Inspiration.antt =====
-- src/experience_hub/inspiration: the snapshot of evidence that a run works on, and the deduplication
-- of the ideas that come of it.
pub mod Snapshot
pub mod Dedup
