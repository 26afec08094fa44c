-- ===== src/Sharing.antt =====
-- src/experience_hub/sharing: observer trust, the confidence of what a capsule brings, and the
-- reputation of a publisher.
pub mod Confidence
pub mod Reputation
