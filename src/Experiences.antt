-- ===== src/Experiences.antt =====
-- src/experience_hub/experiences: the state snapshot, the event payloads, the mutation
-- writer and the projection of the state.
pub mod State
pub mod Events
pub mod Writer
pub mod Projector
