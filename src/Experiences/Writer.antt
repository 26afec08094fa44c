-- ===== src/Experiences/Writer.antt =====
-- ExperienceMutationWriter of src/experience_hub/experiences/transitions.py. `false` is a ValueError.
pub mod Sequence
pub mod Apply
pub mod Changes
pub mod Effect
pub mod Applied
