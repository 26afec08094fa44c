-- ===== src/Experiences/Events/Authority.antt =====
-- Which events may change which part of an experience's state.
use experience_hub.Prelude.{◌+◌, ◌≡◌, Bool, true, false, some, arith, ◌⊎◌, if◌then◌else◌}
use experience_hub.Floats.{FloatOps}
use experience_hub.Experiences.State.{State}
use experience_hub.Experiences.State.Fields.{state_eq→≡}
use experience_hub.Experiences.Events.{
  Payload, created, version_created, accessed, reactivated, temperature_changed,
  lifecycle_evaluated, confirmed, refuted, corroborated, pinned, unpinned, archived_event, restored,
}
use experience_hub.Experiences.Events.Valid.{valid, before, after}
use experience_hub.Experiences.Events.Frames.{
  correction_frame, access_frame, temperature_change_frame, lifecycle_evaluation_frame,
  confidence_event_frame, pin_event_frame, restore_event_frame,
}

-- The isinstance tests on a payload.
abbrev pub is_temperature_changed : Payload → Bool
is_temperature_changed (temperature_changed _ _ _ _ _) = true
is_temperature_changed _ = false

abbrev pub is_version_created : Payload → Bool
is_version_created (version_created _ _ _ _ _ _ _) = true
is_version_created _ = false

abbrev pub is_accessed : Payload → Bool
is_accessed (accessed _ _ _ _) = true
is_accessed _ = false

abbrev pub sets_confidence : Payload → Bool
sets_confidence (confirmed _ _ _ _ _) = true
sets_confidence (refuted _ _ _ _ _) = true
sets_confidence (corroborated _ _ _ _ _ _ _) = true
sets_confidence _ = false

abbrev pub sets_pinned : Payload → Bool
sets_pinned (pinned _ _ _ _) = true
sets_pinned (unpinned _ _ _ _) = true
sets_pinned _ = false

pub record Authority (p : Payload) (b a : State) : Type 0 where
  pub experience : a.experience_id ≡ b.experience_id
  pub owner : a.owner_agent_id ≡ b.owner_agent_id
  pub importance : a.importance ≡ b.importance
  pub source_trust : a.source_trust ≡ b.source_trust
  pub temperature : (a.temperature ≡ b.temperature) ⊎ (is_temperature_changed p ≡ true)
  pub version : (a.current_version_id ≡ b.current_version_id) ⊎ (is_version_created p ≡ true)
  pub content : (a.current_content_hash ≡ b.current_content_hash) ⊎ (is_version_created p ≡ true)
  pub confidence : (a.confidence ≡ b.confidence) ⊎ (sets_confidence p ≡ true)
  pub pin : (a.pinned ≡ b.pinned) ⊎ (sets_pinned p ≡ true)
  pub accesses : a.access_count ≡ (if is_accessed p then b.access_count + 1 else b.access_count)

-- A valid payload keeps the experience, its owner, its importance and its source trust. Its
-- temperature changes only by a temperature-changed event, its version and content only by a
-- version-created event, its confidence only by a confirmed, refuted or corroborated event, its pin
-- only by a pinned or unpinned event, and its access count only by an accessed event, by one.
pub valid-Authority :
    (ops : FloatOps) (p : Payload) {b : State}
    → before p ≡ some b
    → valid ops p ≡ true
    → Authority p b (after p)
unfolding valid before after
valid-Authority ops (created id version_id a) e v = ground arith
valid-Authority ops (version_created id version_id number supersedes links b a) e v =
    ground (arith, state_eq→≡ b a, correction_frame b a)
valid-Authority ops (accessed id version_id b a) e v = ground (arith, access_frame b a)
valid-Authority ops (reactivated id query_hash mode signal b a) e v = ground (arith, state_eq→≡ b a)
valid-Authority ops (temperature_changed id cause cycle_id b a) e v =
    ground (arith, temperature_change_frame b a)
valid-Authority ops (lifecycle_evaluated id cycle_id evaluated_at goal b a) e v =
    ground (arith, lifecycle_evaluation_frame b a)
valid-Authority ops (confirmed id reason evidence b a) e v =
    ground (arith, confidence_event_frame b a)
valid-Authority ops (refuted id reason evidence b a) e v =
    ground (arith, confidence_event_frame b a)
valid-Authority ops (corroborated id adoption_id capsule_id root captured_trust b a) e v =
    ground (arith, confidence_event_frame b a)
valid-Authority ops (pinned id reason b a) e v = ground (arith, pin_event_frame b a)
valid-Authority ops (unpinned id reason b a) e v = ground (arith, pin_event_frame b a)
valid-Authority ops (archived_event id cycle_id reason b a) e v = ground (arith, state_eq→≡ b a)
valid-Authority ops (restored id reason b a) e v = ground (arith, restore_event_frame b a)
