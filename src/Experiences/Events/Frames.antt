-- ===== src/Experiences/Events/Frames.antt =====
-- Each set of fields that an event may change, as an equation between the snapshots: the state
-- after the event is the state before it with those fields alone given anew.
use experience_hub.Prelude.{◌≡◌, refl, true, arith}
use experience_hub.Experiences.State.{State, Field, same, changes_within}
use experience_hub.Experiences.State.Fields.{unchanged}
use experience_hub.Experiences.Events.{
  correction_fields, access_fields, temperature_change_fields, lifecycle_evaluation_fields,
  confidence_event_fields, pin_event_fields, restore_event_fields,
}

module _ (b a : State) where
  pub correction_frame :
      changes_within correction_fields b a ≡ true
      → a ≡ record b {
        current_version_id = a.current_version_id;
        current_content_hash = a.current_content_hash;
        activation_score = a.activation_score;
        access_strength = a.access_strength;
        strength_updated_at = a.strength_updated_at;
      }
  unfolding correction_fields same
  correction_frame h = ground (
    arith,
    unchanged correction_fields b a Field.experience_id h refl,
    unchanged correction_fields b a Field.owner_agent_id h refl,
    unchanged correction_fields b a Field.temperature h refl,
    unchanged correction_fields b a Field.importance h refl,
    unchanged correction_fields b a Field.confidence h refl,
    unchanged correction_fields b a Field.source_trust h refl,
    unchanged correction_fields b a Field.access_count h refl,
    unchanged correction_fields b a Field.last_accessed_at h refl,
    unchanged correction_fields b a Field.last_transition_at h refl,
    unchanged correction_fields b a Field.last_lifecycle_evaluated_at h refl,
    unchanged correction_fields b a Field.consecutive_below_threshold h refl,
    unchanged correction_fields b a Field.pinned h refl,
  )

  pub access_frame :
      changes_within access_fields b a ≡ true
      → a ≡ record b {
        activation_score = a.activation_score;
        access_count = a.access_count;
        access_strength = a.access_strength;
        strength_updated_at = a.strength_updated_at;
        last_accessed_at = a.last_accessed_at;
      }
  unfolding access_fields same
  access_frame h = ground (
    arith,
    unchanged access_fields b a Field.experience_id h refl,
    unchanged access_fields b a Field.owner_agent_id h refl,
    unchanged access_fields b a Field.current_version_id h refl,
    unchanged access_fields b a Field.current_content_hash h refl,
    unchanged access_fields b a Field.temperature h refl,
    unchanged access_fields b a Field.importance h refl,
    unchanged access_fields b a Field.confidence h refl,
    unchanged access_fields b a Field.source_trust h refl,
    unchanged access_fields b a Field.last_transition_at h refl,
    unchanged access_fields b a Field.last_lifecycle_evaluated_at h refl,
    unchanged access_fields b a Field.consecutive_below_threshold h refl,
    unchanged access_fields b a Field.pinned h refl,
  )

  pub temperature_change_frame :
      changes_within temperature_change_fields b a ≡ true
      → a ≡ record b {
        temperature = a.temperature;
        last_transition_at = a.last_transition_at;
        consecutive_below_threshold = a.consecutive_below_threshold;
      }
  unfolding temperature_change_fields same
  temperature_change_frame h = ground (
    arith,
    unchanged temperature_change_fields b a Field.experience_id h refl,
    unchanged temperature_change_fields b a Field.owner_agent_id h refl,
    unchanged temperature_change_fields b a Field.current_version_id h refl,
    unchanged temperature_change_fields b a Field.current_content_hash h refl,
    unchanged temperature_change_fields b a Field.importance h refl,
    unchanged temperature_change_fields b a Field.confidence h refl,
    unchanged temperature_change_fields b a Field.activation_score h refl,
    unchanged temperature_change_fields b a Field.source_trust h refl,
    unchanged temperature_change_fields b a Field.access_count h refl,
    unchanged temperature_change_fields b a Field.access_strength h refl,
    unchanged temperature_change_fields b a Field.strength_updated_at h refl,
    unchanged temperature_change_fields b a Field.last_accessed_at h refl,
    unchanged temperature_change_fields b a Field.last_lifecycle_evaluated_at h refl,
    unchanged temperature_change_fields b a Field.pinned h refl,
  )

  pub lifecycle_evaluation_frame :
      changes_within lifecycle_evaluation_fields b a ≡ true
      → a ≡ record b {
        activation_score = a.activation_score;
        access_strength = a.access_strength;
        strength_updated_at = a.strength_updated_at;
        last_lifecycle_evaluated_at = a.last_lifecycle_evaluated_at;
        consecutive_below_threshold = a.consecutive_below_threshold;
      }
  unfolding lifecycle_evaluation_fields same
  lifecycle_evaluation_frame h = ground (
    arith,
    unchanged lifecycle_evaluation_fields b a Field.experience_id h refl,
    unchanged lifecycle_evaluation_fields b a Field.owner_agent_id h refl,
    unchanged lifecycle_evaluation_fields b a Field.current_version_id h refl,
    unchanged lifecycle_evaluation_fields b a Field.current_content_hash h refl,
    unchanged lifecycle_evaluation_fields b a Field.temperature h refl,
    unchanged lifecycle_evaluation_fields b a Field.importance h refl,
    unchanged lifecycle_evaluation_fields b a Field.confidence h refl,
    unchanged lifecycle_evaluation_fields b a Field.source_trust h refl,
    unchanged lifecycle_evaluation_fields b a Field.access_count h refl,
    unchanged lifecycle_evaluation_fields b a Field.last_accessed_at h refl,
    unchanged lifecycle_evaluation_fields b a Field.last_transition_at h refl,
    unchanged lifecycle_evaluation_fields b a Field.pinned h refl,
  )

  pub confidence_event_frame :
      changes_within confidence_event_fields b a ≡ true
      → a ≡ record b {
        confidence = a.confidence;
        activation_score = a.activation_score;
        access_strength = a.access_strength;
        strength_updated_at = a.strength_updated_at;
      }
  unfolding confidence_event_fields same
  confidence_event_frame h = ground (
    arith,
    unchanged confidence_event_fields b a Field.experience_id h refl,
    unchanged confidence_event_fields b a Field.owner_agent_id h refl,
    unchanged confidence_event_fields b a Field.current_version_id h refl,
    unchanged confidence_event_fields b a Field.current_content_hash h refl,
    unchanged confidence_event_fields b a Field.temperature h refl,
    unchanged confidence_event_fields b a Field.importance h refl,
    unchanged confidence_event_fields b a Field.source_trust h refl,
    unchanged confidence_event_fields b a Field.access_count h refl,
    unchanged confidence_event_fields b a Field.last_accessed_at h refl,
    unchanged confidence_event_fields b a Field.last_transition_at h refl,
    unchanged confidence_event_fields b a Field.last_lifecycle_evaluated_at h refl,
    unchanged confidence_event_fields b a Field.consecutive_below_threshold h refl,
    unchanged confidence_event_fields b a Field.pinned h refl,
  )

  pub pin_event_frame :
      changes_within pin_event_fields b a ≡ true
      → a ≡ record b {
        activation_score = a.activation_score;
        access_strength = a.access_strength;
        strength_updated_at = a.strength_updated_at;
        pinned = a.pinned;
      }
  unfolding pin_event_fields same
  pin_event_frame h = ground (
    arith,
    unchanged pin_event_fields b a Field.experience_id h refl,
    unchanged pin_event_fields b a Field.owner_agent_id h refl,
    unchanged pin_event_fields b a Field.current_version_id h refl,
    unchanged pin_event_fields b a Field.current_content_hash h refl,
    unchanged pin_event_fields b a Field.temperature h refl,
    unchanged pin_event_fields b a Field.importance h refl,
    unchanged pin_event_fields b a Field.confidence h refl,
    unchanged pin_event_fields b a Field.source_trust h refl,
    unchanged pin_event_fields b a Field.access_count h refl,
    unchanged pin_event_fields b a Field.last_accessed_at h refl,
    unchanged pin_event_fields b a Field.last_transition_at h refl,
    unchanged pin_event_fields b a Field.last_lifecycle_evaluated_at h refl,
    unchanged pin_event_fields b a Field.consecutive_below_threshold h refl,
  )

  pub restore_event_frame :
      changes_within restore_event_fields b a ≡ true
      → a ≡ record b {
        activation_score = a.activation_score;
        access_strength = a.access_strength;
        strength_updated_at = a.strength_updated_at;
      }
  unfolding restore_event_fields same
  restore_event_frame h = ground (
    arith,
    unchanged restore_event_fields b a Field.experience_id h refl,
    unchanged restore_event_fields b a Field.owner_agent_id h refl,
    unchanged restore_event_fields b a Field.current_version_id h refl,
    unchanged restore_event_fields b a Field.current_content_hash h refl,
    unchanged restore_event_fields b a Field.temperature h refl,
    unchanged restore_event_fields b a Field.importance h refl,
    unchanged restore_event_fields b a Field.confidence h refl,
    unchanged restore_event_fields b a Field.source_trust h refl,
    unchanged restore_event_fields b a Field.access_count h refl,
    unchanged restore_event_fields b a Field.last_accessed_at h refl,
    unchanged restore_event_fields b a Field.last_transition_at h refl,
    unchanged restore_event_fields b a Field.last_lifecycle_evaluated_at h refl,
    unchanged restore_event_fields b a Field.consecutive_below_threshold h refl,
    unchanged restore_event_fields b a Field.pinned h refl,
  )
