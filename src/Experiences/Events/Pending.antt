-- ===== src/Experiences/Events/Pending.antt =====
-- PendingEvent of src/experience_hub/domain/events.py and the event names of the payload classes.
use experience_hub.Prelude.{ℕ, Option, String}
use experience_hub.Experiences.Events.{
  Payload, created, version_created, accessed, reactivated, temperature_changed,
  lifecycle_evaluated, confirmed, refuted, corroborated, pinned, unpinned, archived_event, restored,
}

pub record PendingEvent (P : Type 0) : Type 0 where
  pub aggregate_type : String
  pub aggregate_id : ℕ
  pub event_type : String
  pub payload : P
  pub actor_agent_id : Option ℕ
  pub occurred_at : ℕ

-- `type(payload).event_type`
unfoldable pub event_type : Payload → String
event_type (created _ _ _) = "experience.created"
event_type (version_created _ _ _ _ _ _ _) = "experience.version_created"
event_type (accessed _ _ _ _) = "experience.accessed"
event_type (reactivated _ _ _ _ _ _) = "experience.reactivated"
event_type (temperature_changed _ _ _ _ _) = "experience.temperature_changed"
event_type (lifecycle_evaluated _ _ _ _ _ _) = "experience.lifecycle_evaluated"
event_type (confirmed _ _ _ _ _) = "experience.confirmed"
event_type (refuted _ _ _ _ _) = "experience.refuted"
event_type (corroborated _ _ _ _ _ _ _) = "experience.corroborated"
event_type (pinned _ _ _ _) = "experience.pinned"
event_type (unpinned _ _ _ _) = "experience.unpinned"
event_type (archived_event _ _ _ _ _) = "experience.archived"
event_type (restored _ _ _ _) = "experience.restored"
