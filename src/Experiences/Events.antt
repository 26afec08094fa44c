-- ===== src/Experiences/Events.antt =====
-- The event payloads of src/experience_hub/experiences/events.py with their validators.
pub mod Pending
pub mod Evidence
pub mod Valid
pub mod Frames
pub mod Authority
use experience_hub.Prelude.{
  ℕ, ◌+◌, Bool, true, false, not, ◌&&◌, ◌||◌, Option, none, some, List, [], ◌∷◌, ltb, leb, ◌==◌,
  opt_eq, is_some, if◌then◌else◌, all, any,
}
use Prim.Native.String.{String}
use text.Mathlib.Text.{◌==◌ as str_eq}
use experience_hub.Floats.{FloatOps}
use experience_hub.Scoring.{one}
use experience_hub.Experiences.State.{
  State, Temperature, hot, warm, cold, archived, Field, temperature_eq, state_valid, state_eq,
  changes_within, digest_bound,
}

pub record StructuredReason : Type 0 where
  pub code : String
  pub text : String
  pub text_hash : ℕ

-- The digest is SHA-256 of the text.
unfoldable pub policy_due : StructuredReason
policy_due = record {
  code = "policy_due";
  text = "Archived because the retention policy is due.";
  text_hash = 21045826560899231144866539934242944585370411849092392566477424074681352293066;
}

unfoldable pub reason_eq : StructuredReason → StructuredReason → Bool
reason_eq a b = str_eq a.code b.code && str_eq a.text b.text && a.text_hash == b.text_hash

-- The texts are the code points of their characters.
pub record TypedEvidence : Type 0 where
  pub type : List ℕ
  pub id : List ℕ

pub data LinkRelation : Type 0 where
  derived_from supports contradicts tests : LinkRelation

-- The place of `relation.value` in the order of the texts.
unfoldable pub relation_rank : LinkRelation → ℕ
relation_rank contradicts = 0
relation_rank derived_from = 1
relation_rank supports = 2
relation_rank tests = 3

pub record VersionLinkRef : Type 0 where
  pub target_experience_id : ℕ
  pub relation : LinkRelation

pub data RetrievalEventMode : Type 0 where
  focused associative : RetrievalEventMode

pub data ThresholdTarget : Type 0 where
  no_target promote_hot demote_warm demote_cold archive : ThresholdTarget

pub data Cause : Type 0 where
  cold_reactivation confirmation pin lifecycle_activation lifecycle_demotion : Cause
  policy_archive restore capsule_corroboration : Cause

-- _TEMPERATURE_TRANSITIONS, as the membership test of the pairs of a cause.
unfoldable pub permits : Cause → Temperature → Temperature → Bool
permits cold_reactivation cold warm = true
permits confirmation warm hot = true
permits confirmation cold hot = true
permits pin warm hot = true
permits pin cold hot = true
permits lifecycle_activation warm hot = true
permits lifecycle_demotion hot warm = true
permits lifecycle_demotion warm cold = true
permits policy_archive cold archived = true
permits restore archived warm = true
permits capsule_corroboration cold hot = true
permits _ _ _ = false

-- _CYCLE_CAUSES
unfoldable pub is_cycle_cause : Cause → Bool
is_cycle_cause lifecycle_activation = true
is_cycle_cause lifecycle_demotion = true
is_cycle_cause policy_archive = true
is_cycle_cause _ = false

-- The sets of state fields that an event may change.
unfoldable pub correction_fields : Field → Bool
correction_fields Field.current_version_id = true
correction_fields Field.current_content_hash = true
correction_fields Field.access_strength = true
correction_fields Field.strength_updated_at = true
correction_fields Field.activation_score = true
correction_fields _ = false

unfoldable pub access_fields : Field → Bool
access_fields Field.access_count = true
access_fields Field.access_strength = true
access_fields Field.strength_updated_at = true
access_fields Field.last_accessed_at = true
access_fields Field.activation_score = true
access_fields _ = false

unfoldable pub temperature_change_fields : Field → Bool
temperature_change_fields Field.temperature = true
temperature_change_fields Field.last_transition_at = true
temperature_change_fields Field.consecutive_below_threshold = true
temperature_change_fields _ = false

unfoldable pub lifecycle_evaluation_fields : Field → Bool
lifecycle_evaluation_fields Field.access_strength = true
lifecycle_evaluation_fields Field.strength_updated_at = true
lifecycle_evaluation_fields Field.activation_score = true
lifecycle_evaluation_fields Field.last_lifecycle_evaluated_at = true
lifecycle_evaluation_fields Field.consecutive_below_threshold = true
lifecycle_evaluation_fields _ = false

unfoldable pub confidence_event_fields : Field → Bool
confidence_event_fields Field.confidence = true
confidence_event_fields Field.access_strength = true
confidence_event_fields Field.strength_updated_at = true
confidence_event_fields Field.activation_score = true
confidence_event_fields _ = false

unfoldable pub pin_event_fields : Field → Bool
pin_event_fields Field.pinned = true
pin_event_fields Field.access_strength = true
pin_event_fields Field.strength_updated_at = true
pin_event_fields Field.activation_score = true
pin_event_fields _ = false

unfoldable pub restore_event_fields : Field → Bool
restore_event_fields Field.access_strength = true
restore_event_fields Field.strength_updated_at = true
restore_event_fields Field.activation_score = true
restore_event_fields _ = false

unfoldable pub no_fields : Field → Bool
no_fields _ = false

pub data Payload : Type 0 where
  created : (experience_id version_id : ℕ) (after : State) → Payload
  version_created :
      (experience_id version_id version_number : ℕ) (supersedes_version_id : Option ℕ)
      (links : List VersionLinkRef) (before after : State)
      → Payload
  accessed : (experience_id version_id : ℕ) (before after : State) → Payload
  reactivated :
      (experience_id query_hash : ℕ) (mode : RetrievalEventMode) (signal : ℕ) (before after : State)
      → Payload
  temperature_changed :
      (experience_id : ℕ) (cause : Cause) (cycle_id : Option ℕ) (before after : State) → Payload
  lifecycle_evaluated :
      (experience_id cycle_id evaluated_at : ℕ) (threshold_target : ThresholdTarget)
      (before after : State)
      → Payload
  confirmed refuted :
      (experience_id : ℕ) (reason : Option StructuredReason) (evidence : List TypedEvidence)
      (before after : State)
      → Payload
  corroborated :
      (experience_id adoption_id capsule_id root_fingerprint captured_trust : ℕ)
      (before after : State)
      → Payload
  pinned unpinned :
      (experience_id : ℕ) (reason : Option StructuredReason) (before after : State) → Payload
  archived_event :
      (experience_id cycle_id : ℕ) (reason : StructuredReason) (before after : State) → Payload
  restored : (experience_id : ℕ) (reason : Option StructuredReason) (before after : State) → Payload
