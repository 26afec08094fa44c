-- ===== src/Experiences/State.antt =====
-- ExperienceStateSnapshotV1 of src/experience_hub/experiences/events.py, and the comparison of two
-- snapshots field by field. UUIDs and SHA-256 digests are the numbers that they spell.
pub mod Fields
use experience_hub.Prelude.{
  ℕ, suc, ◌^◌, Bool, true, false, ◌&&◌, Option, List, [], ◌∷◌, ltb, leb, ◌==◌, opt_eq, bool_eq,
  if◌then◌else◌, all,
}
use experience_hub.Floats.{FloatOps}
use experience_hub.Scoring.{one, max_access_strength}

pub data Temperature : Type 0 where
  hot warm cold archived : Temperature

abbrev pub temperature_eq : Temperature → Temperature → Bool
temperature_eq hot hot = true
temperature_eq warm warm = true
temperature_eq cold cold = true
temperature_eq archived archived = true
temperature_eq _ _ = false

pub record State : Type 0 where
  pub experience_id : ℕ
  pub owner_agent_id : ℕ
  pub current_version_id : ℕ
  pub current_content_hash : ℕ
  pub temperature : Temperature
  pub importance : ℕ
  pub confidence : ℕ
  pub activation_score : ℕ
  pub source_trust : ℕ
  pub access_count : ℕ
  pub access_strength : ℕ
  pub strength_updated_at : ℕ
  pub last_accessed_at : Option ℕ
  pub last_transition_at : ℕ
  pub last_lifecycle_evaluated_at : Option ℕ
  pub consecutive_below_threshold : ℕ
  pub pinned : Bool

abbrev pub digest_bound : ℕ
digest_bound = 2 ^ 256

-- The field validators of the snapshot.
unfoldable pub state_valid : FloatOps → State → Bool
state_valid ops s =
    ltb s.current_content_hash digest_bound
    && leb s.importance (one ops)
    && leb s.confidence (one ops)
    && leb s.activation_score (one ops)
    && leb s.source_trust (one ops)
    && leb s.access_strength (max_access_strength ops)

-- The names in ExperienceStateSnapshotV1.model_fields.
pub data Field : Type 0 where
  experience_id owner_agent_id current_version_id current_content_hash temperature : Field
  importance confidence activation_score source_trust access_count access_strength : Field
  strength_updated_at last_accessed_at last_transition_at last_lifecycle_evaluated_at : Field
  consecutive_below_threshold pinned : Field

-- getattr(before, name) == getattr(after, name)
unfoldable pub same : Field → State → State → Bool
same experience_id b a = b.experience_id == a.experience_id
same owner_agent_id b a = b.owner_agent_id == a.owner_agent_id
same current_version_id b a = b.current_version_id == a.current_version_id
same current_content_hash b a = b.current_content_hash == a.current_content_hash
same temperature b a = temperature_eq b.temperature a.temperature
same importance b a = b.importance == a.importance
same confidence b a = b.confidence == a.confidence
same activation_score b a = b.activation_score == a.activation_score
same source_trust b a = b.source_trust == a.source_trust
same access_count b a = b.access_count == a.access_count
same access_strength b a = b.access_strength == a.access_strength
same strength_updated_at b a = b.strength_updated_at == a.strength_updated_at
same last_accessed_at b a = opt_eq b.last_accessed_at a.last_accessed_at
same last_transition_at b a = b.last_transition_at == a.last_transition_at
same last_lifecycle_evaluated_at b a =
    opt_eq b.last_lifecycle_evaluated_at a.last_lifecycle_evaluated_at
same consecutive_below_threshold b a =
    b.consecutive_below_threshold == a.consecutive_below_threshold
same pinned b a = bool_eq b.pinned a.pinned

unfoldable pub model_fields : List Field
model_fields =
    experience_id ∷ owner_agent_id ∷ current_version_id ∷ current_content_hash ∷ temperature
    ∷ importance ∷ confidence ∷ activation_score ∷ source_trust ∷ access_count ∷ access_strength
    ∷ strength_updated_at ∷ last_accessed_at ∷ last_transition_at ∷ last_lifecycle_evaluated_at
    ∷ consecutive_below_threshold ∷ pinned ∷ []

unfoldable pub changed_among : List Field → State → State → List Field
changed_among [] b a = []
changed_among (f ∷ fs) b a =
    let rest = changed_among fs b a in if same f b a then rest else f ∷ rest

unfoldable pub changed_snapshot_fields : State → State → List Field
unfolding changed_among model_fields
changed_snapshot_fields b a = changed_among model_fields b a

-- changed <= allowed, for a set of field names given by its membership test.
unfoldable pub changes_within : (Field → Bool) → State → State → Bool
unfolding changed_snapshot_fields
changes_within allowed b a = all allowed (changed_snapshot_fields b a)

-- before == after
unfoldable pub state_eq : State → State → Bool
unfolding same
state_eq b a =
    same experience_id b a
    && same owner_agent_id b a
    && same current_version_id b a
    && same current_content_hash b a
    && same temperature b a
    && same importance b a
    && same confidence b a
    && same activation_score b a
    && same source_trust b a
    && same access_count b a
    && same access_strength b a
    && same strength_updated_at b a
    && same last_accessed_at b a
    && same last_transition_at b a
    && same last_lifecycle_evaluated_at b a
    && same consecutive_below_threshold b a
    && same pinned b a
