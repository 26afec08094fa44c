-- ===== src/Experiences/Projector/Checks.antt =====
-- The checks of the state events after those that they share, of the methods _apply_accessed to
-- _apply_restored of src/experience_hub/experiences/projector.py.
use text.Mathlib.Text.{◌==◌ as str_eq}
use experience_hub.Prelude.{
  ℕ, Bool, true, false, not, ◌&&◌, Option, none, some, ◌==◌, opt_eq, Result, require, value_error,
  ◌>>=◌, ◌>>◌,
}
use experience_hub.Floats.{FloatOps}
use experience_hub.Scoring.{
  LifecycleConfig, ActivationInputs, AccessUpdate, inputs_valid, record_access,
}
use experience_hub.Experiences.State.{State, cold, archived, temperature_eq, state_eq}
use experience_hub.Experiences.Events.{
  Payload, StructuredReason, ThresholdTarget, no_target, promote_hot, demote_warm, demote_cold,
  archive, lifecycle_evaluated, temperature_changed, Cause, policy_archive, policy_due, reason_eq,
  lifecycle_evaluation_fields, confidence_event_fields, pin_event_fields, restore_event_fields,
  no_fields,
}
use experience_hub.Experiences.Events.Valid.{is_close}
use experience_hub.Storage.EventStore.{StoredEvent}
use experience_hub.Experiences.Projector.Sources.{Sources, Decoded, of_experience, found, checked}
use experience_hub.Experiences.Projector.Context.{
  StateContext, require_allowed_changes, activation_inputs_of, materialized_at,
  require_materialization,
}
use experience_hub.Experiences.Projector.Policy.{require_lifecycle_evaluation_policy}

abbrev pub in_archive : State → Bool
in_archive s = temperature_eq s.temperature archived

-- The fields of a lifecycle-evaluated payload that its successors compare, and those of a
-- temperature-changed payload, if the payload is one.
abbrev pub evaluation_in : Decoded → Option (ℕ × ThresholdTarget × State)
evaluation_in (of_experience (lifecycle_evaluated _ cycle_id _ goal _ a)) = some (cycle_id, goal, a)
evaluation_in _ = none

abbrev pub change_in : Decoded → Option (Cause × State)
change_in (of_experience (temperature_changed _ cause _ _ a)) = some (cause, a)
change_in _ = none

abbrev pub target_eq : ThresholdTarget → ThresholdTarget → Bool
target_eq no_target no_target = true
target_eq promote_hot promote_hot = true
target_eq demote_warm demote_warm = true
target_eq demote_cold demote_cold = true
target_eq archive archive = true
target_eq _ _ = false

abbrev is_policy_archive : Cause → Bool
is_policy_archive policy_archive = true
is_policy_archive _ = false

-- _require_paired_predecessor
unfoldable pub require_paired_predecessor :
    {P : Type 0} → StoredEvent Payload → StoredEvent P → Result (Unit {0})
require_paired_predecessor event prior = checked (
    prior.row.causation_id == event.row.causation_id
    && prior.row.occurred_at == event.row.occurred_at)

-- _prior_payload
abbrev pub prior_payload : {P C : Type 0} → Sources P C → StoredEvent P → Result Decoded
prior_payload sources prior = found (sources.decode prior.row.event_type prior.row.payload)

abbrev follows_evaluation : Option (ℕ × ThresholdTarget × State) → ℕ → State → Bool
follows_evaluation none cycle_id b = false
follows_evaluation (some (prior_cycle, goal, a)) cycle_id b =
    prior_cycle == cycle_id && target_eq goal archive && state_eq a b

abbrev follows_archiving : Option (Cause × State) → State → Bool
follows_archiving none b = false
follows_archiving (some (cause, a)) b = is_policy_archive cause && state_eq a b

module _ (ops : FloatOps) (config : LifecycleConfig) where
  -- `except ValueError` around record_access
  abbrev access_of : ActivationInputs → ℕ → Result AccessUpdate
  access_of inputs occurred_at = found (record_access ops inputs occurred_at config)

  module _ {P : Type 0} (event : StoredEvent Payload) (context : StateContext P) (b a : State) where
    unfoldable pub accessed_checks : Result (Unit {0})
    accessed_checks = do
      let inputs : ActivationInputs =
          activation_inputs_of b b.confidence context.identity.created_at
      require (inputs_valid ops inputs) value_error
      access ← access_of inputs event.row.occurred_at
      m ←
          materialized_at ops config
            (record inputs {
              access_count = access.access_count;
              access_strength = access.access_strength;
              strength_updated_at = access.strength_updated_at;
              last_accessed_at = some access.last_accessed_at;
            })
            event.row.occurred_at
      checked (
          a.access_count == access.access_count
          && is_close ops a.access_strength access.access_strength
          && a.strength_updated_at == access.strength_updated_at
          && opt_eq a.last_accessed_at (some access.last_accessed_at)
          && is_close ops a.activation_score m.score)

    unfoldable pub reactivated_checks : Result (Unit {0})
    reactivated_checks = checked (
        temperature_eq b.temperature cold
        && str_eq context.prior_event.row.event_type "experience.accessed"
        && context.prior_event.row.causation_id == event.row.causation_id
        && context.prior_event.row.occurred_at == event.row.occurred_at)

    unfoldable pub lifecycle_evaluated_checks : ℕ → ThresholdTarget → Result (Unit {0})
    lifecycle_evaluated_checks evaluated_at goal = do
      require_allowed_changes lifecycle_evaluation_fields b a
      checked (not (in_archive b))
      checked (
          evaluated_at == event.row.occurred_at
          && opt_eq a.last_lifecycle_evaluated_at (some event.row.occurred_at))
      require_materialization ops config context.identity b a event.row.occurred_at b.confidence
      require_lifecycle_evaluation_policy ops config goal b a event.row.occurred_at

    -- _apply_confirmed, _apply_refuted and, after its sources, _apply_corroborated, for the
    -- confidence that their formula gives.
    unfoldable pub confidence_checks : ℕ → Result (Unit {0})
    confidence_checks expected_confidence = do
      checked (is_close ops a.confidence expected_confidence)
      require_materialization ops config context.identity b a event.row.occurred_at
          expected_confidence

    unfoldable pub confidence_changes : Result (Unit {0})
    confidence_changes = do
      require_allowed_changes confidence_event_fields b a
      checked (not (in_archive b))

    -- _apply_pinned and _apply_unpinned, for the test of the flip.
    unfoldable pub pin_checks : Bool → Result (Unit {0})
    pin_checks flips = do
      require_allowed_changes pin_event_fields b a
      checked (not (in_archive b))
      checked flips
      require_materialization ops config context.identity b a event.row.occurred_at b.confidence

    module _ {C : Type 0} (sources : Sources P C) where
      unfoldable pub archived_checks : ℕ → StructuredReason → Result (Unit {0})
      unfolding require_paired_predecessor
      archived_checks cycle_id reason = do
        require_allowed_changes no_fields b a
        prior ← prior_payload sources context.prior_event
        checked (
            state_eq b a
            && temperature_eq b.temperature cold
            && reason_eq reason policy_due
            && follows_evaluation (evaluation_in prior) cycle_id b)
        require_paired_predecessor event context.prior_event

      unfoldable pub restored_checks : Result (Unit {0})
      restored_checks = do
        require_allowed_changes restore_event_fields b a
        prior ← prior_payload sources context.prior_event
        checked (in_archive b && in_archive a && follows_archiving (change_in prior) b)
        require_materialization ops config context.identity b a event.row.occurred_at b.confidence
