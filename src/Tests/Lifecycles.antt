-- ===== src/Tests/Lifecycles.antt =====
-- Examples for the evaluation, the plan and the mutation writer.
use experience_hub.Prelude.{
  ◌*◌, String, ◌≡◌, ◌⊎◌, inl, ◌↔◌, refl, Option, none, some, List, [], ◌∷◌, true, false, arith, ok,
}
use experience_hub.Experiences.State.{
  State, state_valid, state_eq, changes_within, same, hot, warm, cold, archived,
}
use experience_hub.Experiences.Events.{
  Payload, accessed, reactivated, temperature_changed, focused, cold_reactivation, access_fields,
  temperature_change_fields, permits, is_cycle_cause,
}
use experience_hub.Experiences.Events.Pending.{PendingEvent, event_type}
use experience_hub.Experiences.Events.Valid.{valid, before, after}
use experience_hub.Experiences.Events.Authority.{Authority, valid-Authority}
use experience_hub.Experiences.Writer.Sequence.{exact_lifecycle_sequence}
use experience_hub.Experiences.Writer.Apply.{
  Append, Current, Applied, plain, latest_causal, apply_ordered_events, accepts, access_rules,
  exact_access, payloads_of,
}
use experience_hub.Experiences.Writer.Changes.{causes, single_change, sequence-single_change}
use experience_hub.Experiences.Writer.Effect.{Kept, IsOneMove, accepted_effect}
use experience_hub.Lifecycle.Evaluate.{
  LifecycleEvaluation, latest_anchor, evaluated_recently, evaluate_transition,
}
use experience_hub.Lifecycle.Evaluate.Laws.{scores}
use experience_hub.Scoring.{config_valid, half_life_factor, nonnegative_hours, weighted_score}
use experience_hub.Scoring.Laws.{materialized}
use experience_hub.Lifecycle.Evaluate.Decisions.{
  IsArchivable, demotion_hysteresis, recovery_resets, archive_exact,
}
use experience_hub.Lifecycle.Plan.{LifecycleMutation, plan_mutation}
use experience_hub.Experiences.Writer.Applied.{IsApplied, applied_effect}
use experience_hub.Lifecycle.Plan.Applied.{IsCarriedOut, plan_mutation-IsCarriedOut}
use experience_hub.Lifecycle.Plan.Accepted.{IsAccepted, plan-IsAccepted}
use experience_hub.Tests.Fixed.{fixed}
use experience_hub.Tests.Samples.{
  config-IsInRange, config, day, hot_state, cold_state, state_at, recorded,
}

demotion_hysteresis_example :
    (e : LifecycleEvaluation) × (evaluate_transition fixed hot_state 0 (30 * day) config false
      ≡ ok e)
    × (e.counter_after ≡ 2)
    × (e.transition ≡ some warm)
unfolding state_valid latest_anchor config_valid evaluated_recently scores materialized
    half_life_factor nonnegative_hours weighted_score
demotion_hysteresis_example =
    demotion_hysteresis fixed config hot_state 0 (30 * day) false refl config-IsInRange refl
      (omega arith) (refl, refl) (refl, inl (refl, omega arith))

recovery_resets_example :
    (e : LifecycleEvaluation) × (evaluate_transition fixed
        (state_at warm 1000)
        0
        1000000
        config
        false
      ≡ ok e)
    × (e.counter_after ≡ 0)
    × ((e.transition ≡ none) ⊎ (e.transition ≡ some hot) ⊎ (e.transition ≡ some archived))
unfolding state_valid latest_anchor evaluated_recently scores materialized half_life_factor
    nonnegative_hours weighted_score
recovery_resets_example =
    recovery_resets fixed config (state_at warm 1000) 0 1000000 false config-IsInRange refl
      (omega arith) (refl, refl) (λ below. ground arith)

archive_exact_example :
    (e : LifecycleEvaluation) × (evaluate_transition fixed cold_state 0 (200 * day) config false
      ≡ ok e)
    × ((e.transition ≡ some archived) ↔ IsArchivable fixed config cold_state 0 (200 * day) false)
unfolding state_valid latest_anchor
archive_exact_example =
    archive_exact fixed config cold_state 0 (200 * day) false config-IsInRange refl (omega arith)

plan-IsAccepted_example :
    (plan : Option LifecycleMutation) × (plan_mutation fixed recorded config (200 * day) 55 false
      ≡ ok plan)
    × IsAccepted fixed config recorded (200 * day) plan
unfolding state_valid latest_anchor
plan-IsAccepted_example =
    plan-IsAccepted fixed config recorded (200 * day) 55 false config-IsInRange refl refl
      (omega arith) (omega arith)

-- A cold experience that is accessed, reactivated and warmed.
abbrev accessed_state : State
accessed_state = record cold_state {
  access_count = 2;
  access_strength = 1050;
  strength_updated_at = 5000;
  last_accessed_at = some 5000;
}

abbrev warmed_state : State
warmed_state = record accessed_state {
  temperature = warm;
  last_transition_at = 5000;
  consecutive_below_threshold = 0;
}

abbrev event_of : String → Payload → PendingEvent Payload
event_of name payload = record {
  aggregate_type = "experience";
  aggregate_id = 7;
  event_type = name;
  payload = payload;
  actor_agent_id = some 1;
  occurred_at = 5000;
}

abbrev first_event : PendingEvent Payload
first_event = event_of "experience.accessed" (accessed 7 70 cold_state accessed_state)

abbrev other_events : List (PendingEvent Payload)
other_events =
    event_of "experience.reactivated" (reactivated 7 42 focused 900 accessed_state accessed_state)
    ∷ event_of "experience.temperature_changed"
        (temperature_changed 7 cold_reactivation none accessed_state warmed_state)
    ∷ []

valid-Authority_example : Authority first_event.payload cold_state accessed_state
unfolding before after valid changes_within same access_fields
valid-Authority_example = valid-Authority fixed first_event.payload refl refl

sequence-single_change_example :
    single_change (some 1) 1 (causes (payloads_of (first_event ∷ other_events))) ≡ true
unfolding exact_lifecycle_sequence exact_access access_rules
sequence-single_change_example =
    sequence-single_change cold_state (some 1) 1 (payloads_of (first_event ∷ other_events)) config
      refl refl

accepted_effect_example :
    Kept cold_state warmed_state
    × IsOneMove (some 1) 1 (causes (payloads_of (first_event ∷ other_events))) cold warm
unfolding before after valid accepts changes_within same access_fields state_eq permits
    temperature_change_fields state_valid is_cycle_cause event_type exact_lifecycle_sequence
    access_rules
accepted_effect_example =
    accepted_effect fixed config 7 warmed_state first_event other_events refl
      (refl, (refl, (refl, tt))) refl

-- The stored row of the cold experience, with two versions.
abbrev pub stored_row : Current
stored_row = record {
  identity_created_at = 1000;
  version_created_at = 1000;
  projection_occurred_at = 1000;
  locked = cold_state;
  version_ids = ok (69 ∷ 70 ∷ []);
}

-- An append that goes through.
abbrev pub appending : Append
appending events = ok tt

plan_mutation-IsCarriedOut_example :
    (m : LifecycleMutation) × (plan_mutation fixed recorded config (200 * day) 55 false
      ≡ ok (some m))
    × (applied : Applied) × IsCarriedOut config recorded
        (λ owner. some stored_row)
        appending
        (69 ∷ 70 ∷ [])
        m
        applied
unfolding state_valid latest_anchor evaluated_recently latest_causal
plan_mutation-IsCarriedOut_example =
    plan_mutation-IsCarriedOut fixed config recorded (200 * day) 55 false (λ owner. some stored_row)
      appending stored_row (69 ∷ 70 ∷ []) config-IsInRange refl refl (omega arith) (omega arith)
      (refl, refl) refl refl (omega arith) refl

abbrev warmed_outcome : Applied
warmed_outcome = record {
  appended = first_event ∷ other_events;
  rewritten = (69, plain) ∷ (70, plain) ∷ [];
  result = record {
    experience_id = 7;
    owner_agent_id = 1;
    current_version_id = 70;
    current_content_hash = 99;
    temperature = warm;
  };
}

applied_effect_example :
    IsApplied config 7 warmed_state first_event other_events
      (λ owner. some stored_row)
      appending
      warmed_outcome
      cold_state
    × Kept cold_state warmed_state
    × IsOneMove (some 1) 1 (causes (payloads_of (first_event ∷ other_events))) cold warm
unfolding before after valid accepts apply_ordered_events changes_within same access_fields state_eq
    permits is_cycle_cause temperature_change_fields event_type exact_lifecycle_sequence
    access_rules
applied_effect_example =
    applied_effect config 7 warmed_state first_event other_events (λ owner. some stored_row)
      appending fixed warmed_outcome refl (refl, (refl, (refl, tt))) refl
