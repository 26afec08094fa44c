-- ===== src/Lifecycle/Plan.antt =====
-- LifecycleService._plan_mutation of src/experience_hub/lifecycle/service.py
pub mod Payloads
pub mod Build
pub mod Checks
pub mod Accepted
pub mod Applied
pub mod Shape
use experience_hub.Prelude.{
  ℕ, ◌+◌, Bool, true, false, Option, none, some, List, [], ◌∷◌, ◌++◌, String, ltb, is_some,
  if◌then◌else◌, Result, ok, err, Error, value_error, replayable, ◌>>=◌,
}
use experience_hub.Floats.{FloatOps}
use experience_hub.Scoring.{LifecycleConfig}
use experience_hub.Experiences.State.{State, Temperature, hot, warm, cold, archived, temperature_eq}
use experience_hub.Experiences.Events.{
  Payload, temperature_changed, lifecycle_evaluated, archived_event, Cause, policy_archive,
  lifecycle_activation, lifecycle_demotion, policy_due,
}
use experience_hub.Experiences.Events.Pending.{PendingEvent, event_type}
use experience_hub.Experiences.Events.Valid.{valid}
use experience_hub.Lifecycle.Evaluate.{LifecycleEvaluation, evaluate_transition}

-- The inputs of the plan. Kind, origin and the projection event of the record play no part in it.
pub record LifecycleRecord : Type 0 where
  pub experience_id : ℕ
  pub owner_agent_id : ℕ
  pub created_at : ℕ
  pub state : State
  pub latest_causal_at : ℕ

pub record LifecycleMutation : Type 0 where
  pub lifecycle_record : LifecycleRecord
  pub resulting_state : State
  pub events : List (PendingEvent Payload)
  pub transitioned : Bool
  pub archives : Bool

abbrev pub clock_regression : Error
clock_regression =
    replayable "clock_regression" "Lifecycle time precedes existing experience state" [] 409

abbrev is_archived : Option Temperature → Bool
is_archived none = false
is_archived (some t) = temperature_eq t archived

-- record.state.model_copy(update={...}) after the evaluation
unfoldable pub evaluated_state : State → ℕ → LifecycleEvaluation → State
evaluated_state state at e = record state {
  access_strength = e.materialized_strength;
  strength_updated_at = at;
  activation_score = e.activation;
  last_lifecycle_evaluated_at = some at;
  consecutive_below_threshold = e.counter_after;
}

unfoldable pub transitioned_state : State → ℕ → Temperature → State
transitioned_state state at t = record state {
  temperature = t;
  last_transition_at = at;
  consecutive_below_threshold = 0;
}

unfoldable pub transition_cause : Temperature → Cause
transition_cause archived = policy_archive
transition_cause hot = lifecycle_activation
transition_cause _ = lifecycle_demotion

module _ (ops : FloatOps) where
  -- _experience_event; building the payload raises a ValueError if it is not valid.
  unfoldable pub experience_event : LifecycleRecord → ℕ → Payload → Result (PendingEvent Payload)
  experience_event r occurred_at payload =
      if valid ops payload
      then ok (record {
        aggregate_type = "experience";
        aggregate_id = r.experience_id;
        event_type = event_type payload;
        payload = payload;
        actor_agent_id = none;
        occurred_at = occurred_at;
      })
      else err value_error

  -- The archived event, if the evaluation archives.
  unfoldable pub archive_events :
      LifecycleRecord → ℕ → ℕ → State → Bool → Result (List (PendingEvent Payload))
  archive_events r at cycle_id evaluated true = do
    event ←
        experience_event r at
          (archived_event r.experience_id cycle_id policy_due evaluated evaluated)
    ok (event ∷ [])
  archive_events r at cycle_id evaluated false = ok []

  -- The temperature-changed event, if the evaluation has a transition, and the resulting state.
  unfoldable pub transition_events :
      LifecycleRecord
      → ℕ
      → ℕ
      → State
      → Option Temperature
      → Result (List (PendingEvent Payload) × State)
  transition_events r at cycle_id evaluated none = ok ([], evaluated)
  transition_events r at cycle_id evaluated (some t) = do
    let resulting = transitioned_state evaluated at t
    event ← experience_event r at (
        temperature_changed r.experience_id (transition_cause t) (some cycle_id) evaluated
          resulting)
    ok (event ∷ [], resulting)

  unfoldable pub mutation_of :
      LifecycleRecord → ℕ → ℕ → LifecycleEvaluation → Result (Option LifecycleMutation)
  mutation_of r at cycle_id e =
      let evaluated : State = evaluated_state r.state at e in
      let rest : Result (Option LifecycleMutation) = (do
        first ←
            experience_event r at
              (lifecycle_evaluated r.experience_id cycle_id at e.threshold_target r.state evaluated)
        archive ← archive_events r at cycle_id evaluated (is_archived e.transition)
        (change, resulting) ← transition_events r at cycle_id evaluated e.transition
        ok (
            some (record {
              lifecycle_record = r;
              resulting_state = resulting;
              events = first ∷ archive ++ change;
              transitioned = is_some e.transition;
              archives = is_archived e.transition;
            }))) in
      if e.eligible then rest else ok none

  -- Only the ValueError of the evaluation is a clock regression.
  planned : LifecycleRecord → ℕ → ℕ → Result LifecycleEvaluation → Result (Option LifecycleMutation)
  planned r at cycle_id (err value_error) = err clock_regression
  planned r at cycle_id (err e) = err e
  planned r at cycle_id (ok e) = mutation_of r at cycle_id e

  unfoldable pub plan_mutation :
      LifecycleRecord → LifecycleConfig → ℕ → ℕ → Bool → Result (Option LifecycleMutation)
  unfolding planned
  plan_mutation r config at cycle_id has_active_dependents =
      if ltb at r.latest_causal_at
      then err clock_regression
      else planned r at cycle_id
          (evaluate_transition ops r.state r.created_at at config has_active_dependents)
