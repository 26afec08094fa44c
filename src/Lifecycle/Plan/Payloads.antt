-- ===== src/Lifecycle/Plan/Payloads.antt =====
-- The payloads that the plan builds are valid: building them raises nothing.
use experience_hub.Prelude.{ℕ, ◌≡◌, true, false, some, arith, opt_eq_refl, bool_eq_refl}
use experience_hub.Floats.{FloatOps}
use experience_hub.Experiences.State.{State, Temperature, cold, Field, same}
use experience_hub.Experiences.State.Fields.{
  temperature_eq_refl, state_eq_refl, changes_within_of_same,
}
use experience_hub.Experiences.Events.{
  ThresholdTarget, lifecycle_evaluated, archived_event, temperature_changed, policy_due, reason_eq,
  permits, is_cycle_cause, lifecycle_evaluation_fields, temperature_change_fields, no_fields,
}
use experience_hub.Experiences.Events.Valid.{valid}
use experience_hub.Lifecycle.Evaluate.{LifecycleEvaluation}
use experience_hub.Lifecycle.Plan.{evaluated_state, transitioned_state, transition_cause}

pub evaluated_same :
    (s : State) (at : ℕ) (e : LifecycleEvaluation) (f : Field)
    → lifecycle_evaluation_fields f ≡ false
    → same f s (evaluated_state s at e) ≡ true
unfolding same evaluated_state lifecycle_evaluation_fields
evaluated_same s at e f n = ground (
  arith,
  opt_eq_refl s.last_accessed_at,
  bool_eq_refl s.pinned,
  temperature_eq_refl s.temperature,
)

transitioned_same :
    (s : State) (at : ℕ) (t : Temperature) (f : Field)
    → temperature_change_fields f ≡ false
    → same f s (transitioned_state s at t) ≡ true
unfolding same transitioned_state temperature_change_fields
transitioned_same s at t f n = ground (
  arith,
  opt_eq_refl s.last_accessed_at,
  opt_eq_refl s.last_lifecycle_evaluated_at,
  bool_eq_refl s.pinned,
)

unchanged_same : (s : State) (f : Field) → no_fields f ≡ false → same f s s ≡ true
unfolding same no_fields
unchanged_same s f n = ground (
  arith,
  opt_eq_refl s.last_accessed_at,
  opt_eq_refl s.last_lifecycle_evaluated_at,
  bool_eq_refl s.pinned,
  temperature_eq_refl s.temperature,
)

module _ (ops : FloatOps) (s : State) (id cycle_id at : ℕ) (anchor : s.experience_id ≡ id) where
  pub evaluated-valid :
      (goal : ThresholdTarget) (e : LifecycleEvaluation)
      → valid ops (lifecycle_evaluated id cycle_id at goal s (evaluated_state s at e)) ≡ true
  unfolding valid evaluated_state
  evaluated-valid goal e = ground (
    arith,
    changes_within_of_same lifecycle_evaluation_fields s (evaluated_state s at e)
        (evaluated_same s at e),
    temperature_eq_refl s.temperature,
  )

  pub archived-valid :
      s.temperature ≡ cold → valid ops (archived_event id cycle_id policy_due s s) ≡ true
  unfolding valid policy_due reason_eq
  archived-valid c =
      ground (arith, changes_within_of_same no_fields s s (unchanged_same s), state_eq_refl s)

  pub transitioned-valid :
      (t : Temperature)
      → permits (transition_cause t) s.temperature t ≡ true
      → valid ops (
          temperature_changed id (transition_cause t) (some cycle_id) s (transitioned_state s at t))
        ≡ true
  unfolding valid transition_cause is_cycle_cause transitioned_state
  transitioned-valid t p = ground (
    arith,
    changes_within_of_same temperature_change_fields s (transitioned_state s at t)
        (transitioned_same s at t),
  )
