-- ===== src/Experiences/Projector/Policy.antt =====
-- _require_lifecycle_evaluation_policy of src/experience_hub/experiences/projector.py
pub mod Agreement
use experience_hub.Prelude.{
  ℕ, ◌+◌, min, Bool, true, false, not, ◌&&◌, ◌||◌, Option, none, some, ltb, leb, ◌==◌, Result,
  ◌>>=◌, ◌>>◌,
}
use experience_hub.Floats.{FloatOps}
use experience_hub.Scoring.{LifecycleConfig}
use experience_hub.Experiences.State.{State, Temperature, hot, warm, cold, archived, temperature_eq}
use experience_hub.Experiences.Events.{
  ThresholdTarget, no_target, promote_hot, demote_warm, demote_cold, archive,
}
use experience_hub.Experiences.Projector.Sources.{checked}

module _ (ops : FloatOps) (config : LifecycleConfig) where
  -- The last evaluation is less than the minimum interval ago.
  unfoldable pub violates_interval : Option ℕ → ℕ → Bool
  violates_interval none occurred_at = false
  violates_interval (some last) occurred_at =
      ltb occurred_at (last + ops.timedelta_seconds config.minimum_cycle_interval_seconds)

  unfoldable pub none_valid : Temperature → Bool → ℕ → Bool
  none_valid hot is_pinned activation = is_pinned || leb config.hot_to_warm_threshold activation
  none_valid warm is_pinned activation =
      not is_pinned
      && ltb activation config.warm_to_hot_threshold
      && leb config.warm_to_cold_threshold activation
  none_valid cold is_pinned activation = true
  none_valid archived is_pinned activation = false

  -- `target_is_valid`
  unfoldable pub target_is_valid : ThresholdTarget → State → State → ℕ → Bool
  unfolding none_valid
  target_is_valid no_target b a occurred_at = none_valid b.temperature b.pinned a.activation_score
  target_is_valid promote_hot b a occurred_at =
      temperature_eq b.temperature warm
      && (b.pinned || leb config.warm_to_hot_threshold a.activation_score)
  target_is_valid demote_warm b a occurred_at =
      temperature_eq b.temperature hot
      && not b.pinned
      && ltb a.activation_score config.hot_to_warm_threshold
  target_is_valid demote_cold b a occurred_at =
      temperature_eq b.temperature warm
      && not b.pinned
      && ltb a.activation_score config.warm_to_cold_threshold
  target_is_valid archive b a occurred_at =
      temperature_eq b.temperature cold
      && leb (b.last_transition_at + ops.timedelta_days config.archive_after_days) occurred_at
      && ltb b.importance config.archive_importance_threshold
      && ltb b.confidence config.archive_confidence_threshold
      && ltb a.access_strength config.archive_strength_threshold
      && not b.pinned

  -- `expected_counter`
  unfoldable pub expected_counter : ThresholdTarget → ℕ → ℕ
  expected_counter demote_warm counter = min config.demotion_cycles (counter + 1)
  expected_counter demote_cold counter = min config.demotion_cycles (counter + 1)
  expected_counter _ counter = 0

  unfoldable pub require_lifecycle_evaluation_policy :
      ThresholdTarget → State → State → ℕ → Result (Unit {0})
  unfolding violates_interval target_is_valid expected_counter
  require_lifecycle_evaluation_policy goal b a occurred_at = do
    checked (not (violates_interval b.last_lifecycle_evaluated_at occurred_at))
    checked (target_is_valid goal b a occurred_at)
    checked (a.consecutive_below_threshold == expected_counter goal b.consecutive_below_threshold)
