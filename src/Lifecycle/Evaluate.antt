-- ===== src/Lifecycle/Evaluate.antt =====
-- LifecycleEvaluation and evaluate_transition of src/experience_hub/lifecycle/service.py
pub mod Laws
pub mod Decisions
use experience_hub.Prelude.{
  ℕ, ◌+◌, ◌-◌, min, max, Bool, true, false, not, ◌&&◌, ◌||◌, Option, none, some, ltb, leb, ◌==◌,
  is_some, if◌then◌else◌, Result, ok, err, require, value_error, overflow_error, ◌>>=◌, ◌>>◌,
}
use experience_hub.Floats.{FloatOps, max_timedelta}
use experience_hub.Scoring.{
  LifecycleConfig, ActivationInputs, ActivationResult, max_option, one, max_access_strength,
  inputs_valid, activation_at,
}
use experience_hub.Experiences.State.{State, Temperature, hot, warm, cold, archived, temperature_eq}
use experience_hub.Experiences.Events.{
  ThresholdTarget, no_target, promote_hot, demote_warm, demote_cold, archive,
}

pub record LifecycleEvaluation : Type 0 where
  pub eligible : Bool
  pub materialized_strength : ℕ
  pub activation : ℕ
  pub threshold_target : ThresholdTarget
  pub counter_before : ℕ
  pub counter_after : ℕ
  pub transition : Option Temperature

-- `target_temperatures.get(target) is transition`
unfoldable pub target_matches : ThresholdTarget → Temperature → Bool
target_matches promote_hot t = temperature_eq hot t
target_matches demote_warm t = temperature_eq warm t
target_matches demote_cold t = temperature_eq cold t
target_matches archive t = temperature_eq archived t
target_matches no_target t = false

abbrev pub is_no_target : ThresholdTarget → Bool
is_no_target no_target = true
is_no_target _ = false

abbrev pub transition_matches : ThresholdTarget → Option Temperature → Bool
transition_matches goal none = true
transition_matches goal (some t) = target_matches goal t

-- LifecycleEvaluation.__post_init__
unfoldable pub evaluation_valid : FloatOps → LifecycleEvaluation → Bool
unfolding target_matches
evaluation_valid ops e =
    leb e.materialized_strength (max_access_strength ops)
    && leb e.activation (one ops)
    && transition_matches e.threshold_target e.transition
    && (e.eligible
        || is_no_target e.threshold_target
          && not (is_some e.transition)
          && e.counter_after == e.counter_before)

abbrev pub no_op : State → LifecycleEvaluation
no_op state = record {
  eligible = false;
  materialized_strength = state.access_strength;
  activation = state.activation_score;
  threshold_target = no_target;
  counter_before = state.consecutive_below_threshold;
  counter_after = state.consecutive_below_threshold;
  transition = none;
}

abbrev pub activation_inputs : State → ℕ → ActivationInputs
activation_inputs state created_at = record {
  importance = state.importance;
  confidence = state.confidence;
  access_count = state.access_count;
  access_strength = state.access_strength;
  strength_updated_at = state.strength_updated_at;
  last_accessed_at = state.last_accessed_at;
  created_at = created_at;
}

-- `max(anchors)`
unfoldable pub latest_anchor : State → ℕ → ℕ
latest_anchor state created_at =
    max_option
      (max_option (max (max created_at state.strength_updated_at) state.last_transition_at)
        state.last_accessed_at)
      state.last_lifecycle_evaluated_at

module _ (ops : FloatOps) where
  -- The last evaluation is less than the minimum interval ago.
  unfoldable pub evaluated_recently : Option ℕ → ℕ → LifecycleConfig → Bool
  evaluated_recently none at config = false
  evaluated_recently (some last) at config =
      ltb (at - last) (ops.timedelta_seconds config.minimum_cycle_interval_seconds)

  unfoldable pub archive_due : State → ActivationResult → ℕ → LifecycleConfig → Bool → Bool
  archive_due state m at config has_active_dependents =
      leb (ops.timedelta_days config.archive_after_days) (at - state.last_transition_at)
      && ltb state.importance config.archive_importance_threshold
      && ltb state.confidence config.archive_confidence_threshold
      && ltb m.decayed_strength config.archive_strength_threshold
      && not state.pinned
      && not has_active_dependents

  unfoldable pub target_from :
      Temperature → State → ActivationResult → ℕ → LifecycleConfig → Bool → ThresholdTarget
  unfolding archive_due
  target_from hot state m at config deps =
      if not state.pinned && ltb m.score config.hot_to_warm_threshold
      then demote_warm
      else no_target
  target_from warm state m at config deps =
      if state.pinned || leb config.warm_to_hot_threshold m.score
      then promote_hot
      else if ltb m.score config.warm_to_cold_threshold
      then demote_cold
      else no_target
  target_from cold state m at config deps =
      if archive_due state m at config deps then archive else no_target
  target_from archived state m at config deps = no_target

  unfoldable pub target_of : State → ActivationResult → ℕ → LifecycleConfig → Bool → ThresholdTarget
  unfolding target_from
  target_of state m at config deps = target_from state.temperature state m at config deps

  -- A demotion counts up to `demotion_cycles`; every other target resets the counter.
  unfoldable pub counter_after_target : ThresholdTarget → ℕ → LifecycleConfig → ℕ
  counter_after_target demote_warm counter config = min config.demotion_cycles (counter + 1)
  counter_after_target demote_cold counter config = min config.demotion_cycles (counter + 1)
  counter_after_target _ counter config = 0

  unfoldable pub transition_after : ThresholdTarget → ℕ → LifecycleConfig → Option Temperature
  transition_after promote_hot counter config = some hot
  transition_after archive counter config = some archived
  transition_after demote_warm counter config =
      if leb config.demotion_cycles counter then some warm else none
  transition_after demote_cold counter config =
      if leb config.demotion_cycles counter then some cold else none
  transition_after no_target counter config = none

  abbrev construct : LifecycleEvaluation → Result LifecycleEvaluation
  construct e = do require (evaluation_valid ops e) value_error; ok e

  -- The property minimum_cycle_interval, which is read if there is a last evaluation, and the
  -- timedelta of the cold branch raise an OverflowError for a value that is too large.
  unfoldable pub interval_fits : Option ℕ → LifecycleConfig → Bool
  interval_fits last config =
      not (is_some last)
      || leb (ops.timedelta_seconds config.minimum_cycle_interval_seconds) max_timedelta

  unfoldable pub cold_age_fits : Temperature → LifecycleConfig → Bool
  cold_age_fits t config =
      not (temperature_eq t cold)
      || leb (ops.timedelta_days config.archive_after_days) max_timedelta

  evaluation_of :
      State → ℕ → LifecycleConfig → Bool → Option ActivationResult → Result LifecycleEvaluation
  unfolding target_of counter_after_target transition_after evaluation_valid cold_age_fits
  evaluation_of state at config deps none = err value_error
  evaluation_of state at config deps (some m) = do
    require (cold_age_fits state.temperature config) overflow_error
    let goal : ThresholdTarget = target_of state m at config deps
    let counter : ℕ = counter_after_target goal state.consecutive_below_threshold config
    construct (record {
      eligible = true;
      materialized_strength = m.decayed_strength;
      activation = m.score;
      threshold_target = goal;
      counter_before = state.consecutive_below_threshold;
      counter_after = counter;
      transition = transition_after goal counter config;
    })

  -- The ValueError is for a time that would regress, or for values out of range.
  unfoldable pub evaluate_transition :
      State → ℕ → ℕ → LifecycleConfig → Bool → Result LifecycleEvaluation
  unfolding evaluation_of evaluated_recently interval_fits
  evaluate_transition state created_at at config deps =
      let inputs : ActivationInputs = activation_inputs state created_at in
      let rest : Result LifecycleEvaluation = (do
        require (interval_fits state.last_lifecycle_evaluated_at config) overflow_error
        if evaluated_recently state.last_lifecycle_evaluated_at at config
            then construct (no_op state)
            else evaluation_of state at config deps
                (if inputs_valid ops inputs then activation_at ops inputs at config else none)) in
      if ltb at (latest_anchor state created_at)
      then err value_error
      else if temperature_eq state.temperature archived
      then construct (no_op state)
      else rest
