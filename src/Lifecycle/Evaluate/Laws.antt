-- ===== src/Lifecycle/Evaluate/Laws.antt =====
-- An evaluation of a valid state succeeds, and what it decides.
use experience_hub.Prelude.{ℕ, inl, inr, ◌≤◌, ◌≡◌, ◌⊎◌, Bool, true, false, ok, arith}
use experience_hub.Floats.{FloatOps, max_timedelta}
use experience_hub.Scoring.{LifecycleConfig, ActivationResult, inputs_valid}
use experience_hub.Scoring.Laws.{materialized, activation_at-eq, materialized_bounds}
use experience_hub.Experiences.State.{State, archived, temperature_eq, state_valid}
use experience_hub.Experiences.Events.{ThresholdTarget}
use experience_hub.Lifecycle.Evaluate.{
  LifecycleEvaluation, evaluation_valid, no_op, activation_inputs, latest_anchor,
  evaluated_recently, target_of, counter_after_target, transition_after, evaluate_transition,
  interval_fits, cold_age_fits,
}

-- The configured minimum interval and archive age are timedeltas.
abbrev pub IsInRange : FloatOps → LifecycleConfig → Type 0
IsInRange ops config =
    (ops.timedelta_seconds config.minimum_cycle_interval_seconds ≤ max_timedelta)
    × (ops.timedelta_days config.archive_after_days ≤ max_timedelta)

-- Neither archived nor evaluated within the minimum interval.
abbrev pub IsEligible : FloatOps → LifecycleConfig → State → ℕ → Type 0
IsEligible ops config state at =
    (temperature_eq state.temperature archived ≡ false)
    × (evaluated_recently ops state.last_lifecycle_evaluated_at at config ≡ false)

module _ (ops : FloatOps) (config : LifecycleConfig) (state : State) (created_at at : ℕ)
    (deps : Bool) where
  -- The scores of an eligible evaluation.
  unfoldable pub scores : ActivationResult
  scores = materialized ops (activation_inputs state created_at) config at

  unfoldable pub goal : ThresholdTarget
  goal = target_of ops state scores at config deps

  -- What an eligible evaluation decides.
  unfoldable pub decided : LifecycleEvaluation
  unfolding scores goal
  decided = record {
    eligible = true;
    materialized_strength = scores.decayed_strength;
    activation = scores.score;
    threshold_target = goal;
    counter_before = state.consecutive_below_threshold;
    counter_after = counter_after_target ops goal state.consecutive_below_threshold config;
    transition =
        transition_after ops goal
          (counter_after_target ops goal state.consecutive_below_threshold config) config;
  }

  pub inputs_valid_of_state :
      state_valid ops state ≡ true → inputs_valid ops (activation_inputs state created_at) ≡ true
  unfolding state_valid inputs_valid
  inputs_valid_of_state v = ground arith

  pub decided-valid : state_valid ops state ≡ true → evaluation_valid ops decided ≡ true
  unfolding decided evaluation_valid state_valid counter_after_target transition_after
  decided-valid v =
      ground (arith, materialized_bounds ops (activation_inputs state created_at) config at)

  no_op-valid : state_valid ops state ≡ true → evaluation_valid ops (no_op state) ≡ true
  unfolding evaluation_valid state_valid
  no_op-valid v = ground arith

  -- The timedeltas that an eligible evaluation makes fit.
  abbrev pub Fits : Type 0
  Fits =
      (interval_fits ops state.last_lifecycle_evaluated_at config ≡ true)
      × (cold_age_fits ops state.temperature config ≡ true)

  pub fits_in_range : IsInRange ops config → Fits
  unfolding interval_fits cold_age_fits
  fits_in_range r = (ground arith, ground arith)

  pub evaluate-fits :
      Fits
      → state_valid ops state ≡ true
      → latest_anchor state created_at ≤ at
      → IsEligible ops config state at
      → evaluate_transition ops state created_at at config deps ≡ ok decided
  unfolding evaluate_transition decided scores goal
  evaluate-fits fits v le el = ground (
    arith,
    decided-valid v,
    inputs_valid_of_state v,
    activation_at-eq ops (activation_inputs state created_at) config at,
  )

  pub evaluate_eligible :
      IsInRange ops config
      → state_valid ops state ≡ true
      → latest_anchor state created_at ≤ at
      → IsEligible ops config state at
      → evaluate_transition ops state created_at at config deps ≡ ok decided
  evaluate_eligible ranged = evaluate-fits (fits_in_range ranged)

  pub evaluate_archived :
      state_valid ops state ≡ true
      → latest_anchor state created_at ≤ at
      → temperature_eq state.temperature archived ≡ true
      → evaluate_transition ops state created_at at config deps ≡ ok (no_op state)
  unfolding evaluate_transition
  evaluate_archived v le a = ground (arith, no_op-valid v)

  pub evaluate_recent :
      interval_fits ops state.last_lifecycle_evaluated_at config ≡ true
      → state_valid ops state ≡ true
      → latest_anchor state created_at ≤ at
      → evaluated_recently ops state.last_lifecycle_evaluated_at at config ≡ true
      → evaluate_transition ops state created_at at config deps ≡ ok (no_op state)
  unfolding evaluate_transition
  evaluate_recent fits v le r = ground (arith, no_op-valid v)

  pub evaluate_ineligible :
      IsInRange ops config
      → state_valid ops state ≡ true
      → latest_anchor state created_at ≤ at
      → (temperature_eq state.temperature archived ≡ true)
        ⊎ (evaluated_recently ops state.last_lifecycle_evaluated_at at config ≡ true)
      → evaluate_transition ops state created_at at config deps ≡ ok (no_op state)
  evaluate_ineligible ranged v le (inl a) = evaluate_archived v le a
  evaluate_ineligible ranged v le (inr r) = evaluate_recent (fits_in_range ranged).0 v le r
