-- ===== src/Scoring.antt =====
-- src/experience_hub/lifecycle/scoring.py
pub mod Laws
use experience_hub.Prelude.{
  ℕ, ◌+◌, ◌-◌, min, max, Bool, ◌&&◌, Option, none, some, ltb, leb, if◌then◌else◌,
}
use experience_hub.Floats.{FloatOps}

-- Times are microseconds since datetime.min in UTC; floats are as in Floats.
pub record LifecycleConfig : Type 0 where
  pub recency_half_life_hours : ℕ
  pub frequency_half_life_hours : ℕ
  pub warm_to_hot_threshold : ℕ
  pub hot_to_warm_threshold : ℕ
  pub warm_to_cold_threshold : ℕ
  pub demotion_cycles : ℕ
  pub archive_after_days : ℕ
  pub archive_importance_threshold : ℕ
  pub archive_confidence_threshold : ℕ
  pub archive_strength_threshold : ℕ
  pub minimum_cycle_interval_seconds : ℕ
  pub worker_interval_seconds : ℕ
  pub lease_duration_seconds : ℕ

pub record ActivationInputs : Type 0 where
  pub importance : ℕ
  pub confidence : ℕ
  pub access_count : ℕ
  pub access_strength : ℕ
  pub strength_updated_at : ℕ
  pub last_accessed_at : Option ℕ
  pub created_at : ℕ

pub record ActivationResult : Type 0 where
  pub score : ℕ
  pub decayed_strength : ℕ
  pub recency : ℕ
  pub frequency : ℕ

pub record AccessUpdate : Type 0 where
  pub access_count : ℕ
  pub access_strength : ℕ
  pub strength_updated_at : ℕ
  pub last_accessed_at : ℕ

-- `value is not None` appended to a list of causal times, whose maximum is wanted.
abbrev pub max_option : ℕ → Option ℕ → ℕ
max_option a none = a
max_option a (some b) = max a b

abbrev pub or_else : Option ℕ → ℕ → ℕ
or_else none b = b
or_else (some a) b = a

module _ (ops : FloatOps) where
  open ops use {ratio, add, sub, mul, div, exp_neg, log, log1p}

  abbrev pub one : ℕ
  one = ratio 1 1

  abbrev pub max_access_strength : ℕ
  max_access_strength = ratio 20 1

  -- `LifecycleConfig.__post_init__`: `false` is its ValueError.
  unfoldable pub config_valid : LifecycleConfig → Bool
  config_valid c =
      ltb 0 c.recency_half_life_hours
      && ltb 0 c.frequency_half_life_hours
      && ltb 0 c.archive_after_days
      && ltb 0 c.minimum_cycle_interval_seconds
      && ltb 0 c.worker_interval_seconds
      && ltb 0 c.lease_duration_seconds
      && leb c.warm_to_hot_threshold one
      && leb c.hot_to_warm_threshold one
      && leb c.warm_to_cold_threshold one
      && leb c.archive_importance_threshold one
      && leb c.archive_confidence_threshold one
      && ltb 0 c.archive_strength_threshold
      && leb c.archive_strength_threshold max_access_strength
      && leb 1 c.demotion_cycles
      && ltb c.warm_to_cold_threshold c.hot_to_warm_threshold
      && ltb c.hot_to_warm_threshold c.warm_to_hot_threshold

  -- `ActivationInputs.__post_init__`
  unfoldable pub inputs_valid : ActivationInputs → Bool
  inputs_valid s =
      leb s.importance one && leb s.confidence one && leb s.access_strength max_access_strength

  unfoldable pub nonnegative_hours : ℕ → ℕ → ℕ
  nonnegative_hours start end =
      if ltb end start then 0 else div (ratio (end - start) 1000000) (ratio 3600 1)

  -- math.exp(-math.log(2.0) * age / half_life)
  unfoldable pub half_life_factor : ℕ → ℕ → ℕ
  half_life_factor age half_life = exp_neg (div (mul (log (ratio 2 1)) age) half_life)

  -- `none` is the ValueError for a strength above 20.
  unfoldable pub decay_strength : ℕ → ℕ → ℕ → LifecycleConfig → Option ℕ
  decay_strength strength updated_at at config =
      if leb strength max_access_strength
      then some (
          mul strength
            (half_life_factor (nonnegative_hours updated_at at) config.frequency_half_life_hours))
      else none

  unfoldable pub causal_anchor : ActivationInputs → ℕ
  causal_anchor state =
      max_option (max state.created_at state.strength_updated_at) state.last_accessed_at

  access_update : ActivationInputs → ℕ → Option ℕ → Option AccessUpdate
  access_update state at none = none
  access_update state at (some strength) = some (record {
    access_count = state.access_count + 1;
    access_strength = min max_access_strength (add strength one);
    strength_updated_at = at;
    last_accessed_at = at;
  })

  -- `none` is the ValueError for a time that would regress.
  unfoldable pub record_access : ActivationInputs → ℕ → LifecycleConfig → Option AccessUpdate
  unfolding access_update causal_anchor
  record_access state at config =
      if ltb at (causal_anchor state)
      then none
      else access_update state at
          (decay_strength state.access_strength state.strength_updated_at at config)

  unfoldable pub weighted_score : ActivationInputs → ℕ → ℕ → ℕ
  weighted_score state frequency recency =
      add
        (add (add (mul (ratio 30 100) state.importance) (mul (ratio 15 100) state.confidence))
          (mul (ratio 25 100) frequency))
        (mul (ratio 30 100) recency)

  activation_result : ActivationInputs → ℕ → Option ℕ → Option ActivationResult
  activation_result state recency none = none
  activation_result state recency (some strength) =
      let frequency : ℕ = min one (div (log1p strength) (log1p max_access_strength)) in
      let score : ℕ = weighted_score state frequency recency in
      some (record {
        score = min one (max 0 score);
        decayed_strength = strength;
        recency = recency;
        frequency = frequency;
      })

  unfoldable pub activation_at : ActivationInputs → ℕ → LifecycleConfig → Option ActivationResult
  unfolding activation_result
  activation_at state at config =
      let anchor : ℕ = or_else state.last_accessed_at state.created_at in
      let recency : ℕ =
        half_life_factor (nonnegative_hours anchor at) config.recency_half_life_hours in
      activation_result state recency
        (decay_strength state.access_strength state.strength_updated_at at config)
