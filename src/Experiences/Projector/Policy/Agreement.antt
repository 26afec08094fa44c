-- ===== src/Experiences/Projector/Policy/Agreement.antt =====
-- The projector accepts what the lifecycle decides.
use experience_hub.Prelude.{ℕ, ◌≤◌, ◌≡◌, Bool, true, false, arith, ok}
use experience_hub.Floats.{FloatOps}
use experience_hub.Scoring.Laws.{activation_at-eq}
use experience_hub.Scoring.{LifecycleConfig, ActivationResult}
use experience_hub.Experiences.State.{State, archived, temperature_eq, state_valid}
use experience_hub.Experiences.Events.{ThresholdTarget}
use experience_hub.Lifecycle.Evaluate.{
  activation_inputs, latest_anchor, evaluated_recently, target_of, target_from, archive_due,
  counter_after_target,
}
use experience_hub.Lifecycle.Evaluate.Laws.{scores, decided, inputs_valid_of_state}
use experience_hub.Lifecycle.Plan.{evaluated_state}
use experience_hub.Experiences.Events.Valid.{is_close}
use experience_hub.Experiences.Projector.Sources.{Identity}
use experience_hub.Experiences.Projector.Context.{
  require_materialization, materialized_at, activation_inputs_of,
}
use experience_hub.Experiences.Projector.Policy.{
  violates_interval, target_is_valid, expected_counter, none_valid,
}

module _ (ops : FloatOps) (config : LifecycleConfig) (s : State) (created_at at : ℕ)
    (deps : Bool) where
  pub agreed_interval :
      latest_anchor s created_at ≤ at
      → evaluated_recently ops s.last_lifecycle_evaluated_at at config ≡ false
      → violates_interval ops config s.last_lifecycle_evaluated_at at ≡ false
  unfolding latest_anchor evaluated_recently violates_interval
  agreed_interval le n = ground arith

  pub agreed_target :
      (m : ActivationResult) (a : State)
      → latest_anchor s created_at ≤ at
      → temperature_eq s.temperature archived ≡ false
      → a.activation_score ≡ m.score
      → a.access_strength ≡ m.decayed_strength
      → target_is_valid ops config (target_of ops s m at config deps) s a at ≡ true
  unfolding latest_anchor target_of target_from archive_due target_is_valid none_valid
  agreed_target m a le n e f = ground arith

  pub agreed_counter :
      (t : ThresholdTarget) (n : ℕ)
      → counter_after_target ops t n config ≡ expected_counter ops config t n
  unfolding counter_after_target expected_counter
  agreed_counter t n = ground arith

  is_close_refl : (x : ℕ) → is_close ops x x ≡ true
  unfolding is_close
  is_close_refl x = ground (arith, ops.sub_self x)

  pub agreed_materialization :
      (identity : Identity)
      → identity.created_at ≡ created_at
      → state_valid ops s ≡ true
      → require_materialization ops config identity s
          (evaluated_state s at (decided ops config s created_at at deps))
          at
          s.confidence
        ≡ ok tt
  unfolding require_materialization materialized_at activation_inputs_of evaluated_state decided
      scores
  agreed_materialization identity c v = rw c (
      ground (
        arith,
        activation_at-eq ops (activation_inputs s created_at) config at,
        inputs_valid_of_state ops config s created_at at deps v,
        is_close_refl (scores ops config s created_at at deps).decayed_strength,
        is_close_refl (scores ops config s created_at at deps).score,
      ))
