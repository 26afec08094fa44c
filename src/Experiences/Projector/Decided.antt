-- ===== src/Experiences/Projector/Decided.antt =====
-- The projector accepts the evaluated events of the lifecycle.
use experience_hub.Prelude.{
  ℕ, ◌≤◌, ◌≡◌, ◌≢◌, refl, sym, ◌∙◌, inl, inr, Bool, true, arith, Bool-cases, ok, ok-injective,
  false,
}
use experience_hub.Floats.{FloatOps}
use experience_hub.Scoring.{LifecycleConfig}
use experience_hub.Experiences.State.{State, archived, temperature_eq, state_valid}
use experience_hub.Experiences.State.Fields.{temperature_eq_refl, changes_within_of_same}
use experience_hub.Experiences.Events.{Payload, lifecycle_evaluation_fields}
use experience_hub.Lifecycle.Evaluate.{
  LifecycleEvaluation, no_op, latest_anchor, evaluated_recently, evaluate_transition, interval_fits,
  cold_age_fits,
}
use experience_hub.Lifecycle.Evaluate.Laws.{
  IsEligible, scores, goal, decided, evaluate-fits, evaluate_archived, evaluate_recent,
}
use experience_hub.Lifecycle.Plan.{evaluated_state}
use experience_hub.Lifecycle.Plan.Payloads.{evaluated_same}
use experience_hub.Storage.EventStore.{StoredEvent}
use experience_hub.Experiences.Projector.Context.{StateContext, require_allowed_changes}
use experience_hub.Experiences.Projector.Policy.{require_lifecycle_evaluation_policy}
use experience_hub.Experiences.Projector.Policy.Agreement.{
  agreed_interval, agreed_target, agreed_counter, agreed_materialization,
}
use experience_hub.Experiences.Projector.Checks.{lifecycle_evaluated_checks}

module _ (ops : FloatOps) (config : LifecycleConfig) (s : State) (created_at at : ℕ)
    (deps : Bool) where
  agreed_policy :
      latest_anchor s created_at ≤ at
      → IsEligible ops config s at
      → require_lifecycle_evaluation_policy ops config
          (goal ops config s created_at at deps)
          s
          (evaluated_state s at (decided ops config s created_at at deps))
          at
        ≡ ok tt
  unfolding require_lifecycle_evaluation_policy evaluated_state decided goal
  agreed_policy le (n, r) = ground (
    arith,
    agreed_interval ops config s created_at at deps le r,
    agreed_target ops config s created_at at deps (scores ops config s created_at at deps)
        (evaluated_state s at (decided ops config s created_at at deps)) le n refl refl,
    agreed_counter ops config s created_at at deps (goal ops config s created_at at deps)
        s.consecutive_below_threshold,
  )

  agreed_changes :
      (e : LifecycleEvaluation)
      → require_allowed_changes lifecycle_evaluation_fields s (evaluated_state s at e) ≡ ok tt
  unfolding require_allowed_changes evaluated_state
  agreed_changes e = ground (
    arith,
    changes_within_of_same lifecycle_evaluation_fields s (evaluated_state s at e)
        (evaluated_same s at e),
    temperature_eq_refl s.temperature,
  )

  in_time :
      (e : LifecycleEvaluation)
      → evaluate_transition ops s created_at at config deps ≡ ok e
      → latest_anchor s created_at ≤ at
  unfolding evaluate_transition
  in_time e h = ground arith

  interval_of :
      (e : LifecycleEvaluation)
      → evaluate_transition ops s created_at at config deps ≡ ok e
      → temperature_eq s.temperature archived ≡ false
      → interval_fits ops s.last_lifecycle_evaluated_at config ≡ true
  unfolding evaluate_transition
  interval_of e h n = ground arith

  age_of :
      (e : LifecycleEvaluation)
      → evaluate_transition ops s created_at at config deps ≡ ok e
      → temperature_eq s.temperature archived ≡ false
      → evaluated_recently ops s.last_lifecycle_evaluated_at at config ≡ false
      → cold_age_fits ops s.temperature config ≡ true
  unfolding evaluate_transition
  age_of e h n m = ground arith

  not_eligible : (e : LifecycleEvaluation) → e ≡ no_op s → e.eligible ≢ true
  not_eligible e h el = cc

  -- What an evaluation is that took place.
  evaluated_as :
      (e : LifecycleEvaluation)
      → state_valid ops s ≡ true
      → evaluate_transition ops s created_at at config deps ≡ ok e
      → e.eligible ≡ true
      → (latest_anchor s created_at ≤ at)
        × IsEligible ops config s at
        × (e ≡ decided ops config s created_at at deps)
  evaluated_as e v h el =
      let le : latest_anchor s created_at ≤ at = in_time e h in
      elim (Bool-cases (temperature_eq s.temperature archived)) [
        | inl a ↦
            let e₁ =
              ok-injective (sym h ∙ evaluate_archived ops config s created_at at deps v le a) in
            absurd (not_eligible e e₁ el)
        | inr n ↦
            elim (Bool-cases (evaluated_recently ops s.last_lifecycle_evaluated_at at config)) [
              | inl r ↦
                  let e₁ = ok-injective (
                    sym h
                    ∙ evaluate_recent ops config s created_at at deps (interval_of e h n) v le r) in
                  absurd (not_eligible e e₁ el)
              | inr m ↦ (
                le,
                (n, m),
                ok-injective (
                    sym h
                    ∙ evaluate-fits ops config s created_at at deps
                        (interval_of e h n, age_of e h n m) v le (n, m)),
              )
            ]
      ]

  -- An eligible evaluation of a valid state, written as a lifecycle-evaluated event at the time of
  -- the evaluation for an experience created at `created_at`, passes every check that the projector
  -- makes of such an event after the shared ones: the changed fields, the times, the materialized
  -- strength and activation, the minimum interval, the threshold target and the counter.
  pub evaluated-checks :
      {P : Type 0} (e : LifecycleEvaluation) (event : StoredEvent Payload)
      (context : StateContext P)
      → state_valid ops s ≡ true
      → evaluate_transition ops s created_at at config deps ≡ ok e
      → e.eligible ≡ true
      → event.row.occurred_at ≡ at
      → context.identity.created_at ≡ created_at
      → lifecycle_evaluated_checks ops config event context s
          (evaluated_state s at e)
          at
          e.threshold_target
        ≡ ok tt
  unfolding lifecycle_evaluated_checks evaluated_state decided goal
  evaluated-checks e event context v h el t c =
      let (le, (n, r), d) = evaluated_as e v h el in
      rw (d, t)
        (ground (
          arith,
          agreed_changes (decided ops config s created_at at deps),
          agreed_materialization ops config s created_at at deps context.identity c v,
          agreed_policy le (n, r),
        ))
